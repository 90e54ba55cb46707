-- ===== src/Http/Links.antt =====
-- internal/httpapi/server.go: `shareLink`, which serves the file of a link to who has its token, and its
-- password or a cookie that stands for it. `look` is what the storage root tells of a path, and `served` how
-- the serving of the file goes.
pub mod Protected
use macftpd.Prelude.{
  ℕ, Bool, true, false, ◌&&◌, ◌||◌, not, Option, none, some, List, [], ◌∷◌, ◌++◌, if◌then◌else◌,
  ◌==◌,
}
use macftpd.Text.{Text, codes, is_empty, has_prefix, trim_prefix, trim, split, ◌=ₜ◌}
use macftpd.Auth.Password.{Crypto}
use macftpd.Ratelimit
use macftpd.Ratelimit.{Limiter}
use macftpd.Share
use macftpd.Share.{PublicLink}
use macftpd.Share.Tokens.{Digest, verify, verify_authorized}
use macftpd.Storage.{Root, resolve_admin}
use macftpd.Storage.Os.{Info}
use macftpd.Http.Sessions.{Signer, share_cookie, verify_share_cookie}
use macftpd.Http.Request.{Net, Request, Env, Server, is_method, client_addr_for_limit}
use macftpd.Http.Served.{FileServeResult, recordable_download, log_download_activity}

pub data Answer : Type 0 where
  not_found gone too_many not_allowed password_form : Answer
  -- to the same path, with the cookie of the link
  redirected : Text → Answer
  -- the page about a folder, and the file at a path in the file system
  shown file : Text → Answer

-- `linkParts`: the identifier and the token
abbrev pub two_parts : List Text → Option (Text × Text)
two_parts (id ∷ token ∷ parts) = if is_empty id || is_empty token then none else some (id, token)
two_parts parts = none

abbrev is_slash : ℕ → Bool
is_slash c = c == b'/'

unfoldable pub link_parts : Text → Text → Option (Text × Text)
link_parts path prefix = two_parts (split b'/' (trim is_slash (trim_prefix path prefix)))

-- what `verifySharePassword` gives
pub data Checked : Type 0 where
  limited : Checked
  checked : Share.Result PublicLink → Checked

module _ (c : Crypto) (d : Digest) (k : Signer) (net : Net) (glob : Text → Text → Option Bool)
    (r : Root) (look : Text → Option Info) (served : FileServeResult) (saved : Bool)
    (env : Env) where
  abbrev pub set_share_limit : Limiter → Server → Server
  set_share_limit l s = record s { share_limit = l }

  abbrev pub counted : Text → Share.Result PublicLink → Limiter → Limiter
  counted key (Share.err Share.denied) l = Ratelimit.fail env.now key l
  counted key (Share.err e) l = l
  counted key (Share.ok link) l = Ratelimit.reset key l

  abbrev pub password_checked :
      Text → Text → Text → Text → Limiter × Bool → Server → Server × Checked
  password_checked key id token password (l, false) s = (set_share_limit l s, limited)
  password_checked key id token password (l, true) s =
      let found = verify c d env.now id token password s.links in
      (set_share_limit (counted key found l) s, checked found)

  -- `verifySharePassword`
  unfoldable pub verify_share_password : Request → Text → Text → Text → Server → Server × Checked
  verify_share_password q id token password s =
      let key = client_addr_for_limit net q ++ codes "|share|" ++ id in
      password_checked key id token password (Ratelimit.allow env.now key s.share_limit) s

  abbrev pub finished : Text → Server → Server
  finished id s = record s {
    links = (Share.finish_download saved env.now id (recordable_download served) s.links).1;
  }

  abbrev pub noted : Request → Text → Server → Server
  noted q clean s =
      log_download_activity net env q (codes "share_download") (codes "share-link") q.referer clean
        (codes "public share download") served s

  -- the file is served while the download is reserved
  abbrev pub reserved :
      Request → Text → Text → Text → Share.Outcome (Unit {0}) → Server → Server × Answer
  reserved q id real clean (Share.err e, links) s = (record s { links = links }, gone)
  reserved q id real clean (Share.ok a, links) s =
      (noted q clean (finished id (record s { links = links })), file real)

  abbrev pub serve_file : Request → Text → Text → Text → Server → Server × Answer
  serve_file q id real clean s =
      if is_method q (codes "GET")
      then reserved q id real clean (Share.reserve_download env.now id s.links) s
      else if is_method q (codes "HEAD")
      then (noted q clean s, file real)
      else (s, not_allowed)

  abbrev pub serve_looked : Request → Text → Text → Text → Option Info → Server → Server × Answer
  serve_looked q id real clean none s = (s, not_found)
  serve_looked q id real clean (some info) s =
      if info.is_dir then (s, shown clean) else serve_file q id real clean s

  abbrev pub serve_resolved : Request → Text → Option (Text × Text) → Server → Server × Answer
  serve_resolved q id none s = (s, not_found)
  serve_resolved q id (some (real, clean)) s = serve_looked q id real clean (look real) s

  -- the link is verified; a password that was given is not asked for again
  abbrev pub serve_link : Request → Text → Text → Server × Checked → Server × Answer
  serve_link q id token (s, limited) = (s, too_many)
  serve_link q id token (s, checked (Share.err Share.denied)) = (s, password_form)
  serve_link q id token (s, checked (Share.err e)) = (s, gone)
  serve_link q id token (s, checked (Share.ok meta)) =
      if meta.has_password && is_method q (codes "POST")
      then (s, redirected (share_cookie k env.now id token))
      else serve_resolved q id (resolve_admin r glob meta.path) s

  abbrev pub check_link : Request → Bool → Bool → Text → Text → Text → Server → Server × Checked
  check_link q true has_password id token password s =
      (s, checked (verify_authorized c d env.now id token s.links))
  check_link q false true id token password s = verify_share_password q id token password s
  check_link q false false id token password s =
      (s, checked (verify c d env.now id token [] s.links))

  abbrev pub with_link : Request → Bool → Text → Text → Text → PublicLink → Server → Server × Answer
  with_link q cookie_authorized id token password meta s =
      if meta.has_password && not (is_method q (codes "POST")) && not cookie_authorized
      then (s, password_form)
      else serve_link q id token
          (check_link q cookie_authorized meta.has_password id token password s)

  abbrev pub with_public :
      Request
      → Option Text
      → Text
      → Text
      → Text
      → Share.Result PublicLink
      → Server
      → Server × Answer
  with_public q cookie id token password (Share.err e) s = (s, not_found)
  with_public q cookie id token password (Share.ok meta) s =
      if not (meta.kind =ₜ codes "download")
      then (s, not_found)
      else with_link q (meta.has_password && verify_share_cookie k env.now cookie id token) id token
          password meta s

  abbrev pub with_parts :
      Request → Option Text → Text → Option (Text × Text) → Server → Server × Answer
  with_parts q cookie password none s = (s, not_found)
  with_parts q cookie password (some (id, token)) s =
      with_public q cookie id token password (Share.public_of id s.links) s

  -- `shareLink`, with the cookie of the link in the request and the password in its form
  unfoldable pub share_link : Request → Option Text → Text → Server → Server × Answer
  share_link q cookie password s =
      let prefix = if has_prefix q.path (codes "/s/") then codes "/s/" else codes "/share/" in
      with_parts q cookie password (link_parts q.path prefix) s
