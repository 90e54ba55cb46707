-- ===== src/Http/Links/Protected.antt =====
-- Whom `shareLink` serves.
use macftpd.Prelude.{
  ◌≡◌, refl, Bool, true, false, ◌&&◌, not, Option, none, some, [], ◌++◌, ◌⊎◌, inl, inr,
  if◌then◌else◌, arith, Bool-cases, Option-cases, ◌∙◌, sym, ap,
}
use macftpd.Text.{Text, codes, has_prefix, ◌=ₜ◌, text_eq}
use macftpd.Dict.{get}
use macftpd.Auth.Password.{Crypto}
use macftpd.Ratelimit
use macftpd.Ratelimit.{Limiter}
use macftpd.Share
use macftpd.Share.{Link, PublicLink, Store, public, public_of}
use macftpd.Share.Tokens.{Digest, verify, verify_authorized, validate}
use macftpd.Storage.{Root, resolve_admin}
use macftpd.Storage.Os.{Info}
use macftpd.Http.Sessions.{Signer, share_cookie, verify_share_cookie}
use macftpd.Http.Request.{Net, Request, Env, Server, is_method, client_addr_for_limit}
use macftpd.Http.Served.{FileServeResult}
use macftpd.Http.Links.{
  Answer, not_found, gone, too_many, not_allowed, password_form, redirected, shown, file, checked,
  link_parts, serve_file, serve_looked, serve_resolved, reserved, serve_link, password_checked,
  verify_share_password, with_link, with_public, with_parts, share_link,
}

-- the answer gives something of the link away, or a cookie, only if so
abbrev pub OnlyIf : Type 0 → (Text → Type 0) → Answer → Type 0
OnlyIf P R (file real) = P
OnlyIf P R (shown clean) = P
OnlyIf P R (redirected cookie) = R cookie
OnlyIf P R not_found = Unit
OnlyIf P R gone = Unit
OnlyIf P R too_many = Unit
OnlyIf P R not_allowed = Unit
OnlyIf P R password_form = Unit

module _ (c : Crypto) (d : Digest) (k : Signer) (net : Net) (glob : Text → Text → Option Bool)
    (r : Root) (look : Text → Option Info) (served : FileServeResult) (saved : Bool)
    (env : Env) where
  -- what shows that a caller may have the file of a link
  abbrev pub MayHave : Option Text → Text → Text → Store → Type 0
  MayHave cookie id token links =
      (meta : PublicLink) × (public_of id links ≡ Share.ok meta)
      × ((meta.kind =ₜ codes "download") ≡ true)
      × (((verify_share_cookie k env.now cookie id token ≡ true)
            × (verify_authorized c d env.now id token links ≡ Share.ok meta))
          ⊎ ((meta.has_password ≡ false) × (verify c d env.now id token [] links ≡ Share.ok meta)))

  -- what shows that a caller may have a cookie for a link with a password: the password, or such a cookie
  abbrev pub MayEnter : Option Text → Text → Text → Text → Store → Text → Type 0
  MayEnter cookie id token password links given =
      (meta : PublicLink) × (public_of id links ≡ Share.ok meta)
      × ((meta.kind =ₜ codes "download") ≡ true)
      × (meta.has_password ≡ true)
      × (given ≡ share_cookie k env.now id token)
      × ((verify c d env.now id token password links ≡ Share.ok meta)
          ⊎ ((verify_share_cookie k env.now cookie id token ≡ true)
              × (verify_authorized c d env.now id token links ≡ Share.ok meta)))

  serve_file-OnlyIf :
      (P : Type 0) (R : Text → Type 0) (q : Request) (id real clean : Text) (s : Server)
      → P
      → OnlyIf P R (serve_file c d k net glob r look served saved env q id real clean s).1
  serve_file-OnlyIf P R q id real clean s p = elim (Bool-cases (is_method q (codes "GET"))) [
    | inl get_it ↦ rw get_it (reserved-OnlyIf (Share.reserve_download env.now id s.links))
    | inr e ↦ elim (Bool-cases (is_method q (codes "HEAD"))) [
      | inl h ↦ rw (e, h) p
      | inr h ↦ rw (e, h) tt
    ]
  ]
    where
      reserved-OnlyIf :
          (x : Share.Outcome (Unit {0}))
          → OnlyIf P R (reserved c d k net glob r look served saved env q id real clean x s).1
      reserved-OnlyIf (Share.err e, links) = tt
      reserved-OnlyIf (Share.ok a, links) = p

  serve_resolved-OnlyIf :
      (P : Type 0) (R : Text → Type 0) (q : Request) (id : Text) (o : Option (Text × Text))
      (s : Server)
      → P
      → OnlyIf P R (serve_resolved c d k net glob r look served saved env q id o s).1
  serve_resolved-OnlyIf P R q id none s p = tt
  serve_resolved-OnlyIf P R q id (some (real, clean)) s p = looked-OnlyIf (look real)
    where
      looked-OnlyIf :
          (o : Option Info)
          → OnlyIf P R (serve_looked c d k net glob r look served saved env q id real clean o s).1
      looked-OnlyIf none = tt
      looked-OnlyIf (some info) = elim (Bool-cases info.is_dir) [
        | inl e ↦ rw e p
        | inr e ↦ rw e (serve_file-OnlyIf P R q id real clean s p)
      ]

  serve_link-OnlyIf :
      (P : Type 0) (R : Text → Type 0) (q : Request) (id token : Text) (s : Server)
      (res : Share.Result PublicLink)
      → ((m : PublicLink)
          → res ≡ Share.ok m
          → (m.has_password && is_method q (codes "POST")) ≡ false
          → P)
      → ((m : PublicLink)
          → res ≡ Share.ok m
          → m.has_password ≡ true
          → R (share_cookie k env.now id token))
      → OnlyIf P R (serve_link c d k net glob r look served saved env q id token (s, checked res)).1
  serve_link-OnlyIf P R q id token s (Share.err Share.denied) h g = tt
  serve_link-OnlyIf P R q id token s (Share.err e) h g = tt
  serve_link-OnlyIf P R q id token s (Share.ok m) h g =
      elim (Bool-cases (m.has_password && is_method q (codes "POST"))) [
        | inl e ↦ rw e (g m refl (ground arith))
        | inr e ↦ rw e (serve_resolved-OnlyIf P R q id (resolve_admin r glob m.path) s (h m refl e))
      ]

  verify-public_of :
      (password id token : Text) (links : Store) (m : PublicLink)
      → verify c d env.now id token password links ≡ Share.ok m
      → public_of id links ≡ Share.ok m
  unfolding verify public_of
  verify-public_of password id token links m = elim (Option-cases (get id links.links)) [
    | inl e ↦ rw e (λ h. cc)
    | inr (link, e) ↦ rw e (elim (Option-cases (validate c d env.now link token password false)) [
      | inl v ↦ rw v (λ h. h)
      | inr (f, v) ↦ rw v (λ h. cc)
    ])
  ]

  verify_authorized-public_of :
      (id token : Text) (links : Store) (m : PublicLink)
      → verify_authorized c d env.now id token links ≡ Share.ok m
      → public_of id links ≡ Share.ok m
  unfolding verify_authorized public_of
  verify_authorized-public_of id token links m = elim (Option-cases (get id links.links)) [
    | inl e ↦ rw e (λ h. cc)
    | inr (link, e) ↦ rw e (elim (Option-cases (validate c d env.now link token [] true)) [
      | inl v ↦ rw v (λ h. h)
      | inr (f, v) ↦ rw v (λ h. cc)
    ])
  ]

  same_link :
      (a b : PublicLink) (o : Share.Result PublicLink) → o ≡ Share.ok a → o ≡ Share.ok b → a ≡ b
  same_link a b o e f = ap (link_or a) (sym e ∙ f)
    where
      link_or : PublicLink → Share.Result PublicLink → PublicLink
      link_or other (Share.ok m) = m
      link_or other (Share.err e) = other

  -- a password that was just given is answered with a cookie, and nothing else
  asked_password :
      (P : Type 0) (q : Request) (cookie : Option Text) (id token password : Text)
      (meta : PublicLink) (s : Server)
      → public_of id s.links ≡ Share.ok meta
      → ((meta.kind =ₜ codes "download") ≡ true)
      → meta.has_password ≡ true
      → is_method q (codes "POST") ≡ true
      → (key : Text) (x : Limiter × Bool)
      → OnlyIf P
          (MayEnter cookie id token password s.links)
          (serve_link c d k net glob r look served saved env q id token
            (password_checked c d k net glob r look served saved env key id token password x s)).1
  asked_password P q cookie id token password meta s there kind locked post key (l, false) = tt
  asked_password P q cookie id token password meta s there kind locked post key (l, true) =
      serve_link-OnlyIf P (MayEnter cookie id token password s.links) q id token _
        (verify c d env.now id token password s.links)
        (λ m e free.
          let same =
            same_link meta m (public_of id s.links) there
              (verify-public_of password id token s.links m e) in
          let locked' : m.has_password ≡ true = ap (λ x. x.has_password) (sym same) ∙ locked in
          absurd (ground arith))
        (λ m e with_password.
          let there' = verify-public_of password id token s.links m e in
          let same = same_link meta m (public_of id s.links) there there' in
          (
            m,
            there',
            ap (λ x. x.kind =ₜ codes "download") (sym same) ∙ kind,
            with_password,
            refl,
            inl e,
          ))

  with_link-OnlyIf :
      (q : Request) (cookie : Option Text) (id token password : Text) (meta : PublicLink)
      (s : Server)
      → public_of id s.links ≡ Share.ok meta
      → ((meta.kind =ₜ codes "download") ≡ true)
      → (authorized has : Bool)
      → (meta.has_password && verify_share_cookie k env.now cookie id token) ≡ authorized
      → meta.has_password ≡ has
      → OnlyIf
          (MayHave cookie id token s.links)
          (MayEnter cookie id token password s.links)
          (with_link c d k net glob r look served saved env q authorized id token password meta s).1
  unfolding verify_share_password
  with_link-OnlyIf q cookie id token password meta s there kind true has auth locked =
      let through : (meta.has_password && not (is_method q (codes "POST")) && not true) ≡ false =
        ground arith in
      rw through (
        serve_link-OnlyIf (MayHave cookie id token s.links)
          (MayEnter cookie id token password s.links) q id token s
          (verify_authorized c d env.now id token s.links)
          (λ m e free.
            let there' = verify_authorized-public_of id token s.links m e in
            let same = same_link meta m (public_of id s.links) there there' in
            (
              m,
              there',
              ap (λ x. x.kind =ₜ codes "download") (sym same) ∙ kind,
              inl (ground arith, e),
            ))
          (λ m e with_password.
            let there' = verify_authorized-public_of id token s.links m e in
            let same = same_link meta m (public_of id s.links) there there' in
            (
              m,
              there',
              ap (λ x. x.kind =ₜ codes "download") (sym same) ∙ kind,
              with_password,
              refl,
              inr (ground arith, e),
            )))
  with_link-OnlyIf q cookie id token password meta s there kind false false auth locked =
      rw locked (
        serve_link-OnlyIf (MayHave cookie id token s.links)
          (MayEnter cookie id token password s.links) q id token s
          (verify c d env.now id token [] s.links)
          (λ m e free.
            let there' = verify-public_of [] id token s.links m e in
            let same = same_link meta m (public_of id s.links) there there' in
            (
              m,
              there',
              ap (λ x. x.kind =ₜ codes "download") (sym same) ∙ kind,
              inr (ap (λ x. x.has_password) (sym same) ∙ locked, e),
            ))
          (λ m e with_password.
            let there' = verify-public_of [] id token s.links m e in
            let same = same_link meta m (public_of id s.links) there there' in
            let open_to_all : m.has_password ≡ false =
              ap (λ x. x.has_password) (sym same) ∙ locked in
            absurd (ground arith)))
  with_link-OnlyIf q cookie id token password meta s there kind false true auth locked =
      elim (Bool-cases (is_method q (codes "POST"))) [
        | inr e ↦ rw (locked, e) tt
        | inl e ↦
            rw (locked, e)
              (asked_password (MayHave cookie id token s.links) q cookie id token password meta s
                there kind locked e (client_addr_for_limit net q ++ codes "|share|" ++ id)
                (Ratelimit.allow env.now (client_addr_for_limit net q ++ codes "|share|" ++ id)
                  s.share_limit))
      ]

  with_public-OnlyIf :
      (q : Request) (cookie : Option Text) (id token password : Text) (s : Server)
      (res : Share.Result PublicLink)
      → public_of id s.links ≡ res
      → OnlyIf
          (MayHave cookie id token s.links)
          (MayEnter cookie id token password s.links)
          (with_public c d k net glob r look served saved env q cookie id token password res s).1
  with_public-OnlyIf q cookie id token password s (Share.err e) there = tt
  with_public-OnlyIf q cookie id token password s (Share.ok meta) there =
      elim (Bool-cases (meta.kind =ₜ codes "download")) [
        | inr e ↦ rw e tt
        | inl e ↦ rw e (
            with_link-OnlyIf q cookie id token password meta s there e
              (meta.has_password && verify_share_cookie k env.now cookie id token) meta.has_password
              refl refl)
      ]

  -- the identifier and the token in the path of a request
  abbrev pub asked_for : Request → Option (Text × Text)
  asked_for q =
      link_parts q.path (if has_prefix q.path (codes "/s/") then codes "/s/" else codes "/share/")

  abbrev pub MayHaveParts : Option Text → Store → Option (Text × Text) → Type 0
  MayHaveParts cookie links none = ⊥
  MayHaveParts cookie links (some (id, token)) = MayHave cookie id token links

  abbrev pub MayEnterParts : Option Text → Text → Store → Option (Text × Text) → Text → Type 0
  MayEnterParts cookie password links none given = ⊥
  MayEnterParts cookie password links (some (id, token)) given =
      MayEnter cookie id token password links given

  with_parts-OnlyIf :
      (q : Request) (cookie : Option Text) (password : Text) (s : Server)
      (parts : Option (Text × Text))
      → OnlyIf
          (MayHaveParts cookie s.links parts)
          (MayEnterParts cookie password s.links parts)
          (with_parts c d k net glob r look served saved env q cookie password parts s).1
  with_parts-OnlyIf q cookie password s none = tt
  with_parts-OnlyIf q cookie password s (some (id, token)) =
      with_public-OnlyIf q cookie id token password s (public_of id s.links) refl

  -- A file or a folder page is given away only for a link to download, whose token the request has, and which
  -- is open; and only if the link has no password, or the request has a cookie that the server signed for
  -- this link and token and that has not run out. Such a cookie is given away only for a link to download that is
  -- open and has a password, and only if the request has its token and the right password, or such a cookie already.
  pub share_link-OnlyIf :
      (q : Request) (cookie : Option Text) (password : Text) (s : Server)
      → OnlyIf
          (MayHaveParts cookie s.links (asked_for q))
          (MayEnterParts cookie password s.links (asked_for q))
          (share_link c d k net glob r look served saved env q cookie password s).1
  unfolding share_link
  share_link-OnlyIf q cookie password s = with_parts-OnlyIf q cookie password s (asked_for q)
