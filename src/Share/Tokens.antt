-- ===== src/Share/Tokens.antt =====
-- internal/share/share.go: the making of a link and the test of its token and password. SHA-256 and the
-- URL-safe base64 are parameters.
use macftpd.Prelude.{
  Bool, true, false, ◌&&◌, not, Option, none, some, List, [], ◌∷◌, ◌++◌, if◌then◌else◌,
}
use macftpd.Text.{Text, codes, is_empty, trim_space, ◌=ₜ◌, text_eq}
use macftpd.Dict.{Dict, get, put}
use macftpd.Clock.{Time}
use macftpd.Auth.Password.{Crypto, verify_password, hash_password}
use macftpd.Share.{
  Link, PublicLink, CreateRequest, Store, Error, not_found, denied, bad_kind, no_random,
  hash_failed, Result, ok, err, Outcome, save, public, available, clean_path,
}

pub record Digest : Type 0 where
  -- `sha256.Sum256`
  pub sha256 : Text → Text
  -- `base64.RawURLEncoding`
  pub encode : Text → Text

unfoldable pub hash_token : Digest → Text → Text
hash_token d token = d.encode (d.sha256 token)

abbrev drawn : Text → Option Link → Option Text → Option Text
drawn id none later = some id
drawn id (some taken) later = later

-- the loop over the drawn identifiers, until one that is not in use; where they end, a draw has failed
unfoldable pub fresh_id : Dict Text Link → List Text → Option Text
fresh_id links [] = none
fresh_id links (id ∷ ids) = let rest = fresh_id links ids in drawn id (get id links) rest

abbrev upload_kind : Text
upload_kind = codes "upload"

-- `req.Kind != KindDownload && req.Kind != KindUpload`
unfoldable pub is_bad_kind : Text → Bool
is_bad_kind kind = not (kind =ₜ codes "download") && not (kind =ₜ upload_kind)

module _ (c : Crypto) (d : Digest) where
  unfoldable pub validate : Time → Link → Text → Text → Bool → Option Error
  validate now link token password already_verified = elim (available now link 0) [
    | some e ↦ some e
    | none ↦
        if not (hash_token d token =ₜ link.token_hash)
        then some denied
        else if not (is_empty link.password_hash)
            && not already_verified
            && not (verify_password c link.password_hash password)
        then some denied
        else none
  ]

  abbrev answer : Link → Option Error → Result PublicLink
  answer link none = ok (public link)
  answer link (some e) = err e

  abbrev verify_found : Time → Text → Text → Bool → Option Link → Result PublicLink
  verify_found now token password already_verified none = err not_found
  verify_found now token password already_verified (some link) =
      answer link (validate now link token password already_verified)

  unfoldable pub verify : Time → Text → Text → Text → Store → Result PublicLink
  verify now id token password s = verify_found now token password false (get id s.links)

  unfoldable pub verify_authorized : Time → Text → Text → Store → Result PublicLink
  verify_authorized now id token s = verify_found now token [] true (get id s.links)

  unfoldable pub new_link : Time → CreateRequest → Text → Text → Text → Link
  new_link now req id token password_hash = record {
    id = id;
    kind = req.kind;
    path = clean_path req.path;
    url_path = (if req.kind =ₜ upload_kind then codes "/d/" else codes "/s/") ++ id ++ b'/' ∷ token;
    label = trim_space req.label;
    created_by = req.created_by;
    created_at = now;
    expires_at = req.expires_at;
    max_downloads = req.max_downloads;
    download_count = 0;
    last_download_at = 0;
    token_hash = hash_token d token;
    password_hash = password_hash;
    allow_overwrite = req.allow_overwrite;
    disabled = false;
  }

  -- no hash without a password
  abbrev pub password_hash_of : Option Text → Text → Option Text
  password_hash_of salt [] = some []
  password_hash_of salt (p ∷ password) = hash_password c salt (p ∷ password)

  abbrev store_link :
      Bool → Time → CreateRequest → Text → Text → Option Text → Store → Outcome (PublicLink × Text)
  store_link saved now req token hash none s = (err no_random, s)
  store_link saved now req token hash (some id) s =
      let link = new_link now req id token hash in
      save saved (public link, token) (record s { links = put id link s.links })

  abbrev hash_link :
      Bool
      → Time
      → CreateRequest
      → List Text
      → Text
      → Option Text
      → Store
      → Outcome (PublicLink × Text)
  hash_link saved now req ids token none s = (err hash_failed, s)
  hash_link saved now req ids token (some hash) s =
      store_link saved now req token hash (fresh_id s.links ids) s

  -- `ids` are the identifiers that are drawn one after the other, `token` the drawn token, and `salt` that of
  -- a password; a draw that fails is missing.
  unfoldable pub create :
      Bool
      → Time
      → List Text
      → Option Text
      → Option Text
      → CreateRequest
      → Store
      → Outcome (PublicLink × Text)
  create saved now ids token salt req s =
      if is_bad_kind req.kind then (err bad_kind, s) else elim ids [
        | [] ↦ (err no_random, s)
        | id ∷ rest ↦ elim token [
          | none ↦ (err no_random, s)
          | some t ↦ hash_link saved now req (id ∷ rest) t (password_hash_of salt req.password) s
        ]
      ]
