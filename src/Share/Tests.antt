-- ===== src/Share/Tests.antt =====
-- A link at work, and the theorems at concrete inputs.
use macftpd.Prelude.{
  ◌≡◌, refl, true, false, none, some, List, [], ◌∷◌, pos, arith, inl, inr, Bool-cases, subst, All,
  ◌+◌,
}
use macftpd.Text.{Text, codes, ◌=ₜ◌, text_eq}
use macftpd.Dict.{get}
use macftpd.Auth.Toy.{toy, toy-IsCrypto}
use macftpd.Share.{Link, CreateRequest, Store, ok, public, PublicLink, active_of}
use macftpd.Share.Tokens.{Digest, hash_token, verify, create, new_link, fresh_id, is_bad_kind}
use macftpd.Share.Access.{verify_exact, verify-create}
use macftpd.Share.Bounds.{Within, IsWithin}
use macftpd.Share.Others.{Spares}
use macftpd.Share.Downloads.{
  run, Op, reserve_op, finish_op, create_op, delete_op, downloads-IsWithin,
}

abbrev pub toy_digest : Digest
toy_digest = record { sha256 = λ s. s; encode = λ s. s }

abbrev pub key : Text
key = b'k' ∷ []

abbrev pub token : Text
token = b't' ∷ []

-- a request for a link that can be downloaded once, without a password
abbrev request : CreateRequest
request = record {
  kind = codes "download";
  path = codes "/a";
  label = [];
  created_by = codes "ann";
  expires_at = 90;
  max_downloads = pos 1;
  password = [];
  allow_overwrite = false;
}

abbrev pub link : Link
link = record {
  id = key;
  kind = codes "download";
  path = codes "/a";
  url_path = [];
  label = [];
  created_by = codes "ann";
  created_at = 5;
  expires_at = 90;
  max_downloads = pos 1;
  download_count = 0;
  last_download_at = 0;
  token_hash = token;
  password_hash = [];
  allow_overwrite = false;
  disabled = false;
}

abbrev pub store : Store
store = record { links = (key, link) ∷ []; active = [] }

link_there : get key store.links ≡ some link
unfolding get ◌=ₜ◌
link_there = refl

verify_exact_example : verify toy toy_digest 50 key token [] store ≡ ok (public link)
unfolding hash_token
verify_exact_example =
    (verify_exact toy toy_digest 50 key token store link link_there []).0.1
      (((refl, inr (omega arith), refl), refl), inl refl)

store-IsWithin : IsWithin store
unfolding get
store-IsWithin = record {
  at = λ id other f. elim (Bool-cases (key =ₜ id)) [
    | inl e ↦
        let same : link ≡ other = ground arith in
        subst (λ l. Within l.max_downloads (l.download_count + active_of id store)) same
          (omega arith)
    | inr e ↦ absurd (ground arith)
  ];
}

-- the link is reserved, refused a second time, and the download ends
abbrev ops : List Op
ops = reserve_op 6 key ∷ reserve_op 7 key ∷ finish_op true 8 key true ∷ []

downloads-IsWithin_example : IsWithin (run toy toy_digest ops store)
downloads-IsWithin_example =
    downloads-IsWithin toy toy_digest ops store (tt, (tt, (tt, tt))) store-IsWithin

-- what its creation returns
abbrev shown : PublicLink
shown = public (new_link toy toy_digest 5 request key token [])

created :
    (create toy toy_digest true 5
      (key ∷ [])
      (some token)
      none
      request
      (record { links = []; active = [] })).0
    ≡ ok (shown, token)
unfolding create fresh_id is_bad_kind get ◌=ₜ◌ codes
created = refl

-- another link is made, tried and deleted
abbrev meanwhile : List Op
meanwhile =
    create_op true 6 (key ∷ (b'l' ∷ []) ∷ []) (some token) none request
    ∷ reserve_op 7 key
    ∷ delete_op true (b'l' ∷ [])
    ∷ []

spared : All (Spares key) meanwhile
unfolding ◌=ₜ◌
spared = (tt, (tt, (refl, tt)))

verify-create_example :
    verify toy toy_digest 80 key token [] (
      run toy toy_digest meanwhile
        (create toy toy_digest true 5
          (key ∷ [])
          (some token)
          none
          request
          (record { links = []; active = [] })).1)
    ≡ ok shown
unfolding public new_link
verify-create_example =
    verify-create toy toy_digest toy-IsCrypto true 5 80 (key ∷ []) (some token) none request
      (record { links = []; active = [] }) shown token meanwhile created (inr (omega arith)) spared
