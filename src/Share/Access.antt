-- ===== src/Share/Access.antt =====
-- Who gets through a link.
use macftpd.Prelude.{
  ◌+◌, ◌≤◌, ◌≡◌, refl, ◌↔◌, Bool, true, false, Option, none, some, List, [], ◌∷◌, arith,
  Option-cases, Bool-cases, inl, inr, ℤ, ◌⊎◌, ◌∙◌, pos, negsuc, zero, suc, subst, sym, All,
}
use macftpd.Text.{Text, text_eq, is_empty, =ₜ_iff}
use macftpd.Text.Laws.{=ₜ_refl}
use macftpd.Dict.{get, put, get-put_self}
use macftpd.Clock.{Time}
use macftpd.Auth.Password.{
  Crypto, IsCrypto, verify_password, hash_password, verify_password-hash_password,
}
use macftpd.Share.{Link, PublicLink, CreateRequest, Store, ok, public, is_spent, available}
use macftpd.Share.Tokens.{
  Digest, hash_token, validate, verify, verify_authorized, create, is_bad_kind, fresh_id, new_link,
  password_hash_of,
}
use macftpd.Share.Downloads.{Op, run}
use macftpd.Share.Others.{Spares, run-Stays}

module _ (c : Crypto) (d : Digest) (now : Time) (id token : Text) (s : Store) (link : Link)
    (found : get id s.links ≡ some link) where
  -- The link is open: not disabled, not past its time, and with downloads left.
  abbrev IsOpen : Type 0
  IsOpen =
      (link.disabled ≡ false)
      × ((link.expires_at ≡ 0) ⊎ (now ≤ link.expires_at))
      × (is_spent link.max_downloads (link.download_count + 0) ≡ false)

  -- A link that is there answers a token and a password exactly if it is open, the token has the stored
  -- hash, and it has no password or the stored hash of the password accepts the one given. With the password
  -- verified before, exactly if it is open and the token has the stored hash.
  pub verify_exact :
      (password : Text)
      → ((verify c d now id token password s ≡ ok (public link)) ↔ (
          (IsOpen × (hash_token d token ≡ link.token_hash))
          × ((is_empty link.password_hash ≡ true)
              ⊎ (verify_password c link.password_hash password ≡ true))))
        × ((verify_authorized c d now id token s ≡ ok (public link))
            ↔ (IsOpen × (hash_token d token ≡ link.token_hash)))
  unfolding verify verify_authorized validate available
  verify_exact password = rw found (ground (arith, =ₜ_iff (hash_token d token) link.token_hash))

module _ (c : Crypto) (d : Digest) (crypto : IsCrypto c) where
  -- The password of a new link opens it.
  password_opens :
      (salt : Option Text) (password hash : Text)
      → password_hash_of c d salt password ≡ some hash
      → (is_empty hash ≡ true) ⊎ (verify_password c hash password ≡ true)
  unfolding hash_password
  password_opens salt [] hash h = inl (ground arith)
  password_opens none (p ∷ password) hash h = ground arith
  password_opens (some salt) (p ∷ password) hash h =
      inr (
        verify_password-hash_password c crypto salt (p ∷ password) (p ∷ password) hash h
        ∙ =ₜ_refl _)

  new-not-spent : (max : ℤ) → is_spent max (0 + 0) ≡ false
  new-not-spent (pos zero) = refl
  new-not-spent (pos (suc max)) = ground arith
  new-not-spent (negsuc n) = refl

  validate-new_link :
      (now later : Time) (req : CreateRequest) (id token hash : Text)
      → (req.expires_at ≡ 0) ⊎ (later ≤ req.expires_at)
      → (is_empty hash ≡ true) ⊎ (verify_password c hash req.password ≡ true)
      → validate c d later (new_link c d now req id token hash) token req.password false ≡ none
  unfolding validate available new_link
  validate-new_link now later req id token hash e h =
      ground (arith, new-not-spent req.max_downloads, =ₜ_refl (hash_token d token))

  -- What a successful creation has done.
  create-ok :
      (saved : Bool) (now : Time) (ids : List Text) (token salt : Option Text) (req : CreateRequest)
      (s : Store) (p : PublicLink) (t : Text)
      → (create c d saved now ids token salt req s).0 ≡ ok (p, t)
      → (i : Text) × (hash : Text) × (password_hash_of c d salt req.password ≡ some hash)
        × (public (new_link c d now req i t hash) ≡ p)
        × ((create c d saved now ids token salt req s).1
            ≡ record s { links = put i (new_link c d now req i t hash) s.links })
  unfolding create
  create-ok saved now [] token salt req s p t h = absurd (ground arith)
  create-ok saved now (id ∷ ids) none salt req s p t h = absurd (ground arith)
  create-ok false now (id ∷ ids) (some u) salt req s p t h = absurd (ground arith)
  create-ok true now (id ∷ ids) (some u) salt req s p t h =
      elim (Bool-cases (is_bad_kind req.kind)) [
        | inl bad ↦ absurd (ground arith)
        | inr good ↦ elim (Option-cases (password_hash_of c d salt req.password)) [
          | inl no_hash ↦ absurd (ground arith)
          | inr (hash, hashed) ↦ elim (Option-cases (fresh_id s.links (id ∷ ids))) [
            | inl taken ↦ absurd (ground arith)
            | inr (i, free) ↦ (i, hash, hashed, ground arith, ground arith)
          ]
        ]
      ]

  stored-opens :
      (link : Link) (later : Time) (token password : Text) (s : Store)
      → get link.id s.links ≡ some link
      → validate c d later link token password false ≡ none
      → verify c d later (public link).id token password s ≡ ok (public link)
  unfolding verify public
  stored-opens link later token password s there h = rw (there, h) refl

  -- A link that was made opens with its token and the password that was asked for, until the time that was asked
  -- for, and shows what the creation returned: after any operations on the store that do not count a download of
  -- this link, change it or delete it. Creations of other links, with the identifiers that they draw, are among these
  -- operations.
  pub verify-create :
      (saved : Bool) (now later : Time) (ids : List Text) (token salt : Option Text)
      (req : CreateRequest) (s : Store) (p : PublicLink) (t : Text) (ops : List Op)
      → (create c d saved now ids token salt req s).0 ≡ ok (p, t)
      → (req.expires_at ≡ 0) ⊎ (later ≤ req.expires_at)
      → All (Spares p.id) ops
      → verify c d later p.id t req.password
          (run c d ops (create c d saved now ids token salt req s).1)
        ≡ ok p
  unfolding new_link public
  verify-create saved now later ids token salt req s p t ops h e spares =
      let (i, hash, hashed, shown, left) = create-ok saved now ids token salt req s p t h in
      let link = new_link c d now req i t hash in
      let opens =
        validate-new_link now later req i t hash e (password_opens salt req.password hash hashed) in
      let kept =
        run-Stays c d i link ops (record s { links = put i link s.links })
          (subst (λ (q : PublicLink). All (Spares q.id) ops) (sym shown) spares)
          (get-put_self i link s.links) in
      subst
        (λ (q : PublicLink).
          verify c d later q.id t req.password
            (run c d ops (create c d saved now ids token salt req s).1)
          ≡ ok q)
        shown
        (rw left (
          stored-opens link later t req.password
            (run c d ops (record s { links = put i link s.links })) kept opens))
