-- ===== src/Share/Others.antt =====
-- A link stays as it is while other links are worked on.
use macftpd.Prelude.{
  ◌≡◌, refl, ◌+◌, leb, sym, Bool, true, false, Option, none, some, List, [], ◌∷◌, arith,
  Option-cases, Bool-cases, inl, inr, ap, ◌∙◌, All,
}
use mathlib.Core.Option.{some-injective}
use macftpd.Text.{Text, text_eq, ◌=ₜ◌, =ₜ_iff}
use macftpd.Dict.{Dict, get, get-put, get-del}
use macftpd.Clock.{Time}
use macftpd.Auth.Password.{Crypto}
use macftpd.Share.{
  Link, CreateRequest, Store, active_of, available, release, save, reserve_download,
  finish_download, set_url_path, delete,
}
use macftpd.Share.Tokens.{Digest, create, is_bad_kind, fresh_id, new_link, password_hash_of}
use macftpd.Share.Bounds.{links-release}
use macftpd.Share.Downloads.{
  Op, reserve_op, finish_op, set_url_op, delete_op, create_op, apply, run,
}

-- The operation does not count a download of a link, does not change it and does not delete it.
abbrev pub Spares : Text → Op → Type 0
Spares id (reserve_op now i) = Unit
Spares id (finish_op saved now i completed) = (i =ₜ id) ≡ false
Spares id (set_url_op saved i url) = (i =ₜ id) ≡ false
Spares id (delete_op saved i) = (i =ₜ id) ≡ false
Spares id (create_op saved now ids token salt req) = Unit

links-save : {A : Type 0} (saved : Bool) (a : A) (s : Store) → (save saved a s).1.links ≡ s.links
links-save true a s = refl
links-save false a s = refl

links-reserve : (now : Time) (i : Text) (s : Store) → (reserve_download now i s).1.links ≡ s.links
unfolding reserve_download
links-reserve now i s = elim (Option-cases (get i s.links)) [
  | inl e ↦ rw e refl
  | inr (link, e) ↦ elim (Option-cases (available now link (active_of i s))) [
    | inl f ↦ rw (e, f) refl
    | inr (x, f) ↦ rw (e, f) refl
  ]
]

get-set_url_path :
    (id : Text) (saved : Bool) (i url : Text) (s : Store)
    → (i =ₜ id) ≡ false
    → get id (set_url_path saved i url s).1.links ≡ get id s.links
unfolding set_url_path
get-set_url_path id saved i url s other = elim (Option-cases (get i s.links)) [
  | inl e ↦ rw e refl
  | inr (link, e) ↦ rw e (
      ap (get id) (links-save saved tt _)
      ∙ get-put i id (record link { url_path = url }) s.links
      ∙ rw other refl)
]

get-delete :
    (id : Text) (saved : Bool) (i : Text) (s : Store)
    → (i =ₜ id) ≡ false
    → get id (delete saved i s).1.links ≡ get id s.links
unfolding delete
get-delete id saved i s other = elim (Option-cases (get i s.links)) [
  | inl e ↦ rw e refl
  | inr (link, e) ↦
      rw e (ap (get id) (links-save saved tt _) ∙ get-del i id s.links ∙ rw other refl)
]

get-finish_download :
    (id : Text) (saved : Bool) (now : Time) (i : Text) (completed : Bool) (s : Store)
    → (i =ₜ id) ≡ false
    → get id (finish_download saved now i completed s).1.links ≡ get id s.links
unfolding finish_download
get-finish_download id saved now i completed s other = elim (Bool-cases (leb (active_of i s) 0)) [
  | inl e ↦ rw e refl
  | inr e ↦ elim (Bool-cases completed) [
    | inr f ↦ rw (e, f) (ap (get id) (links-release i s))
    | inl f ↦ elim (Option-cases (get i (release i s).links)) [
      | inl g ↦ rw (e, f, g) (ap (get id) (links-release i s))
      | inr (link, g) ↦
          rw (e, f, g)
            (ap (get id) (links-save saved tt _)
              ∙ get-put i id
                  (record link { download_count = link.download_count + 1; last_download_at = now })
                  (release i s).links
              ∙ rw other (ap (get id) (links-release i s)))
    ]
  ]
]

-- an identifier that is drawn is not there
fresh_id-none :
    (links : Dict Text Link) (ids : List Text) (i : Text)
    → fresh_id links ids ≡ some i
    → get i links ≡ none
unfolding fresh_id
fresh_id-none links [] i = λ e. absurd (cc)
fresh_id-none links (id ∷ ids) i = elim (Option-cases (get id links)) [
  | inl free ↦ rw free (λ e. ap (λ x. get x links) (sym (some-injective id i e)) ∙ free)
  | inr (link, taken) ↦ rw taken (λ e. fresh_id-none links ids i e)
]

module _ (c : Crypto) (d : Digest) (id : Text) (link : Link) where
  abbrev Stays : Store → Type 0
  Stays s = get id s.links ≡ some link

  create-Stays :
      (saved : Bool) (now : Time) (ids : List Text) (token salt : Option Text) (req : CreateRequest)
      (s : Store)
      → Stays s
      → Stays (create c d saved now ids token salt req s).1
  unfolding create
  create-Stays saved now [] token salt req s h = ground arith
  create-Stays saved now (k ∷ ids) none salt req s h = ground arith
  create-Stays saved now (k ∷ ids) (some t) salt req s h =
      elim (Bool-cases (is_bad_kind req.kind)) [
        | inl e ↦ rw e h
        | inr e ↦ elim (Option-cases (password_hash_of c d salt req.password)) [
          | inl no_hash ↦ rw (e, no_hash) h
          | inr (hash, hashed) ↦ elim (Option-cases (fresh_id s.links (k ∷ ids))) [
            | inl taken ↦ rw (e, hashed, taken) h
            | inr (i, free) ↦
                let absent = fresh_id-none s.links (k ∷ ids) i free in
                rw (e, hashed, free)
                  (ap (get id) (links-save saved _ _)
                    ∙ get-put i id (new_link c d now req i t hash) s.links
                    ∙ elim (Bool-cases (i =ₜ id)) [
                      | inr other ↦ rw other h
                      | inl same ↦
                          let there : get i s.links ≡ some link =
                            ap (λ x. get x s.links) ((=ₜ_iff i id).0 same) ∙ h in
                          absurd (cc)
                    ])
          ]
        ]
      ]

  apply-Stays : (op : Op) (s : Store) → Spares id op → Stays s → Stays (apply c d op s)
  unfolding apply
  apply-Stays (reserve_op now i) s spares h = ap (get id) (links-reserve now i s) ∙ h
  apply-Stays (finish_op saved now i completed) s spares h =
      get-finish_download id saved now i completed s spares ∙ h
  apply-Stays (set_url_op saved i url) s spares h = get-set_url_path id saved i url s spares ∙ h
  apply-Stays (delete_op saved i) s spares h = get-delete id saved i s spares ∙ h
  apply-Stays (create_op saved now ids token salt req) s spares h =
      create-Stays saved now ids token salt req s h

  pub run-Stays :
      (ops : List Op) (s : Store) → All (Spares id) ops → Stays s → Stays (run c d ops s)
  unfolding run
  run-Stays [] s spares h = h
  run-Stays (op ∷ ops) s (spare, spares) h =
      run-Stays ops (apply c d op s) spares (apply-Stays op s spare h)
