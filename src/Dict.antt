-- ===== src/Dict.antt =====
-- A Go map as an association list with one entry to a key. The order of the entries is the order in
-- which `range` visits them, which no theorem about a map relies on.
use macftpd.Prelude.{
  ℕ, ◌+◌, ◌≡◌, refl, Bool, true, Option, none, some, List, [], ◌∷◌, arith, Eq, if◌then◌else◌,
}

abbrev pub Dict {ℓ κ} : Type ℓ → Type κ → Type (ℓ ⊔ κ)
Dict K V = List (K × V)

pub beq_refl {ℓ} : {K : Type ℓ} ⦃e : Eq K⦄ (k : K) → e.beq k k ≡ true
beq_refl ⦃e⦄ k = (e.beq_iff k k).1 refl

module _ {ℓ κ} {K : Type ℓ} {V : Type κ} ⦃e : Eq K⦄ where
  unfoldable pub get : K → Dict K V → Option V
  get k [] = none
  get k ((j, v) ∷ m) = if e.beq j k then some v else get k m

  unfoldable pub put : K → V → Dict K V → Dict K V
  put k v [] = (k, v) ∷ []
  put k v ((j, w) ∷ m) = if e.beq j k then (k, v) ∷ m else (j, w) ∷ put k v m

  unfoldable pub del : K → Dict K V → Dict K V
  del k [] = []
  del k ((j, v) ∷ m) = let rest = del k m in if e.beq j k then rest else (j, v) ∷ rest

  pub get-put :
      (k j : K) (v : V) (m : Dict K V) → get j (put k v m) ≡ (if e.beq k j then some v else get j m)
  unfolding get put
  get-put k j v [] = refl
  get-put k j v ((i, w) ∷ m) =
      ground (arith, e.beq_iff k j, e.beq_iff i k, e.beq_iff i j, get-put k j v m)

  pub get-del : (k j : K) (m : Dict K V) → get j (del k m) ≡ (if e.beq k j then none else get j m)
  unfolding get del
  get-del k j [] = ground arith
  get-del k j ((i, w) ∷ m) =
      ground (arith, e.beq_iff k j, e.beq_iff i k, e.beq_iff i j, get-del k j m)

  pub get-put_self : (k : K) (v : V) (m : Dict K V) → get k (put k v m) ≡ some v
  get-put_self k v m = rw (get-put, beq_refl k)

  -- No key stands twice: what every Go map guarantees.
  abbrev pub IsDict : Dict K V → Type κ
  IsDict [] = Unit
  IsDict ((k, v) ∷ m) = (get k m ≡ none) × IsDict m

  pub del_of_absent : (k : K) (m : Dict K V) → get k m ≡ none → del k m ≡ m
  unfolding get del
  del_of_absent k [] h = refl
  del_of_absent k ((i, w) ∷ m) h = ground (arith, del_of_absent k m)

  pub put-IsDict : (k : K) (v : V) (m : Dict K V) → IsDict m → IsDict (put k v m)
  unfolding get put
  put-IsDict k v [] h = (refl, tt)
  put-IsDict k v ((i, w) ∷ m) h =
      ground (arith, e.beq_iff i k, e.beq_iff k i, get-put k i v m, put-IsDict k v m h.1)

  pub del-IsDict : (k : K) (m : Dict K V) → IsDict m → IsDict (del k m)
  unfolding get del
  del-IsDict k [] h = tt
  del-IsDict k ((i, w) ∷ m) h =
      ground (arith, e.beq_iff i k, e.beq_iff k i, get-del k i m, del-IsDict k m h.1)

  -- How many entries pass a test of their values.
  unfoldable pub count : (V → Bool) → Dict K V → ℕ
  count p [] = 0
  count p ((k, v) ∷ m) = (if p v then 1 else 0) + count p m

  pub count-put_new :
      (p : V → Bool) (k : K) (v : V) (m : Dict K V)
      → get k m ≡ none
      → count p (put k v m) ≡ count p m + (if p v then 1 else 0)
  unfolding get put count
  count-put_new p k v [] h = ground arith
  count-put_new p k v ((i, w) ∷ m) h = ground (arith, count-put_new p k v m)

  pub count-put_old :
      (p : V → Bool) (k : K) (v old : V) (m : Dict K V)
      → get k m ≡ some old
      → count p (put k v m) + (if p old then 1 else 0) ≡ count p m + (if p v then 1 else 0)
  unfolding get put count
  count-put_old p k v old [] h = ground arith
  count-put_old p k v old ((i, w) ∷ m) h = ground (arith, count-put_old p k v old m)

  pub count-del :
      (p : V → Bool) (k : K) (old : V) (m : Dict K V)
      → IsDict m
      → get k m ≡ some old
      → count p (del k m) + (if p old then 1 else 0) ≡ count p m
  unfolding get del count
  count-del p k old [] d h = ground arith
  count-del p k old ((i, w) ∷ m) d h =
      ground (arith, e.beq_iff i k, count-del p k old m d.1, del_of_absent k m)
