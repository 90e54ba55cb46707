-- ===== src/Sort/Laws.antt =====
-- The result of a sort is sorted and has the same elements.
use mathlib.Core.List.{Perm}
use mathlib.Core.List.Perm
use macftpd.Prelude.{◌≡◌, refl, Bool, true, false, List, [], ◌∷◌, arith, Bool-cases, inl, inr, All}
use macftpd.Text.{Text}
use macftpd.Sort.{insert, sort, text_ltb}

module _ {ℓ} {A : Type ℓ} (less : A → A → Bool) where
  -- No element is less than the one before it.
  abbrev pub IsSorted : List A → Type 0
  IsSorted [] = Unit
  IsSorted (x ∷ []) = Unit
  IsSorted (x ∷ y ∷ r) = (less y x ≡ false) × IsSorted (y ∷ r)

  insert-perm : (x : A) (xs : List A) → Perm (insert less x xs) (x ∷ xs)
  unfolding insert
  insert-perm x [] = Perm.refl (x ∷ [])
  insert-perm x (y ∷ ys) = elim (Bool-cases (less x y)) [
    | inl e ↦ rw e (Perm.refl (x ∷ y ∷ ys))
    | inr e ↦ rw e (Perm.trans (Perm.cons y (insert-perm x ys)) (Perm.swap x y ys))
  ]

  pub sort-perm : (xs : List A) → Perm (sort less xs) xs
  unfolding sort
  sort-perm [] = Perm.refl []
  sort-perm (x ∷ xs) = Perm.trans (insert-perm x (sort less xs)) (Perm.cons x (sort-perm xs))

  pub insert-All {κ} :
      (P : A → Type κ) (x : A) (xs : List A) → P x → All P xs → All P (insert less x xs)
  unfolding insert
  insert-All P x [] p h = (p, tt)
  insert-All P x (y ∷ ys) p (q, h) = elim (Bool-cases (less x y)) [
    | inl e ↦ rw e (p, (q, h))
    | inr e ↦ rw e (q, insert-All P x ys p h)
  ]

  pub sort-All {κ} : (P : A → Type κ) (xs : List A) → All P xs → All P (sort less xs)
  unfolding sort
  sort-All P [] h = tt
  sort-All P (x ∷ xs) (p, h) = insert-All P x (sort less xs) p (sort-All P xs h)

  module _ (asym : (x y : A) → less x y ≡ true → less y x ≡ false) where
    insert-IsSorted : (x : A) (xs : List A) → IsSorted xs → IsSorted (insert less x xs)
    unfolding insert
    insert-IsSorted x [] h = tt
    insert-IsSorted x (y ∷ []) h = elim (Bool-cases (less x y)) [
      | inl e ↦ rw e (asym x y e, tt)
      | inr e ↦ rw e (e, tt)
    ]
    insert-IsSorted x (y ∷ z ∷ r) h = elim (Bool-cases (less x y)) [
      | inl e ↦ rw e (asym x y e, h)
      | inr e ↦ rw e (insert_behind e (insert-IsSorted x (z ∷ r) h.1))
    ]
      where
        insert_behind :
            less x y ≡ false
            → IsSorted (insert less x (z ∷ r))
            → IsSorted (y ∷ insert less x (z ∷ r))
        insert_behind e k = elim (Bool-cases (less x z)) [
          | inl e' ↦ rw e' (e, (rw e' at k))
          | inr e' ↦ rw e' (h.0, (rw e' at k))
        ]

    pub sort-IsSorted : (xs : List A) → IsSorted (sort less xs)
    unfolding sort
    sort-IsSorted [] = tt
    sort-IsSorted (x ∷ xs) = insert-IsSorted x (sort less xs) (sort-IsSorted xs)

pub text_ltb_asym : (s t : Text) → text_ltb s t ≡ true → text_ltb t s ≡ false
unfolding text_ltb
text_ltb_asym [] [] h = refl
text_ltb_asym [] (d ∷ t) h = refl
text_ltb_asym (c ∷ s) [] h = ground arith
text_ltb_asym (c ∷ s) (d ∷ t) h = ground (arith, text_ltb_asym s t)
