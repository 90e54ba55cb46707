-- ===== src/Text/Laws.antt =====
-- Laws of the text functions: what trimming leaves, and that joining and splitting are inverse.
use mathlib.Core.List.{append_assoc}
use macftpd.Prelude.{
  ◌&&◌, ℕ, ◌≡◌, refl, ◌≢◌, Bool, true, false, List, [], ◌∷◌, ◌++◌, arith, ap, All, ◌==◌, Bool-cases,
  inl, inr, ◌∙◌,
}
use macftpd.Text.{
  Text, replace, ◌=ₜ◌, =ₜ_iff, is_empty, trim_left, trim_right, trim_space, is_space, cons_head,
  split, join, has_prefix,
}

-- No character of the text is `d`.
abbrev pub Lacks : ℕ → Text → Type 0
Lacks d = All (λ c. c ≢ d)

pub split_of_Lacks : (d : ℕ) (s : Text) → Lacks d s → split d s ≡ s ∷ []
unfolding split
split_of_Lacks d [] h = refl
split_of_Lacks d (c ∷ s) h = ground (arith, split_of_Lacks d s)

pub split-append : (d : ℕ) (s t : Text) → Lacks d s → split d (s ++ d ∷ t) ≡ s ∷ split d t
unfolding split
split-append d [] t h = ground arith
split-append d (c ∷ s) t h = ground (arith, split-append d s t)

-- Splitting a join gives back the parts, if there is one and none holds the separator.
pub split-join :
    (d : ℕ) (t : Text) (ts : List Text)
    → All (Lacks d) (t ∷ ts)
    → split d (join d (t ∷ ts)) ≡ t ∷ ts
unfolding join
split-join d t [] h = split_of_Lacks d t h.0
split-join d t (u ∷ ts) h =
    split-append d t (join d (u ∷ ts)) h.0 ∙ ap (λ r. t ∷ r) (split-join d u ts h.1)

cons_head-Lacks :
    (d c : ℕ) (ts : List Text) → c ≢ d → All (Lacks d) ts → All (Lacks d) (cons_head c ts)
cons_head-Lacks d c [] h k = ((h, tt), tt)
cons_head-Lacks d c (t ∷ ts) h (k, ks) = ((h, k), ks)

-- No part of a split holds the separator.
pub split-Lacks : (d : ℕ) (s : Text) → All (Lacks d) (split d s)
unfolding split
split-Lacks d [] = (tt, tt)
split-Lacks d (c ∷ s) = elim (Bool-cases (c == d)) [
  | inl e ↦ rw e (tt, split-Lacks d s)
  | inr e ↦ rw e (cons_head-Lacks d c (split d s) (ground arith) (split-Lacks d s))
]

cons_head-keeps :
    (a d c : ℕ) (ts : List Text) → c ≢ a → All (Lacks a) ts → All (Lacks a) (cons_head c ts)
cons_head-keeps a d c [] h k = ((h, tt), tt)
cons_head-keeps a d c (t ∷ ts) h (k, ks) = ((h, k), ks)

-- A character that is not in a text is in no part of its split.
pub split-Lacks_other : (a d : ℕ) (s : Text) → Lacks a s → All (Lacks a) (split d s)
unfolding split
split-Lacks_other a d [] h = (tt, tt)
split-Lacks_other a d (c ∷ s) (h, k) = elim (Bool-cases (c == d)) [
  | inl e ↦ rw e (tt, split-Lacks_other a d s k)
  | inr e ↦ rw e (cons_head-keeps a d c (split d s) h (split-Lacks_other a d s k))
]

pub has_prefix_append : (p s : Text) → has_prefix (p ++ s) p ≡ true
unfolding has_prefix
has_prefix_append [] s = refl
has_prefix_append (c ∷ p) s = ground (arith, has_prefix_append p s)

-- What is trimmed on the right does not end in a character that is trimmed.
pub trim_right_idempotent :
    (p : ℕ → Bool) (s : Text) → trim_right p (trim_right p s) ≡ trim_right p s
unfolding trim_right
trim_right_idempotent p [] = refl
trim_right_idempotent p (c ∷ s) = ground (arith, trim_right_idempotent p s)

-- No character of the text passes the test.
abbrev pub NoneOf : (ℕ → Bool) → Text → Type 0
NoneOf p = All (λ c. p c ≡ false)

pub trim_right_of_NoneOf : (p : ℕ → Bool) (s : Text) → NoneOf p s → trim_right p s ≡ s
unfolding trim_right
trim_right_of_NoneOf p [] h = refl
trim_right_of_NoneOf p (c ∷ s) h = ground (arith, trim_right_of_NoneOf p s)

pub trim_space_of_NoneOf : (s : Text) → NoneOf is_space s → trim_space s ≡ s
unfolding trim_space
trim_space_of_NoneOf [] h = refl
trim_space_of_NoneOf (c ∷ s) h = rw h.0 (trim_right_of_NoneOf is_space (c ∷ s) h)

-- What holds of each character holds of each that trimming or cutting leaves.
module _ (P : ℕ → Type 0) where
  trim_left-All : (p : ℕ → Bool) (s : Text) → All P s → All P (trim_left p s)
  unfolding trim_left
  trim_left-All p [] h = tt
  trim_left-All p (c ∷ s) (q, h) = elim (Bool-cases (p c)) [
    | inl e ↦ rw e (trim_left-All p s h)
    | inr e ↦ rw e (q, h)
  ]

  trim_right-All : (p : ℕ → Bool) (s : Text) → All P s → All P (trim_right p s)
  unfolding trim_right
  trim_right-All p [] h = tt
  trim_right-All p (c ∷ s) (q, h) = elim (Bool-cases (p c && is_empty (trim_right p s))) [
    | inl e ↦ rw e tt
    | inr e ↦ rw e (q, trim_right-All p s h)
  ]

  pub trim_space-All : (s : Text) → All P s → All P (trim_space s)
  unfolding trim_space
  trim_space-All s h = trim_right-All is_space _ (trim_left-All is_space s h)

-- Joining two lists of parts.
pub join-append :
    (d : ℕ) (x y : Text) (xs ys : List Text)
    → join d (x ∷ xs) ++ d ∷ join d (y ∷ ys) ≡ join d ((x ∷ xs) ++ y ∷ ys)
unfolding join
join-append d x y [] ys = refl
join-append d x y (z ∷ xs) ys =
    append_assoc x (d ∷ join d (z ∷ xs)) (d ∷ join d (y ∷ ys))
    ∙ ap (λ r. x ++ d ∷ r) (join-append d z y xs ys)

pub =ₜ_refl : (s : Text) → (s =ₜ s) ≡ true
=ₜ_refl s = (=ₜ_iff s s).1 refl

-- A last character that stays, and one that is trimmed.
pub trim_right-last :
    (p : ℕ → Bool) (s : Text) (c : ℕ) → p c ≡ false → trim_right p (s ++ c ∷ []) ≡ s ++ c ∷ []
unfolding trim_right
trim_right-last p [] c h = ground arith
trim_right-last p (x ∷ []) c h = ground arith
trim_right-last p (x ∷ y ∷ s) c h = ground (arith, trim_right-last p (y ∷ s) c h)

pub trim_right-last_trimmed :
    (p : ℕ → Bool) (s : Text) (c : ℕ) → p c ≡ true → trim_right p (s ++ c ∷ []) ≡ trim_right p s
unfolding trim_right
trim_right-last_trimmed p [] c h = ground arith
trim_right-last_trimmed p (x ∷ s) c h = rw (trim_right-last_trimmed p s c h)

pub replace_of_Lacks : (a b : ℕ) (s : Text) → Lacks a s → replace a b s ≡ s
unfolding replace
replace_of_Lacks a b [] h = refl
replace_of_Lacks a b (c ∷ s) (p, h) =
    let other : (c == a) ≡ false = ground arith in
    rw other (ap (λ r. c ∷ r) (replace_of_Lacks a b s h))
