-- ===== src/Storage/Os/Moves.antt =====
-- What a rename within the root does.
use macftpd.Prelude.{◌≡◌, refl, ◌⊎◌, inl, inr, ap, Option, none, some}
use macftpd.Text.{Text}
use macftpd.Path.{clean}
use macftpd.Storage.{Root, rel_from_real}
use macftpd.Storage.Os.{
  Os, IsOs, Apart, Result, ok, err, Error, outside_root, M-cases, in_root, rename, rooted,
}

module _ {S : Type 0} (os : Os S) (r : Root) where
  rooted_cases :
      (o : Option Error) (rel : Option Text) (real : Text)
      → (rooted os r o rel real ≡ ok (clean real))
        ⊎ ((e : Error) × (rooted os r o rel real ≡ err e))
  rooted_cases (some e) rel real = inr (e, refl)
  rooted_cases none none real = inr (outside_root, refl)
  rooted_cases none (some rel) real = inl refl

  -- a path within the root, or an error and no change
  pub in_root_cases :
      (real : Text) (s : S)
      → (in_root os r real s ≡ (s, ok (clean real)))
        ⊎ ((e : Error) × (in_root os r real s ≡ (s, err e)))
  unfolding in_root
  in_root_cases real s = elim (rooted_cases (os.open_root r.base s) (rel_from_real r real) real) [
    | inl e ↦ inl (ap (λ x. (s, x)) e)
    | inr (f, e) ↦ inr (f, ap (λ x. (s, x)) e)
  ]

module _ {S O : Type 0} (os : Os S) (l : IsOs os O) (r : Root) where
  abbrev pub Moved : Text → Text → S → S × Result (Unit {0}) → Type 0
  Moved p q s (s', ok a) =
      (l.at q s' ≡ l.at p s)
      × (l.at p s' ≡ none)
      × ((x : Text) → Apart x p → Apart x q → l.at x s' ≡ l.at x s)
  Moved p q s (s', err e) = (x : Text) → l.at x s' ≡ l.at x s

  renamed : (p q : Text) (s : S) → Apart p q → Moved p q s (os.rename p q s)
  renamed p q s apart = elim (M-cases (os.rename p q s)) [
    | inl (t, a, e) ↦ rw e (l.rename_ok p q s t apart e)
    | inr (t, f, e) ↦ rw e (l.rename_err p q s t f e)
  ]

  pub rename_lem :
      (p q : Text) (s : S) → Apart p q → clean p ≡ p → clean q ≡ q → Moved p q s (rename os r p q s)
  unfolding rename
  rename_lem p q s apart tidy_p tidy_q = elim (in_root_cases os r p s) [
    | inr (f, e) ↦ rw e (λ x. refl)
    | inl e ↦ rw e (elim (in_root_cases os r q s) [
      | inr (f, g) ↦ rw g (λ x. refl)
      | inl g ↦ rw (g, tidy_p, tidy_q) (renamed p q s apart)
    ])
  ]
