-- ===== src/Storage/Replace/Install.antt =====
-- That `InstallFile` replaces nothing.
use macftpd.Prelude.{◌≡◌, refl, ◌∙◌, inl, inr, none, some}
use macftpd.Text.{Text}
use macftpd.Path.{clean}
use macftpd.Storage.{Root}
use macftpd.Storage.Os.{
  Os, IsOs, Apart, M, Result, ok, err, M-cases, ◌>>◌, on_error, ignoring, fail,
}
use macftpd.Storage.Os.Frame.{Apart-sym, remove-Apart}
use macftpd.Storage.Os.Moves.{in_root_cases}
use macftpd.Storage.Replace.{install_file}

module _ {S O : Type 0} (os : Os S) (l : IsOs os O) (r : Root) where
  abbrev pub Installed : Text → Text → S → S × Result (Unit {0}) → Type 0
  Installed p q s (s', ok a) = (l.at q s ≡ none) × (l.at q s' ≡ l.at p s) × (l.at p s' ≡ none)
  Installed p q s (s', err e) =
      (l.at p s' ≡ l.at p s) × ((o : O) → l.at q s ≡ some o → l.at q s' ≡ some o)

  abbrev linking : Text → Text → M S (Unit {0})
  linking p q = do os.link p q; on_error (os.remove p) (λ e. ignoring (os.remove q) >> fail e)

  unlinked :
      (p q : Text) (s t : S)
      → Apart p q
      → (l.at q s ≡ none) × (l.at q t ≡ l.at p s) × (l.at p t ≡ l.at p s)
      → Installed p q s (on_error (os.remove p) (λ e. ignoring (os.remove q) >> fail e) t)
  unlinked p q s t apart (free, there, here) = elim (M-cases (os.remove p t)) [
    | inl (u, b, e) ↦
        let (gone, rest) = l.remove_ok p t u e in
        rw e (free, rest q (Apart-sym p q apart) ∙ there, gone)
    | inr (u, f, e) ↦
        rw e
          (remove-Apart os l q p u apart ∙ l.remove_err p t u f e p ∙ here, λ o taken. absurd (cc))
  ]

  linking-Installed : (p q : Text) (s : S) → Apart p q → Installed p q s (linking p q s)
  linking-Installed p q s apart = elim (M-cases (os.link p q s)) [
    | inl (t, a, e) ↦
        let (free, there, here, rest) = l.link_ok p q s t apart e in
        rw e (unlinked p q s t apart (free, there, here))
    | inr (t, f, e) ↦ let same = l.link_err p q s t f e in rw e (same p, λ o taken. same q ∙ taken)
  ]

  -- A staged file is installed only where nothing was; with an error it is still staged, and what was at the
  -- destination is still there.
  pub install_file-Installed :
      (staged dest : Text) (s : S)
      → Apart staged dest
      → clean staged ≡ staged
      → clean dest ≡ dest
      → Installed staged dest s (install_file os r staged dest s)
  unfolding install_file
  install_file-Installed staged dest s apart tidy_p tidy_q = elim (in_root_cases os r staged s) [
    | inr (f, e) ↦ rw e (refl, λ o taken. taken)
    | inl e ↦ rw e (elim (in_root_cases os r dest s) [
      | inr (f, g) ↦ rw g (refl, λ o taken. taken)
      | inl g ↦ rw (g, tidy_p, tidy_q) (linking-Installed staged dest s apart)
    ])
  ]
