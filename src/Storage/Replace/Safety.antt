-- ===== src/Storage/Replace/Safety.antt =====
-- What `ReplaceFile` does with the staged file, and with the one that it replaces.
use macftpd.Prelude.{
  ◌≡◌, refl, Bool, true, false, ◌∙◌, ◌⊎◌, inl, inr, sym, ap, subst, none, some, arith, Bool-cases,
}
use macftpd.Text.{Text}
use macftpd.Path.{clean}
use macftpd.Storage.{Root}
use macftpd.Storage.Os.{
  Os, IsOs, Apart, M, Result, ok, err, Error, not_exist, Info, M-cases, bound, in_root, stat,
  rename, return,
}
use macftpd.Storage.Os.Moves.{in_root_cases, Moved, rename_lem}
use macftpd.Storage.Copy.{CopyOptions, CopyResult}
use macftpd.Storage.Retain.{Stamp, Notes, RetainedEntry, version, payload_of}
use macftpd.Storage.Replace.{version_copy, preserve_current, prepare, replace_file}
use macftpd.Storage.Replace.Versions.{Outside, Entry, Versioned, version_dir, version-Versioned}

module _ {S O : Type 0} (os : Os S) (l : IsOs os O) (notes : Notes) (r : Root)
    (copy_dir : Text → Text → CopyOptions → M S CopyResult) where
  -- what is still there, and what there is a version of
  abbrev Prepared : Text → Text → Text → Bool → S → S × Result (Unit {0}) → Type 0
  Prepared staged dest payload preserve s (s', ok a) =
      (l.at staged s' ≡ l.at staged s)
      × (l.at dest s' ≡ l.at dest s)
      × (preserve ≡ true → (o : O) → l.at dest s ≡ some o → l.at payload s' ≡ some o)
  Prepared staged dest payload preserve s (s', err e) =
      (l.at staged s' ≡ l.at staged s) × (l.at dest s' ≡ l.at dest s)

  Versioned-Prepared :
      (staged dest dir : Text) (o : O) (preserve : Bool) (s : S) (x : S × Result RetainedEntry)
      → Outside dir staged
      → Outside dir dest
      → l.at dest s ≡ some o
      → Versioned os l notes r dir (some o) s x
      → Prepared staged dest (payload_of dir) preserve s (bound (λ e. return tt) x)
  Versioned-Prepared staged dest dir o preserve s (t, ok found) off_staged off_dest there
        (kept, still) =
      (still staged off_staged, still dest off_dest, λ asked o' there'. kept ∙ sym there ∙ there')
  Versioned-Prepared staged dest dir o preserve s (t, err e) off_staged off_dest there still =
      (still staged off_staged, still dest off_dest)

  preserved :
      (preserve : Bool) (stamp : Stamp) (staged dest virtual actor : Text) (o : O) (s : S)
      → Entry (version_dir os l notes r copy_dir stamp actor)
      → Outside (version_dir os l notes r copy_dir stamp actor) staged
      → Outside (version_dir os l notes r copy_dir stamp actor) dest
      → clean dest ≡ dest
      → l.at dest s ≡ some o
      → l.folder o ≡ false
      → Prepared staged dest
          (payload_of (version_dir os l notes r copy_dir stamp actor))
          preserve
          s
          (preserve_current os notes r copy_dir preserve stamp dest virtual actor s)
  preserved true stamp staged dest virtual actor o s laid off_staged off_dest tidy there flat =
      Versioned-Prepared staged dest (version_dir os l notes r copy_dir stamp actor) o true s
        (version os notes r (version_copy os notes r copy_dir) stamp dest virtual actor s)
        off_staged off_dest there
        (version-Versioned os l notes r copy_dir stamp dest virtual actor o s laid off_dest tidy
          there flat)
  preserved false stamp staged dest virtual actor o s laid off_staged off_dest tidy there flat =
      (refl, refl, λ asked. absurd (ground arith))

  -- what a look at a path tells of what is there
  abbrev pub Shown : Text → S → Result Info → Type 0
  Shown p s (ok i) = (o : O) × (l.at p s ≡ some o) × (l.folder o ≡ i.is_dir)
  Shown p s (err not_exist) = l.at p s ≡ none
  Shown p s (err e) = Unit

  os_Shown : (p : Text) (s : S) (res : Result Info) → os.stat p s ≡ res → Shown p s res
  os_Shown p s (ok i) e = l.stat_ok p s i e
  os_Shown p s (err not_exist) e = l.stat_missing p s e
  os_Shown p s (err f) e = tt

  prepare-Prepared :
      (preserve : Bool) (stamp : Stamp) (staged dest virtual actor : Text) (s : S)
      (seen : Result Info)
      → Shown dest s seen
      → Entry (version_dir os l notes r copy_dir stamp actor)
      → Outside (version_dir os l notes r copy_dir stamp actor) staged
      → Outside (version_dir os l notes r copy_dir stamp actor) dest
      → clean dest ≡ dest
      → Prepared staged dest
          (payload_of (version_dir os l notes r copy_dir stamp actor))
          preserve
          s
          (prepare os notes r copy_dir seen preserve stamp dest virtual actor s)
  prepare-Prepared preserve stamp staged dest virtual actor s (err not_exist) shown laid off_staged
        off_dest tidy =
      (refl, refl, λ asked o there. absurd (cc))
  prepare-Prepared preserve stamp staged dest virtual actor s (err e) shown laid off_staged off_dest
        tidy =
      (refl, refl)
  prepare-Prepared preserve stamp staged dest virtual actor s (ok i) (o, there, told) laid
        off_staged off_dest tidy =
      elim (Bool-cases i.is_dir) [
        | inl d ↦ rw d (refl, refl)
        | inr d ↦ rw d (
            preserved preserve stamp staged dest virtual actor o s laid off_staged off_dest tidy
              there (told ∙ d))
      ]

  pub stat_Shown :
      (p : Text) (s : S) → clean p ≡ p → in_root os r p s ≡ (s, ok p) → Shown p s (stat os r p s).1
  unfolding stat
  stat_Shown p s tidy e = rw e (os_Shown p s (os.stat p s) refl)

  abbrev pub Replaced : Text → Text → Text → Bool → S → S × Result (Unit {0}) → Type 0
  Replaced staged dest payload preserve s (s', ok a) =
      (l.at dest s' ≡ l.at staged s)
      × (l.at staged s' ≡ none)
      × (preserve ≡ true → (o : O) → l.at dest s ≡ some o → l.at payload s' ≡ some o)
  Replaced staged dest payload preserve s (s', err e) =
      (l.at staged s' ≡ l.at staged s) × (l.at dest s' ≡ l.at dest s)

  Prepared-Replaced :
      (staged dest payload : Text) (preserve : Bool) (s t : S) (x : S × Result (Unit {0}))
      → Apart payload staged
      → Apart payload dest
      → Prepared staged dest payload preserve s (t, ok tt)
      → Moved os l r staged dest t x
      → Replaced staged dest payload preserve s x
  Prepared-Replaced staged dest payload preserve s t (u, ok a) off_s off_d (at_s, at_d, kept)
        (here, gone, rest) =
      (here ∙ at_s, gone, λ asked o there. rest payload off_s off_d ∙ kept asked o there)
  Prepared-Replaced staged dest payload preserve s t (u, err e) off_s off_d (at_s, at_d, kept)
        same =
      (same staged ∙ at_s, same dest ∙ at_d)

  rename_refused :
      (staged dest : Text) (s : S) (f : Error)
      → in_root os r dest s ≡ (s, err f)
      → (e : Error) × (rename os r staged dest s ≡ (s, err e))
  unfolding rename
  rename_refused staged dest s f refused = elim (in_root_cases os r staged s) [
    | inr (g, e) ↦ (g, rw e refl)
    | inl e ↦ (f, rw (e, refused) refl)
  ]

  -- the look, and the move if there is nothing against it
  refused_cases :
      (preserve : Bool) (stamp : Stamp) (dest virtual actor : Text) (s : S) (f : Error)
      → (prepare os notes r copy_dir (err f) preserve stamp dest virtual actor s ≡ (s, ok tt))
        ⊎ (prepare os notes r copy_dir (err f) preserve stamp dest virtual actor s ≡ (s, err f))
  refused_cases preserve stamp dest virtual actor s not_exist = inl refl
  refused_cases preserve stamp dest virtual actor s f = inr refl

  stat_refused :
      (p : Text) (s : S) (f : Error) → in_root os r p s ≡ (s, err f) → (stat os r p s).1 ≡ err f
  unfolding stat
  stat_refused p s f e = rw e refl

  -- `replace_file` moves the staged file to the destination, and with `preserve` the file that was there is
  -- then the payload of a version. With an error, the staged file is still staged and the destination is
  -- as it was.
  pub replace_file-Replaced :
      (stamp : Stamp) (staged dest virtual actor : Text) (preserve : Bool) (s : S)
      → Entry (version_dir os l notes r copy_dir stamp actor)
      → Outside (version_dir os l notes r copy_dir stamp actor) staged
      → Outside (version_dir os l notes r copy_dir stamp actor) dest
      → Apart staged dest
      → clean staged ≡ staged
      → clean dest ≡ dest
      → Replaced staged dest
          (payload_of (version_dir os l notes r copy_dir stamp actor))
          preserve
          s
          (replace_file os notes r copy_dir stamp staged dest virtual actor preserve s)
  unfolding replace_file
  replace_file-Replaced stamp staged dest virtual actor preserve s laid off_s off_d apart tidy_s
        tidy_d =
      elim (in_root_cases os r dest s) [
        | inr (f, refused) ↦
            let (e, stuck) = rename_refused staged dest s f refused in
            rw (stat_refused dest s f refused)
              (elim (refused_cases preserve stamp dest virtual actor s f) [
                | inl g ↦ rw (g, stuck) (refl, refl)
                | inr g ↦ rw g (refl, refl)
              ])
        | inl there ↦
            let ready =
              prepare-Prepared preserve stamp staged dest virtual actor s (stat os r dest s).1
                (stat_Shown dest s tidy_d (there ∙ ap (λ x. (s, ok x)) tidy_d)) laid off_s off_d
                tidy_d in
            elim (M-cases (
              prepare os notes r copy_dir (stat os r dest s).1 preserve stamp dest virtual actor
                s)) [
                  | inr (t, f, e) ↦ rw e (
                      subst
                        (Prepared staged dest
                          (payload_of (version_dir os l notes r copy_dir stamp actor)) preserve s)
                        e ready)
                  | inl (t, a, e) ↦ rw e (
                      Prepared-Replaced staged dest
                        (payload_of (version_dir os l notes r copy_dir stamp actor)) preserve s t
                        (rename os r staged dest t) (off_s.off_payload.1, off_s.off_payload.0)
                        (off_d.off_payload.1, off_d.off_payload.0)
                        (subst
                          (Prepared staged dest
                            (payload_of (version_dir os l notes r copy_dir stamp actor)) preserve s)
                          e ready)
                        (rename_lem os l r staged dest t apart tidy_s tidy_d))
                ]
      ]
