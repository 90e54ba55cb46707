-- ===== src/Ftp/Upload/Placed.antt =====
-- How the staged file is made, filled and put in its place.
use macftpd.Prelude.{
  Bool, true, false, ℕ, ◌≡◌, refl, true, false, Option, none, some, List, [], ◌∷◌, ◌++◌, inl, inr,
  All, length, take, ◌∙◌, sym, ap, subst,
}
use macftpd.Text.{Text, codes}
use macftpd.Path.{clean, dir_path, join_paths}
use macftpd.Storage.{Root, is_below}
use macftpd.Storage.Os.{
  Os, IsOs, Apart, M, Result, ok, err, M-cases, create_new, exists, mkdir_all, chmod, in_root,
}
use macftpd.Storage.Os.Frame.{Apart-sym, create_new_frame, mkdir_all_frame, chmod_frame}
use macftpd.Storage.Copy.{CopyOptions, CopyResult}
use macftpd.Storage.Retain.{Notes, Stamp, payload_of}
use macftpd.Storage.Replace.{replace_file}
use macftpd.Storage.Replace.Versions.{Entry, Outside, version_dir}
use macftpd.Storage.Replace.Safety.{Replaced, replace_file-Replaced}
use macftpd.Ftp.Upload.{
  Outcome, stopped, no_data, failed, stored, stage, stage_created, staged_upload, replaced, sealed,
  transfer,
}

module _ {S O : Type 0} (os : Os S) (l : IsOs os O) (notes : Notes) (r : Root)
    (copy_dir : Text → Text → CopyOptions → M S CopyResult) (stamp : Stamp)
    (actor real : Text) where
  -- A staged file lies apart from its destination, and both from the version that is kept.
  pub record Staging (path : Text) : Type 0 where
    pub outside : Outside (version_dir os l notes r copy_dir stamp actor) path
    pub apart : Apart path real
    pub tidy : clean path ≡ path

  pub record Destined : Type 0 where
    pub entry : Entry (version_dir os l notes r copy_dir stamp actor)
    pub outside : Outside (version_dir os l notes r copy_dir stamp actor) real
    pub tidy : clean real ≡ real
    pub admitted : (t : S) → in_root os r real t ≡ (t, ok real)
    pub above : is_below (clean (dir_path real)) real ≡ false
    pub beside :
        is_below (clean (join_paths (r.base ∷ codes "._macftpd_uploads" ∷ []))) real ≡ false

  -- an end from a state: the object is at the destination, or nothing has changed there
  abbrev pub After : Option O → ℕ → S → S × Outcome → Type 0
  After o n s (s', stored m) = (m ≡ n) × (l.at real s' ≡ o)
  After o n s (s', stopped code text) = l.at real s' ≡ l.at real s
  After o n s (s', no_data) = l.at real s' ≡ l.at real s
  After o n s (s', failed code text m) = l.at real s' ≡ l.at real s

  replaced-After :
      (path payload : Text) (n : ℕ) (t : S) (x : S × Result (Unit {0}))
      → Replaced os l notes r copy_dir path real payload true t x
      → After (l.at path t) n t (replaced os notes r copy_dir stamp n x)
  replaced-After path payload n t (s', ok a) (here, gone, kept) = (refl, here)
  replaced-After path payload n t (s', err e) (staged, same) = same

  -- the same end, seen from a state before
  earlier :
      (o : Option O) (n : ℕ) (s t : S) (x : S × Outcome)
      → l.at real t ≡ l.at real s
      → After o n t x
      → After o n s x
  earlier o n s t (s', stored m) same h = h
  earlier o n s t (s', stopped code text) same h = h ∙ same
  earlier o n s t (s', no_data) same h = h ∙ same
  earlier o n s t (s', failed code text m) same h = h ∙ same

  sealed-After :
      (path virtual : Text) (n : ℕ) (t : S)
      → Destined
      → Staging path
      → After
          (l.at path t)
          n
          t
          (sealed os notes r copy_dir stamp path real virtual actor n (chmod os r path t))
  sealed-After path virtual n t dest staging = elim (M-cases (chmod os r path t)) [
    | inr (u, f, e) ↦ rw e (ap (λ y. l.at real y.0) (sym e) ∙ chmod_frame os l r path real t)
    | inl (u, a, e) ↦
        let same : l.at real u ≡ l.at real t =
          ap (λ y. l.at real y.0) (sym e) ∙ chmod_frame os l r path real t in
        let held : l.at path u ≡ l.at path t =
          ap (λ y. l.at path y.0) (sym e) ∙ chmod_frame os l r path path t in
        rw e (
          earlier (l.at path t) n t u _ same (
            subst
              (λ o. After o n u (
                replaced os notes r copy_dir stamp n
                  (replace_file os notes r copy_dir stamp path real virtual actor true u)))
              held
              (replaced-After path (payload_of (version_dir os l notes r copy_dir stamp actor)) n u
                (replace_file os notes r copy_dir stamp path real virtual actor true u)
                (replace_file-Replaced os l notes r copy_dir stamp path real virtual actor true u
                  dest.entry staging.outside dest.outside staging.apart staging.tidy dest.tidy))))
  ]

  pub transfer-After :
      (close_fails : Bool) (path virtual base bytes : Text) (breaks : Option ℕ) (t : S)
      → Destined
      → Staging path
      → After (some (l.file (base ++ bytes))) (length bytes) t (
          transfer os notes r copy_dir stamp close_fails path real virtual actor base bytes breaks
            t)
  transfer-After close_fails path virtual base bytes (some n) t dest staging =
      l.write_apart path (base ++ take n bytes) t _ _ refl real (Apart-sym path real staging.apart)
  transfer-After false path virtual base bytes none t dest staging =
      elim (M-cases (os.write_file path (base ++ bytes) t)) [
        | inr (u, f, e) ↦ rw e (
            l.write_apart path (base ++ bytes) t u (err f) e real
              (Apart-sym path real staging.apart))
        | inl (u, a, e) ↦ rw e (
            earlier (some (l.file (base ++ bytes))) (length bytes) t u _
              (l.write_apart path (base ++ bytes) t u (ok a) e real
                (Apart-sym path real staging.apart))
              (subst
                (λ o. After o (length bytes) u (
                  sealed os notes r copy_dir stamp path real virtual actor (length bytes)
                    (chmod os r path u)))
                (l.write_ok path (base ++ bytes) t u e)
                (sealed-After path virtual (length bytes) u dest staging)))
      ]
  transfer-After true path virtual base bytes none t dest staging =
      elim (M-cases (os.write_file path (base ++ bytes) t)) [
        | inr (u, f, e) ↦ rw e (
            l.write_apart path (base ++ bytes) t u (err f) e real
              (Apart-sym path real staging.apart))
        | inl (u, a, e) ↦ rw e (
            l.write_apart path (base ++ bytes) t u (ok a) e real
              (Apart-sym path real staging.apart))
      ]

  -- a name for the staged file is found, or not
  abbrev pub Staged : S → S × Result Text → Type 0
  Staged s (t, ok path) = Staging path × (l.at real t ≡ l.at real s)
  Staged s (t, err e) = l.at real t ≡ l.at real s

  stage_created-Staged :
      (path : Text) (more : M S Text) (s u : S) (made : Result (Unit {0}))
      → Staging path
      → l.at real u ≡ l.at real s
      → Staged s (more u)
      → Staged s (stage_created os notes r copy_dir stamp path more (u, made))
  stage_created-Staged path more s u (ok a) staging same next = (staging, same)
  stage_created-Staged path more s u (err exists) staging same next = next
  stage_created-Staged path more s u (err f) staging same next = same

  stage-Staged :
      (paths : List Text) (s t : S)
      → All Staging paths
      → l.at real t ≡ l.at real s
      → Staged s (stage os notes r copy_dir stamp paths t)
  unfolding stage
  stage-Staged [] s t each same = same
  stage-Staged (path ∷ paths) s t (staging, each) same =
      let made = create_new os r path t in
      let kept : l.at real made.0 ≡ l.at real s =
        create_new_frame os l r path real t
          (subst (λ p. Apart real p) (sym staging.tidy) (Apart-sym path real staging.apart))
        ∙ same in
      stage_created-Staged path (stage os notes r copy_dir stamp paths) s made.0 made.1 staging kept
        (stage-Staged paths s made.0 each kept)

  pub staged_upload-Staged :
      (paths : List Text) (s t : S)
      → Destined
      → All Staging paths
      → l.at real t ≡ l.at real s
      → Staged s (staged_upload os notes r copy_dir stamp paths t)
  staged_upload-Staged paths s t dest each same =
      elim (M-cases (mkdir_all os r (join_paths (r.base ∷ codes "._macftpd_uploads" ∷ [])) t)) [
        | inl (u, a, e) ↦ rw e (stage-Staged paths s u each (kept u (ok a) e))
        | inr (u, f, e) ↦ rw e (kept u (err f) e)
      ]
    where
      kept :
          (u : S) (x : Result (Unit {0}))
          → mkdir_all os r (join_paths (r.base ∷ codes "._macftpd_uploads" ∷ [])) t ≡ (u, x)
          → l.at real u ≡ l.at real s
      kept u x e =
          ap (λ y. l.at real y.0) (sym e)
          ∙ mkdir_all_frame os l r (join_paths (r.base ∷ codes "._macftpd_uploads" ∷ [])) real t
              dest.beside
          ∙ same
