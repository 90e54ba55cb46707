-- ===== src/Storage/Copy/Exact.antt =====
-- What a copy of a file writes, and what it leaves alone.
use macftpd.Prelude.{ℕ, ◌≡◌, refl, Bool, true, false, ◌∙◌, inl, inr, sym, ap, subst, some}
use macftpd.Text.{Text, ◌=ₜ◌}
use macftpd.Path.{clean, dir_path}
use macftpd.Storage.{Root, is_below}
use macftpd.Storage.Os.{
  Os, IsOs, Apart, M, Result, ok, err, Error, outside_root, is_directory, Info, M-cases, ◌>>◌, stat,
  stat_pure, mkdir_all,
}
use macftpd.Storage.Os.Frame.{mkdir_all_frame, Frames, Frames-bind, Frames-on_error}
use macftpd.Storage.Os.Moves.{in_root_cases}
use macftpd.Storage.Copy.{
  CopyOptions, CopyResult, copy, copy_file, copy_opened, cloning, copy_cloned, copy_into, copy_new,
  copy_seen, copy_either, refuse_if, refuse_existing, refuse_found,
}

module _ {S O : Type 0} (os : Os S) (l : IsOs os O) (r : Root) where
  -- what a look tells of an object that is there
  abbrev pub Seen : O → Result Info → Type 0
  Seen o (ok i) = l.folder o ≡ i.is_dir
  Seen o (err e) = Unit

  Seen-at :
      (p : Text) (s : S) (o : O) (res : Result Info)
      → os.stat p s ≡ res
      → l.at p s ≡ some o
      → Seen o res
  Seen-at p s o (ok i) e there =
      let (o', found, told) = l.stat_ok p s i e in subst (λ x. l.folder x ≡ i.is_dir) (cc) told
  Seen-at p s o (err f) e there = tt

  pub stat-Seen :
      (p : Text) (s : S) (o : O) → clean p ≡ p → l.at p s ≡ some o → Seen o (stat os r p s).1
  unfolding stat
  stat-Seen p s o tidy there = elim (in_root_cases os r p s) [
    | inr (f, e) ↦ rw e tt
    | inl e ↦ rw (e, tidy) (Seen-at p s o (os.stat p s) refl there)
  ]

  abbrev pub Copied : Text → O → S × Result CopyResult → Type 0
  Copied dst o (s', ok c) = l.at dst s' ≡ some o
  Copied dst o (s', err e) = Unit

  copied_bytes :
      (over : Bool) (src dst : Text) (o : O) (s : S)
      → Apart src dst
      → clean src ≡ src
      → clean dst ≡ dst
      → l.at src s ≡ some o
      → Copied dst o (copy_opened os r over src dst s)
  copied_bytes over src dst o s apart tidy_s tidy_d there = elim (in_root_cases os r src s) [
    | inr (f, e) ↦ rw e tt
    | inl e ↦ rw e (elim (in_root_cases os r dst s) [
      | inr (f, g) ↦ rw g tt
      | inl g ↦
          rw (g, tidy_s, tidy_d)
            (elim (M-cases (os.copy_bytes over src dst s)) [
              | inr (t, f, h) ↦ rw h tt
              | inl (t, n, h) ↦ rw h (l.copy_bytes_ok over src dst s t n apart h ∙ there)
            ])
    ])
  ]

  cloned :
      (dedup over : Bool) (src dst : Text) (size : ℕ) (o : O) (s : S)
      → Apart src dst
      → clean src ≡ src
      → clean dst ≡ dst
      → l.at src s ≡ some o
      → Copied dst o (copy_cloned os r dedup over src dst size s)
  cloned false over src dst size o s apart tidy_s tidy_d there =
      copied_bytes over src dst o s apart tidy_s tidy_d there
  cloned true over src dst size o s apart tidy_s tidy_d there =
      elim (M-cases (os.clone src dst s)) [
        | inl (t, a, h) ↦ rw h (l.clone_ok src dst s t apart h ∙ there)
        | inr (t, f, h) ↦ rw h (
            copied_bytes over src dst o t apart tidy_s tidy_d
              (l.clone_apart src dst s t (err f) h src apart ∙ there))
      ]

  -- after the tests: the directory of the destination is made, and the file is copied
  made_copied :
      (dedup over : Bool) (src dst : Text) (size : ℕ) (o : O) (s : S)
      → Apart src dst
      → clean src ≡ src
      → clean dst ≡ dst
      → is_below (clean (dir_path dst)) src ≡ false
      → l.at src s ≡ some o
      → Copied dst o ((mkdir_all os r (dir_path dst) >> copy_cloned os r dedup over src dst size) s)
  made_copied dedup over src dst size o s apart tidy_s tidy_d above there =
      elim (M-cases (mkdir_all os r (dir_path dst) s)) [
        | inr (t, f, e) ↦ rw e tt
        | inl (t, a, e) ↦ rw e (
            cloned dedup over src dst size o t apart tidy_s tidy_d (
              ap (λ x. l.at src x.0) (sym e)
              ∙ mkdir_all_frame os l r (dir_path dst) src s above
              ∙ there))
      ]

  looked_copied :
      (dst : Text) (o : O) (s : S) (over : Bool) (seen : Result Info) (next : M S CopyResult)
      → Copied dst o (next s)
      → Copied dst o ((refuse_found os r seen >> next) s)
  looked_copied dst o s over (ok i) next h = tt
  looked_copied dst o s over (err e) next h = h

  existing_copied :
      (over : Bool) (dst : Text) (o : O) (s : S) (next : M S CopyResult)
      → Copied dst o (next s)
      → Copied dst o ((refuse_existing os r over dst >> next) s)
  existing_copied true dst o s next h = h
  existing_copied false dst o s next h = looked_copied dst o s false (stat os r dst s).1 next h

  refused_copied :
      (b : Bool) (e : Error) (dst : Text) (o : O) (s : S) (next : M S CopyResult)
      → Copied dst o (next s)
      → Copied dst o ((refuse_if os r b e >> next) s)
  refused_copied true e dst o s next h = tt
  refused_copied false e dst o s next h = h

  pub copy_file_copied :
      (src dst : Text) (opts : CopyOptions) (o : O) (s : S)
      → Apart src dst
      → clean src ≡ src
      → clean dst ≡ dst
      → is_below (clean (dir_path dst)) src ≡ false
      → l.at src s ≡ some o
      → Copied dst o (copy_file os r src dst opts s)
  unfolding copy_file
  copy_file_copied src dst opts o s apart tidy_s tidy_d above there =
      elim (M-cases (stat os r src s)) [
        | inr (t, f, e) ↦ rw e tt
        | inl (t, i, e) ↦
            let same : t ≡ s = sym (ap (λ x. x.0) e) ∙ stat_pure os r src s in
            rw e (
              rw same (
                refused_copied i.is_dir is_directory dst o s (copy_new os r src dst opts i.size) (
                  existing_copied opts.overwrite dst o s (copy_into os r src dst opts i.size) (
                    made_copied opts.deduplicate opts.overwrite src dst i.size o s apart tidy_s
                      tidy_d above there))))
      ]

  -- The copy of a file is the file, at a destination apart from it.
  pub copy_copied :
      (copy_dir : Text → Text → CopyOptions → M S CopyResult) (src dst : Text) (opts : CopyOptions)
      (o : O) (s : S)
      → Apart src dst
      → clean src ≡ src
      → clean dst ≡ dst
      → is_below (clean (dir_path dst)) src ≡ false
      → l.at src s ≡ some o
      → l.folder o ≡ false
      → Copied dst o (copy os r copy_dir src dst opts s)
  unfolding copy
  copy_copied copy_dir src dst opts o s apart tidy_s tidy_d above there flat =
      elim (M-cases (stat os r src s)) [
        | inr (t, f, e) ↦ rw e tt
        | inl (t, i, e) ↦
            let same : t ≡ s = sym (ap (λ x. x.0) e) ∙ stat_pure os r src s in
            let told : l.folder o ≡ i.is_dir =
              subst (Seen o) (ap (λ x. x.1) e) (stat-Seen src s o tidy_s there) in
            let plain : i.is_dir ≡ false = sym told ∙ flat in
            rw e (
              rw same (
                refused_copied (dst =ₜ r.base) outside_root dst o s
                  (copy_either os r copy_dir src dst opts i.is_dir)
                  (rw plain (copy_file_copied src dst opts o s apart tidy_s tidy_d above there))))
      ]

  bytes_frame :
      (over : Bool) (src dst x : Text)
      → clean dst ≡ dst
      → Apart x dst
      → Frames os l x (copy_opened os r over src dst)
  bytes_frame over src dst x tidy apart s = elim (in_root_cases os r src s) [
    | inr (f, e) ↦ rw e refl
    | inl e ↦ rw e (elim (in_root_cases os r dst s) [
      | inr (f, g) ↦ rw g refl
      | inl g ↦
          rw (g, tidy)
            (elim (M-cases (os.copy_bytes over (clean src) dst s)) [
              | inr (t, f, h) ↦ rw h (l.copy_bytes_apart over (clean src) dst s t (err f) h x apart)
              | inl (t, n, h) ↦ rw h (l.copy_bytes_apart over (clean src) dst s t (ok n) h x apart)
            ])
    ])
  ]

  cloning_frame :
      (src dst x : Text) (size : ℕ) → Apart x dst → Frames os l x (cloning os r src dst size)
  cloning_frame src dst x size apart s = elim (M-cases (os.clone src dst s)) [
    | inr (t, f, h) ↦ rw h (l.clone_apart src dst s t (err f) h x apart)
    | inl (t, n, h) ↦ rw h (l.clone_apart src dst s t (ok n) h x apart)
  ]

  cloned_frame :
      (dedup over : Bool) (src dst x : Text) (size : ℕ)
      → clean dst ≡ dst
      → Apart x dst
      → Frames os l x (copy_cloned os r dedup over src dst size)
  cloned_frame false over src dst x size tidy apart = bytes_frame over src dst x tidy apart
  cloned_frame true over src dst x size tidy apart =
      Frames-on_error os l {A = CopyResult} x (cloning os r src dst size)
        (λ e. copy_opened os r over src dst) (cloning_frame src dst x size apart)
        (λ e. bytes_frame over src dst x tidy apart)

  looked_frame : (x : Text) (seen : Result Info) → Frames os l x (refuse_found os r seen)
  looked_frame x (ok i) s = refl
  looked_frame x (err e) s = refl

  existing_frame : (over : Bool) (dst x : Text) → Frames os l x (refuse_existing os r over dst)
  existing_frame true dst x s = refl
  existing_frame false dst x s = looked_frame x (stat os r dst s).1 s

  refused_frame : (b : Bool) (e : Error) (x : Text) → Frames os l x (refuse_if os r b e)
  refused_frame true e x s = refl
  refused_frame false e x s = refl

  pub stat_frame : (p x : Text) → Frames os l x (stat os r p)
  stat_frame p x s = ap (l.at x) (stat_pure os r p s)

  pub copy_file_frame :
      (src dst x : Text) (opts : CopyOptions)
      → clean dst ≡ dst
      → Apart x dst
      → is_below (clean (dir_path dst)) x ≡ false
      → Frames os l x (copy_file os r src dst opts)
  unfolding copy_file
  copy_file_frame src dst x opts tidy apart above =
      Frames-bind os l x (stat os r src) (copy_seen os r src dst opts) (stat_frame src x) (λ i.
        Frames-bind os l x (refuse_if os r i.is_dir is_directory)
          (λ a. copy_new os r src dst opts i.size) (refused_frame i.is_dir is_directory x)
          (λ a.
            Frames-bind os l x (refuse_existing os r opts.overwrite dst)
              (λ a. copy_into os r src dst opts i.size) (existing_frame opts.overwrite dst x)
              (λ b.
                Frames-bind os l x (mkdir_all os r (dir_path dst))
                  (λ a. copy_cloned os r opts.deduplicate opts.overwrite src dst i.size)
                  (λ s. mkdir_all_frame os l r (dir_path dst) x s above)
                  (λ c. cloned_frame opts.deduplicate opts.overwrite src dst x i.size tidy apart))))

  refusing_frame :
      (b : Bool) (e : Error) (x : Text) (s : S) (next : M S CopyResult)
      → l.at x (next s).0 ≡ l.at x s
      → l.at x ((refuse_if os r b e >> next) s).0 ≡ l.at x s
  refusing_frame true e x s next h = refl
  refusing_frame false e x s next h = h

  -- a copy of a file leaves alone what is apart from its destination
  pub copy_frame :
      (copy_dir : Text → Text → CopyOptions → M S CopyResult) (src dst x : Text)
      (opts : CopyOptions) (o : O) (s : S)
      → clean src ≡ src
      → l.at src s ≡ some o
      → l.folder o ≡ false
      → clean dst ≡ dst
      → Apart x dst
      → is_below (clean (dir_path dst)) x ≡ false
      → l.at x (copy os r copy_dir src dst opts s).0 ≡ l.at x s
  unfolding copy
  copy_frame copy_dir src dst x opts o s tidy_s there flat tidy_d apart above =
      elim (M-cases (stat os r src s)) [
        | inr (t, f, e) ↦ rw e (ap (λ y. l.at x y.0) (sym e) ∙ stat_frame src x s)
        | inl (t, i, e) ↦
            let same : t ≡ s = sym (ap (λ x. x.0) e) ∙ stat_pure os r src s in
            let told : l.folder o ≡ i.is_dir =
              subst (Seen o) (ap (λ x. x.1) e) (stat-Seen src s o tidy_s there) in
            let plain : i.is_dir ≡ false = sym told ∙ flat in
            rw e (
              rw same (
                refusing_frame (dst =ₜ r.base) outside_root x s
                  (copy_either os r copy_dir src dst opts i.is_dir)
                  (rw plain (copy_file_frame src dst x opts tidy_d apart above s))))
      ]
