-- ===== src/Storage/Replace/Versions.antt =====
-- What `Version` does: the payload of the new entry is the object, and nothing outside of the entry changes.
use macftpd.Prelude.{
  ◌≡◌, refl, true, false, ◌∙◌, inl, inr, sym, ap, subst, Option, some, Option-cases,
}
use macftpd.Text.{Text, codes}
use macftpd.Path.{clean, dir_path}
use macftpd.Storage.{Root, is_below}
use macftpd.Storage.Os.{
  Os, IsOs, Apart, M, Result, ok, err, M-cases, bound, stat, stat_pure, ◌>>◌, on_error, return,
}
use macftpd.Storage.Copy.{CopyOptions, CopyResult, copy}
use macftpd.Storage.Copy.Exact.{Copied, copy_copied, copy_frame, stat_frame}
use macftpd.Storage.Retain.{
  Stamp, Notes, RetainedEntry, retain_at, retain, version, retained_dir, payload_of, note_of,
  entry_id, entry_for, named_virtual, dropping, roll_back,
}
use macftpd.Storage.Replace.{version_copy}

-- Where nothing of an entry is: neither its directory nor what is above it, nor the payload nor the note.
pub record Outside (dir x : Text) : Type 0 where
  pub off_dir : Apart x dir
  pub off_payload : Apart x (payload_of dir)
  pub off_note : Apart x (note_of dir)
  pub above : is_below (clean (dir_path (payload_of dir))) x ≡ false

-- The directory of an entry, as paths go: the payload is a cleaned path, and it is not the note.
pub record Entry (dir : Text) : Type 0 where
  pub tidy : clean (payload_of dir) ≡ payload_of dir
  pub two : Apart (payload_of dir) (note_of dir)

module _ {S O : Type 0} (os : Os S) (l : IsOs os O) (notes : Notes) (r : Root) where
  abbrev pub Still : Text → S → S → Type 0
  Still dir s s' = (x : Text) → Outside dir x → l.at x s' ≡ l.at x s

  -- A copy to the payload of an entry: with no error the payload is the object, and nothing else changes.
  abbrev pub Versioned : {A : Type 0} → Text → Option O → S → S × Result A → Type 0
  Versioned dir o s (s', ok found) = (l.at (payload_of dir) s' ≡ o) × Still dir s s'
  Versioned dir o s (s', err e) = Still dir s s'

  dropped-Still : (dir : Text) (s t : S) → Still dir s t → Still dir s (os.remove_all dir t).0
  dropped-Still dir s t still =
      λ x out. l.remove_all_apart dir t _ _ refl x out.off_dir ∙ still x out

  noted-Versioned :
      (real dir raw : Text) (o : Option O) (entry : RetainedEntry) (s t : S)
      → Entry dir
      → Still dir s t
      → l.at (payload_of dir) t ≡ o
      → Versioned dir o s (
          (on_error (os.write_file (note_of dir) raw) (roll_back os notes r false real dir)
              >> return entry)
            t)
  noted-Versioned real dir raw o entry s t laid still there =
      elim (M-cases (os.write_file (note_of dir) raw t)) [
        | inl (u, a, e) ↦ rw e (
          l.write_apart (note_of dir) raw t u (ok a) e (payload_of dir) laid.two ∙ there,
          λ x out. l.write_apart (note_of dir) raw t u (ok a) e x out.off_note ∙ still x out,
        )
        | inr (u, f, e) ↦ rw e (
            dropped-Still dir s u
              (λ x out. l.write_apart (note_of dir) raw t u (err f) e x out.off_note ∙ still x out))
      ]

  copied-Versioned :
      (copying : M S (Unit {0})) (real dir raw : Text) (o : Option O) (entry : RetainedEntry)
      (s t : S)
      → Entry dir
      → Still dir s t
      → Versioned dir o t (copying t)
      → Versioned dir o s (
          (on_error copying (dropping os notes r dir)
              >> (on_error (os.write_file (note_of dir) raw) (roll_back os notes r false real dir)
                  >> return entry))
            t)
  copied-Versioned copying real dir raw o entry s t laid still did = elim (M-cases (copying t)) [
    | inl (u, a, e) ↦
        let (there, after) = subst (Versioned dir o t) e did in
        rw e
          (noted-Versioned real dir raw o entry s u laid (λ x out. after x out ∙ still x out) there)
    | inr (u, f, e) ↦
        let after = subst (Versioned dir o t) e did in
        rw e (dropped-Still dir s u (λ x out. after x out ∙ still x out))
  ]

  retain_at-Versioned :
      (copying : M S (Unit {0})) (real dir : Text) (o : Option O) (entry : RetainedEntry) (s : S)
      → Entry dir
      → Outside dir real
      → l.at real s ≡ o
      → ((t : S) → l.at real t ≡ o → Versioned dir o t (copying t))
      → Versioned dir o s (retain_at os notes r copying false real dir entry s)
  unfolding retain_at
  retain_at-Versioned copying real dir o entry s laid out there did =
      elim (M-cases (os.mkdir_all dir s)) [
        | inr (t, e, failed) ↦
            rw failed (λ x far. l.mkdir_all_apart dir s t (err e) failed x far.off_dir.1)
        | inl (t, a, made) ↦
            let still : Still dir s t =
              λ x far. l.mkdir_all_apart dir s t (ok a) made x far.off_dir.1 in
            rw made (elim (Option-cases (notes.encode entry)) [
              | inl bad ↦ rw bad (dropped-Still dir s t still)
              | inr (raw, good) ↦ rw good (
                  copied-Versioned copying real dir raw o entry s t laid still
                    (did t (still real out ∙ there)))
            ])
      ]

  module _ (copy_dir : Text → Text → CopyOptions → M S CopyResult) where
    abbrev version_of : CopyOptions
    version_of = record { deduplicate = true; overwrite = true }

    then_unit :
        (dir : Text) (o : O) (t : S) (x : S × Result CopyResult)
        → ((y : Text) → Outside dir y → l.at y x.0 ≡ l.at y t)
        → Copied os l r (payload_of dir) o x
        → Versioned dir (some o) t (bound (λ c. return tt) x)
    then_unit dir o t (u, ok c) still there = (there, still)
    then_unit dir o t (u, err e) still there = still

    payload-Versioned :
        (real dir : Text) (o : O) (t : S)
        → Entry dir
        → Outside dir real
        → clean real ≡ real
        → l.at real t ≡ some o
        → l.folder o ≡ false
        → Versioned dir (some o) t (version_copy os notes r copy_dir real (payload_of dir) t)
    payload-Versioned real dir o t laid out tidy there flat =
        then_unit dir o t (copy os r copy_dir real (payload_of dir) version_of t)
          (λ y far.
            copy_frame os l r copy_dir real (payload_of dir) y version_of o t tidy there flat
              laid.tidy far.off_payload far.above)
          (copy_copied os l r copy_dir real (payload_of dir) version_of o t out.off_payload tidy
            laid.tidy out.above there flat)

    abbrev pub version_dir : Stamp → Text → Text
    version_dir stamp actor =
        retained_dir r (codes "._macftpd_versions") (entry_id os notes r stamp actor)

    pub version-Versioned :
        (stamp : Stamp) (real virtual actor : Text) (o : O) (s : S)
        → Entry (version_dir stamp actor)
        → Outside (version_dir stamp actor) real
        → clean real ≡ real
        → l.at real s ≡ some o
        → l.folder o ≡ false
        → Versioned
            (version_dir stamp actor)
            (some o)
            s
            (version os notes r (version_copy os notes r copy_dir) stamp real virtual actor s)
    unfolding version retain
    version-Versioned stamp real virtual actor o s laid out tidy there flat =
        elim (M-cases (stat os r real s)) [
          | inr (t, f, e) ↦
              rw e (λ x far. ap (λ y. l.at x y.0) (sym e) ∙ stat_frame os l r real x s)
          | inl (t, i, e) ↦
              let same : t ≡ s = sym (ap (λ x. x.0) e) ∙ stat_pure os r real s in
              rw (e, same)
                (retain_at-Versioned
                  (version_copy os notes r copy_dir real (payload_of (version_dir stamp actor)))
                  real (version_dir stamp actor) (some o)
                  (entry_for os notes r (named_virtual os notes r virtual real)
                    (codes "._macftpd_versions") (entry_id os notes r stamp actor) stamp.now i)
                  s laid out there
                  (λ u kept.
                    payload-Versioned real (version_dir stamp actor) o u laid out tidy kept flat))
        ]
