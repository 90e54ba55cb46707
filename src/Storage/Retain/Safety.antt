-- ===== src/Storage/Retain/Safety.antt =====
-- What the trash does with an object.
use macftpd.Prelude.{◌≡◌, refl, true, none, some, ◌⊎◌, inl, inr, ◌∙◌, sym, ap, Option-cases}
use macftpd.Text.{Text, codes}
use macftpd.Clock.{Time}
use macftpd.Path.{clean_virtual}
use macftpd.Storage.{Root}
use macftpd.Storage.Os.{
  Os, IsOs, Apart, M, Result, ok, err, Error, joined, Info, stat, stat_pure, ◌>>◌, M-cases, return,
  on_error,
}
use macftpd.Storage.Retain.{
  Stamp, RetainedEntry, Notes, retain_at, trash, retained_dir, payload_of, note_of, entry_id,
  entry_for, named_virtual, roll_back,
}

Apart-sym : (p q : Text) → Apart p q → Apart q p
Apart-sym p q (a, b) = (b, a)

-- The object lies outside of the directory of the entry, and the payload is not the note.
pub record Laid (real dir : Text) : Type 0 where
  pub outside : Apart real dir
  pub off_payload : Apart real (payload_of dir)
  pub off_note : Apart real (note_of dir)
  pub two : Apart (payload_of dir) (note_of dir)

module _ {S O : Type 0} (os : Os S) (l : IsOs os O) (notes : Notes) (r : Root) where
  -- What becomes of an object that is to be moved: with no error it is the payload and the note tells of it,
  -- else it is where it was, or it is the payload because it could not be moved back.
  abbrev pub Kept : Text → Text → RetainedEntry → S → S × Result RetainedEntry → Type 0
  Kept real dir entry s (s', ok found) =
      (found ≡ entry)
      × (l.at (payload_of dir) s' ≡ l.at real s)
      × (l.at real s' ≡ none)
      × ((raw : Text) × (notes.encode found ≡ some raw)
          × (l.at (note_of dir) s' ≡ some (l.file raw)))
  Kept real dir entry s (s', err e) =
      (l.at real s' ≡ l.at real s)
      ⊎ ((first : Error) × (second : Error) × (e ≡ joined first second)
          × (l.at (payload_of dir) s' ≡ l.at real s))

  -- `cleanup` leaves an object outside alone
  cleaned :
      (real dir : Text) (t : S) → Apart real dir → l.at real (os.remove_all dir t).0 ≡ l.at real t
  cleaned real dir t apart =
      l.remove_all_apart dir t (os.remove_all dir t).0 (os.remove_all dir t).1 refl real apart

  roll_back-Kept :
      (real dir : Text) (entry : RetainedEntry) (e : Error) (s t : S)
      → Laid real dir
      → l.at (payload_of dir) t ≡ l.at real s
      → Kept real dir entry s ((roll_back os notes r true real dir e >> return entry) t)
  roll_back-Kept real dir entry e s t laid gone =
      elim (M-cases (os.rename (payload_of dir) real t)) [
        | inl (u, a, done) ↦
            let (back, left, rest) =
              l.rename_ok (payload_of dir) real t u
                (Apart-sym real (payload_of dir) laid.off_payload) done in
            rw done (inl (cleaned real dir u laid.outside ∙ back ∙ gone))
        | inr (u, f, failed) ↦
            let stuck = l.rename_err (payload_of dir) real t u f failed (payload_of dir) in
            rw failed (inr (e, f, refl, stuck ∙ gone))
      ]

  written-Kept :
      (real dir : Text) (entry : RetainedEntry) (s u : S) (raw : Text)
      → Laid real dir
      → notes.encode entry ≡ some raw
      → l.at (payload_of dir) u ≡ l.at real s
      → l.at real u ≡ none
      → Kept real dir entry s (
          (on_error (os.write_file (note_of dir) raw) (roll_back os notes r true real dir)
              >> return entry)
            u)
  written-Kept real dir entry s u raw laid good there left =
      elim (M-cases (os.write_file (note_of dir) raw u)) [
        | inl (v, c, done) ↦ rw done (
          refl,
          l.write_apart (note_of dir) raw u v (ok tt) done (payload_of dir) laid.two ∙ there,
          l.write_apart (note_of dir) raw u v (ok tt) done real laid.off_note ∙ left,
          (raw, good, l.write_ok (note_of dir) raw u v done),
        )
        | inr (v, e, failed) ↦ rw failed (
            roll_back-Kept real dir entry e s v laid (
              l.write_apart (note_of dir) raw u v (err e) failed (payload_of dir) laid.two ∙ there))
      ]

  retain_at-Kept :
      (copy : M S (Unit {0})) (real dir : Text) (entry : RetainedEntry) (s : S)
      → Laid real dir
      → Kept real dir entry s (retain_at os notes r copy true real dir entry s)
  unfolding retain_at
  retain_at-Kept copy real dir entry s laid = elim (M-cases (os.mkdir_all dir s)) [
    | inr (t, e, failed) ↦
        rw failed (inl (l.mkdir_all_apart dir s t (err e) failed real laid.outside.1))
    | inl (t, a, made) ↦
        let same = l.mkdir_all_apart dir s t (ok tt) made real laid.outside.1 in
        rw made (elim (Option-cases (notes.encode entry)) [
          | inl bad ↦ rw bad (inl (cleaned real dir t laid.outside ∙ same))
          | inr (raw, good) ↦ rw good (elim (M-cases (os.rename real (payload_of dir) t)) [
            | inr (u, e, failed) ↦ rw failed (
                inl (
                  cleaned real dir u laid.outside
                  ∙ l.rename_err real (payload_of dir) t u e failed real
                  ∙ same))
            | inl (u, b, gone) ↦
                let (there, left, rest) =
                  l.rename_ok real (payload_of dir) t u laid.off_payload gone in
                rw gone (written-Kept real dir entry s u raw laid good (there ∙ same) left)
          ])
        ])
  ]

  -- The directory of the entry that `trash` makes.
  abbrev pub trash_dir : Stamp → Text → Text
  trash_dir stamp actor = retained_dir r (codes "._macftpd_trash") (entry_id os notes r stamp actor)

  abbrev pub Trashed : Text → Text → Text → Text → S → S × Result RetainedEntry → Type 0
  Trashed real dir virtual id s (s', ok found) =
      (found.original_path ≡ clean_virtual (named_virtual os notes r virtual real))
      × (found.id ≡ id)
      × (l.at (payload_of dir) s' ≡ l.at real s)
      × (l.at real s' ≡ none)
      × ((raw : Text) × (notes.encode found ≡ some raw)
          × (l.at (note_of dir) s' ≡ some (l.file raw)))
  Trashed real dir virtual id s (s', err e) =
      (l.at real s' ≡ l.at real s)
      ⊎ ((first : Error) × (second : Error) × (e ≡ joined first second)
          × (l.at (payload_of dir) s' ≡ l.at real s))

  Kept-Trashed :
      (real dir virtual root_name id : Text) (now : Time) (info : Info) (s : S)
      (x : S × Result RetainedEntry)
      → Kept real dir
          (entry_for os notes r (named_virtual os notes r virtual real) root_name id now info)
          s
          x
      → Trashed real dir virtual id s x
  Kept-Trashed real dir virtual root_name id now info s (s', ok found) (same, moved, left, told) =
      (ap (λ e. e.original_path) same, ap (λ e. e.id) same, moved, left, told)
  Kept-Trashed real dir virtual root_name id now info s (s', err e) k = k

  -- An object that is put in the trash is never lost: if `trash` reports no error, the object is the payload
  -- of a new entry, whose note tells where it was; if it reports one, the object is where it was, or it is
  -- the payload because it could not be moved back, and the error says so.
  pub trash_kept :
      (stamp : Stamp) (real virtual actor : Text) (s : S)
      → Laid real (trash_dir stamp actor)
      → Trashed real
          (trash_dir stamp actor)
          virtual
          (entry_id os notes r stamp actor)
          s
          (trash os notes r stamp real virtual actor s)
  unfolding trash
  trash_kept stamp real virtual actor s laid = elim (M-cases (stat os r real s)) [
    | inl (t, info, seen) ↦
        let same : t ≡ s = sym (ap (λ x. x.0) seen) ∙ stat_pure os r real s in
        rw seen (
          Kept-Trashed real (trash_dir stamp actor) virtual (codes "._macftpd_trash")
            (entry_id os notes r stamp actor) stamp.now info s _
            (rw same (
              retain_at-Kept (return tt) real (trash_dir stamp actor)
                (entry_for os notes r (named_virtual os notes r virtual real)
                  (codes "._macftpd_trash") (entry_id os notes r stamp actor) stamp.now info)
                s laid)))
    | inr (t, e, failed) ↦
        let same : t ≡ s = sym (ap (λ x. x.0) failed) ∙ stat_pure os r real s in
        rw failed (inl (ap (l.at real) same))
  ]
