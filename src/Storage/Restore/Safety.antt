-- ===== src/Storage/Restore/Safety.antt =====
-- What `Restore` does with a retained object, and with what is in its way.
use macftpd.Prelude.{
  ◌≡◌, refl, Bool, true, false, none, arith, inl, inr, ◌∙◌, sym, ap, subst, if◌then◌else◌,
}
use macftpd.Text.{Text}
use macftpd.Path.{clean, dir_path}
use macftpd.Storage.{Root, is_below}
use macftpd.Storage.Os.{
  Os, IsOs, Apart, M, Result, ok, err, Error, Info, stat, mkdir_all, remove_all, M-cases, bound,
  ◌>>◌, return, ignoring,
}
use macftpd.Storage.Os.Frame.{
  Apart-sym, remove-Apart, mkdir_all_frame, remove_all_frame, remove_all_gone,
}
use macftpd.Storage.Retain.{Notes, payload_of, note_of}
use macftpd.Storage.Restore.{restore_to, absent}

-- The destination is a cleaned path outside of the directory of the entry, and its directory is not in the
-- payload.
pub record Landing (dest dir : Text) : Type 0 where
  pub tidy : clean dest ≡ dest
  pub off_dir : Apart dest dir
  pub off_payload : Apart dest (payload_of dir)
  pub off_note : Apart dest (note_of dir)
  pub parent : is_below (clean (dir_path dest)) (payload_of dir) ≡ false
  pub above : is_below (clean (dir_path dest)) dest ≡ false

module _ {S O : Type 0} (os : Os S) (l : IsOs os O) (notes : Notes) (r : Root) where
  abbrev pub Restored : Text → Text → Text → Bool → S → S × Result Text → Type 0
  Restored dest dir virtual overwrite s (s', ok v) =
      (v ≡ virtual) × (l.at dest s' ≡ l.at (payload_of dir) s)
  Restored dest dir virtual overwrite s (s', err e) =
      (l.at (payload_of dir) s' ≡ l.at (payload_of dir) s)
      × (overwrite ≡ false → l.at dest s' ≡ l.at dest s)

  -- the move itself, and the removal of what is left of the entry
  abbrev moving : Text → Text → Text → M S Text
  moving dest dir virtual = do
    os.rename (payload_of dir) dest
    ignoring (os.remove (note_of dir))
    ignoring (os.remove dir)
    return virtual

  moving-Restored :
      (dest dir virtual : Text) (overwrite : Bool) (s u : S)
      → Landing dest dir
      → l.at (payload_of dir) u ≡ l.at (payload_of dir) s
      → (overwrite ≡ false → l.at dest u ≡ l.at dest s)
      → Restored dest dir virtual overwrite s (moving dest dir virtual u)
  moving-Restored dest dir virtual overwrite s u land kept there =
      elim (M-cases (os.rename (payload_of dir) dest u)) [
        | inl (v, a, done) ↦
            let (here, gone, rest) =
              l.rename_ok (payload_of dir) dest u v
                (Apart-sym dest (payload_of dir) land.off_payload) done in
            rw done (
              refl,
              remove-Apart os l dir dest (os.remove (note_of dir) v).0 land.off_dir
                  ∙ remove-Apart os l (note_of dir) dest v land.off_note
                  ∙ here
                  ∙ kept,
            )
        | inr (v, e, failed) ↦
            let same = l.rename_err (payload_of dir) dest u v e failed in
            rw failed (same (payload_of dir) ∙ kept, λ keep. same dest ∙ there keep)
      ]

  clearing : Bool → Text → Text → Text → M S Text
  clearing overwrite dest dir virtual = do
    mkdir_all os r (dir_path dest)
    if overwrite then ignoring (remove_all os r dest) else return tt
    moving dest dir virtual

  clearing-Restored :
      (dest dir virtual : Text) (overwrite : Bool) (s : S)
      → Landing dest dir
      → Restored dest dir virtual overwrite s (clearing overwrite dest dir virtual s)
  unfolding clearing
  clearing-Restored dest dir virtual overwrite s land =
      let at_payload = mkdir_all_frame os l r (dir_path dest) (payload_of dir) s land.parent in
      let at_dest = mkdir_all_frame os l r (dir_path dest) dest s land.above in
      elim (M-cases (mkdir_all os r (dir_path dest) s)) [
        | inl (u, a, made) ↦
            let payload_u = ap (λ x. l.at (payload_of dir) x.0) (sym made) ∙ at_payload in
            let dest_u = ap (λ x. l.at dest x.0) (sym made) ∙ at_dest in
            rw made (cleared overwrite u payload_u dest_u)
        | inr (u, e, failed) ↦
            let payload_u = ap (λ x. l.at (payload_of dir) x.0) (sym failed) ∙ at_payload in
            let dest_u = ap (λ x. l.at dest x.0) (sym failed) ∙ at_dest in
            rw failed (payload_u, λ keep. dest_u)
      ]
    where
      cleared :
          (over : Bool) (u : S)
          → l.at (payload_of dir) u ≡ l.at (payload_of dir) s
          → l.at dest u ≡ l.at dest s
          → Restored dest dir virtual over s (
              ((if over then ignoring (remove_all os r dest) else return tt)
                  >> moving dest dir virtual)
                u)
      cleared true u payload_u dest_u =
          moving-Restored dest dir virtual true s (remove_all os r dest u).0 land
            (remove_all_frame os l r dest (payload_of dir) u (
                subst (λ d. Apart (payload_of dir) d) (sym land.tidy)
                  (Apart-sym dest (payload_of dir) land.off_payload))
              ∙ payload_u)
            (λ keep. absurd (ground arith))
      cleared false u payload_u dest_u =
          moving-Restored dest dir virtual false s u land payload_u (λ keep. dest_u)

  looked-Restored :
      (dest dir virtual : Text) (s : S) (seen : Result Info)
      → Landing dest dir
      → Restored dest dir virtual false s
          (bound (λ a. clearing false dest dir virtual) (absent os notes r seen s))
  looked-Restored dest dir virtual s (ok info) land = (refl, λ keep. refl)
  looked-Restored dest dir virtual s (err e) land = clearing-Restored dest dir virtual false s land

  -- If the destination is a path in clean form that lies apart from the entry, its payload and its note (which the
  -- code does not look at: with the leave to overwrite, a destination above the entry is removed with the payload
  -- in it), and its directory is neither in the payload nor in the destination, then a retained object is restored,
  -- or it is still the payload of its entry. Without the leave to overwrite, what was at the destination is still
  -- there after an error.
  pub restore_to-Restored :
      (dest dir virtual : Text) (overwrite : Bool) (s : S)
      → Landing dest dir
      → Restored dest dir virtual overwrite s (restore_to os notes r dir virtual dest overwrite s)
  unfolding restore_to clearing
  restore_to-Restored dest dir virtual true s land = clearing-Restored dest dir virtual true s land
  restore_to-Restored dest dir virtual false s land =
      looked-Restored dest dir virtual s (stat os r dest s).1 land

  -- With the leave to overwrite, the destination is removed before the object is moved: if the move then
  -- fails, what was at the destination is gone, and only the error is reported.
  pub restore_to_loses :
      (dest dir virtual : Text) (s t u v : S) (e : Error)
      → Landing dest dir
      → mkdir_all os r (dir_path dest) s ≡ (t, ok tt)
      → remove_all os r dest t ≡ (u, ok tt)
      → os.rename (payload_of dir) dest u ≡ (v, err e)
      → ((restore_to os notes r dir virtual dest true s).1 ≡ err e)
        × (l.at dest (restore_to os notes r dir virtual dest true s).0 ≡ none)
  unfolding restore_to
  restore_to_loses dest dir virtual s t u v e land made cleared failed =
      let gone = remove_all_gone os l r dest t u cleared in
      rw (made, cleared, failed)
        (
          refl,
          l.rename_err (payload_of dir) dest u v e failed dest
              ∙ subst (λ d. l.at d u ≡ none) land.tidy gone,
        )
