-- ===== src/Storage/Restore.antt =====
-- internal/storage/storage.go: `Restore`, which moves a retained object back.
pub mod Safety
use macftpd.Prelude.{
  ℕ, ◌≡◌, Bool, true, false, ◌||◌, not, Option, none, some, List, [], ◌∷◌, ◌++◌, if◌then◌else◌,
}
use macftpd.Text.{Text, is_empty, contains}
use macftpd.Path.{clean_virtual, dir_path}
use macftpd.Storage.{Root, real_from_virtual}
use macftpd.Storage.Os.{
  Os, M, Result, ok, err, Error, outside_root, exists, bad_entry, Info, ◌>>=◌, ◌>>◌, return, fail,
  ignoring, stat, mkdir_all, remove_all,
}
use macftpd.Storage.Retain.{RetainedEntry, Notes, retained_root, retained_dir, payload_of, note_of}

module _ {S : Type 0} (os : Os S) (notes : Notes) (r : Root) where
  abbrev pub or_fail : {A : Type 0} → Error → Option A → M S A
  or_fail e none = fail e
  or_fail e (some a) = return a

  abbrev pub absent : Result Info → M S (Unit {0})
  absent (ok info) = fail exists
  absent (err e) = return tt

  -- `Restore`, once the note is read
  unfoldable pub restore_to : Text → Text → Text → Bool → M S Text
  restore_to dir virtual real overwrite = do
    if overwrite then return tt else (λ s. absent (stat os r real s).1 s)
    mkdir_all os r (dir_path real)
    if overwrite then ignoring (remove_all os r real) else return tt
    os.rename (payload_of dir) real
    ignoring (os.remove (note_of dir))
    ignoring (os.remove dir)
    return virtual

  unfoldable pub restore : Text → Text → Text → Bool → M S Text
  unfolding restore_to
  restore kind id dest overwrite = do
    if is_empty id || contains b'/' id then fail outside_root else return tt
    let dir = retained_dir r (retained_root kind) id
    raw ← (λ s. (s, os.read_file (note_of dir) s))
    entry ← or_fail bad_entry (notes.decode raw)
    let virtual = clean_virtual (if is_empty dest then entry.original_path else dest)
    real ← or_fail outside_root (real_from_virtual r virtual)
    restore_to dir virtual real overwrite
