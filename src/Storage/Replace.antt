-- ===== src/Storage/Replace.antt =====
-- internal/storage/storage.go: `ReplaceFile` and `InstallFile`, which put a staged file in its place. Both
-- run under the root's mutex.
pub mod Install
pub mod Safety
pub mod Versions
use macftpd.Prelude.{ℕ, ◌≡◌, Bool, true, false, Option, none, some, List, [], ◌∷◌, if◌then◌else◌}
use macftpd.Text.{Text, codes}
use macftpd.Storage.{Root}
use macftpd.Storage.Os.{
  Os, M, Result, ok, err, Error, not_exist, is_directory, joined, Info, ◌>>=◌, ◌>>◌, return, fail,
  on_error, ignoring, in_root, stat, rename,
}
use macftpd.Storage.Copy.{CopyOptions, CopyResult, copy}
use macftpd.Storage.Retain.{Stamp, Notes, RetainedEntry, version}

module _ {S : Type 0} (os : Os S) (notes : Notes) (r : Root)
    (copy_dir : Text → Text → CopyOptions → M S CopyResult) where
  -- `Copy` as `retain` calls it
  abbrev pub version_copy : Text → Text → M S (Unit {0})
  version_copy real payload =
      copy os r copy_dir real payload (record { deduplicate = true; overwrite = true }) >> return tt

  abbrev pub preserve_current : Bool → Stamp → Text → Text → Text → M S (Unit {0})
  preserve_current true stamp dest virtual actor =
      version os notes r version_copy stamp dest virtual actor >> return tt
  preserve_current false stamp dest virtual actor = return tt

  -- the destination is no directory, and a version of it is kept if that is asked for
  abbrev pub prepare : Result Info → Bool → Stamp → Text → Text → Text → M S (Unit {0})
  prepare (ok info) preserve stamp dest virtual actor =
      if info.is_dir then fail is_directory else preserve_current preserve stamp dest virtual actor
  prepare (err not_exist) preserve stamp dest virtual actor = return tt
  prepare (err e) preserve stamp dest virtual actor = fail e

  unfoldable pub replace_file : Stamp → Text → Text → Text → Text → Bool → M S (Unit {0})
  replace_file stamp staged dest virtual actor preserve = do
    (λ s. prepare (stat os r dest s).1 preserve stamp dest virtual actor s)
    rename os r staged dest

module _ {S : Type 0} (os : Os S) (r : Root) where
  unfoldable pub install_file : Text → Text → M S (Unit {0})
  install_file staged dest = do
    p ← in_root os r staged
    q ← in_root os r dest
    os.link p q
    on_error (os.remove p) (λ e. ignoring (os.remove q) >> fail e)
