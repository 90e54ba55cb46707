-- ===== src/Storage/Copy.antt =====
-- internal/storage/storage.go: `Copy` of a file. What is done for a directory is an argument.
pub mod Exact
pub mod Tree
use macftpd.Prelude.{
  ℕ, ◌≡◌, Bool, true, false, ◌&&◌, not, Option, none, some, List, [], ◌∷◌, if◌then◌else◌,
}
use macftpd.Text.{Text, codes, ◌=ₜ◌}
use macftpd.Path.{clean, dir_path}
use macftpd.Storage.{Root}
use macftpd.Storage.Os.{
  Os, M, Result, ok, err, Error, outside_root, exists, is_directory, Info, ◌>>=◌, ◌>>◌, return,
  fail, on_error, in_root, stat, mkdir_all,
}

pub record CopyOptions : Type 0 where
  pub deduplicate : Bool
  pub overwrite : Bool

pub record CopyResult : Type 0 where
  pub files : ℕ
  pub bytes : ℕ
  pub strategy : Text

module _ {S : Type 0} (os : Os S) (r : Root) where
  abbrev pub refuse_if : Bool → Error → M S (Unit {0})
  refuse_if true e = fail e
  refuse_if false e = return tt

  -- `if !opts.Overwrite` and the test that the destination is not there
  abbrev pub refuse_found : Result Info → M S (Unit {0})
  refuse_found (ok info) = fail exists
  refuse_found (err e) = return tt

  abbrev pub refuse_existing : Bool → Text → M S (Unit {0})
  refuse_existing true dst s = return tt s
  refuse_existing false dst s = refuse_found (stat os r dst s).1 s

  -- `io.Copy` between two files that are opened within the root
  abbrev pub copy_opened : Bool → Text → Text → M S CopyResult
  copy_opened overwrite src dst = do
    p ← in_root os r src
    q ← in_root os r dst
    n ← os.copy_bytes overwrite p q
    return (record { files = 1; bytes = n; strategy = codes "copy" })

  -- `cloneFile`
  abbrev pub cloning : Text → Text → ℕ → M S CopyResult
  cloning src dst size =
      os.clone src dst >> return (record { files = 1; bytes = size; strategy = codes "clonefile" })

  abbrev pub copy_cloned : Bool → Bool → Text → Text → ℕ → M S CopyResult
  copy_cloned true overwrite src dst size =
      on_error (cloning src dst size) (λ e. copy_opened overwrite src dst)
  copy_cloned false overwrite src dst size = copy_opened overwrite src dst

  -- `copyFile` from the directory of the destination on, and from the test that it is not there on
  abbrev pub copy_into : Text → Text → CopyOptions → ℕ → M S CopyResult
  copy_into src dst opts size =
      mkdir_all os r (dir_path dst) >> copy_cloned opts.deduplicate opts.overwrite src dst size

  abbrev pub copy_new : Text → Text → CopyOptions → ℕ → M S CopyResult
  copy_new src dst opts size = refuse_existing opts.overwrite dst >> copy_into src dst opts size

  abbrev pub copy_seen : Text → Text → CopyOptions → Info → M S CopyResult
  copy_seen src dst opts info =
      refuse_if info.is_dir is_directory >> copy_new src dst opts info.size

  unfoldable pub copy_file : Text → Text → CopyOptions → M S CopyResult
  copy_file src dst opts = stat os r src >>= copy_seen src dst opts

  module _ (copy_dir : Text → Text → CopyOptions → M S CopyResult) where
    abbrev pub copy_either : Text → Text → CopyOptions → Bool → M S CopyResult
    copy_either src dst opts true = copy_dir src dst opts
    copy_either src dst opts false = copy_file src dst opts

    abbrev pub copy_found : Text → Text → CopyOptions → Info → M S CopyResult
    copy_found src dst opts info =
        refuse_if (dst =ₜ r.base) outside_root >> copy_either src dst opts info.is_dir

    unfoldable pub copy : Text → Text → CopyOptions → M S CopyResult
    copy src dst opts = stat os r src >>= copy_found src dst opts
