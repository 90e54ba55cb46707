-- ===== src/Storage/Copy/Tree.antt =====
-- internal/storage/storage.go: `copyDir`. A copy takes fuel for the depth of the directories in it.
use macftpd.Prelude.{ℕ, zero, suc, ◌+◌, Bool, ◌&&◌, not, Option, List, [], ◌∷◌, if◌then◌else◌}
use macftpd.Text.{Text, codes, is_empty, ◌=ₜ◌}
use macftpd.Path.{clean, join_paths, slash}
use macftpd.Storage.{Root, is_below}
use macftpd.Storage.Os.{Os, M, inside_source, os_error, ◌>>=◌, ◌>>◌, return, fail, mkdir_all}
use macftpd.Storage.Listing.{Entry, list}
use macftpd.Storage.Copy.{CopyOptions, CopyResult, copy, refuse_if, refuse_existing}

abbrev pub strategy_of : Text → Text → Text
strategy_of before child =
    if is_empty before
    then child
    else if not (is_empty child) && not (before =ₜ child)
    then codes "mixed"
    else before

abbrev pub merged : CopyResult → CopyResult → CopyResult
merged result child = record {
  files = result.files + child.files;
  bytes = result.bytes + child.bytes;
  strategy = strategy_of result.strategy child.strategy;
}

abbrev pub or_copy : CopyResult → CopyResult
or_copy result = record result {
  strategy = if is_empty result.strategy then codes "copy" else result.strategy;
}

module _ {S : Type 0} (os : Os S) (glob : Text → Text → Option Bool) (r : Root) where
  module _ (child : Text → Text → CopyOptions → M S CopyResult) where
    unfoldable pub copy_children :
        Text → Text → CopyOptions → CopyResult → List Entry → M S CopyResult
    copy_children src dst opts result [] = return result
    copy_children src dst opts result (e ∷ entries) =
        child (join_paths (src ∷ e.name ∷ [])) (join_paths (dst ∷ e.name ∷ [])) opts >>= λ c.
        copy_children src dst opts (merged result c) entries

    abbrev pub copy_dir_clean : Text → Text → CopyOptions → M S CopyResult
    copy_dir_clean src dst opts = do
      refuse_if os r (is_below dst src) inside_source
      refuse_existing os r opts.overwrite dst
      mkdir_all os r dst
      entries ← list os glob r src slash
      result ← copy_children src dst opts (record { files = 0; bytes = 0; strategy = [] }) entries
      return (or_copy result)

    unfoldable pub copy_dir : Text → Text → CopyOptions → M S CopyResult
    unfolding copy_children
    copy_dir src dst opts = copy_dir_clean (clean src) (clean dst) opts

  unfoldable pub copy_tree : ℕ → Text → Text → CopyOptions → M S CopyResult
  copy_tree zero src dst opts = fail (os_error (codes "fuel"))
  copy_tree (suc n) src dst opts = copy os r (copy_dir (copy_tree n)) src dst opts
