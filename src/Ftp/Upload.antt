-- ===== src/Ftp/Upload.antt =====
-- internal/ftpserver/server.go: `store`, from the resolved path on: a file is received next to the stored ones
-- and then put in its place. What comes over the data connection is an argument. The staged file is written
-- whole, and opening and reading the current file are one step; the log, the status and the purge of cached
-- copies are left out.
pub mod Placed
pub mod Exact
use macftpd.Prelude.{
  ℕ, zero, suc, ◌-◌, Bool, true, false, ◌&&◌, ◌||◌, not, Option, none, some, List, [], ◌∷◌, ◌++◌,
  if◌then◌else◌, ltb, length, take,
}
use macftpd.Text.{Text, codes}
use macftpd.Path.{dir_path, join_paths}
use macftpd.Storage.{Root}
use macftpd.Storage.Os.{
  Os, M, Result, ok, err, Error, not_exist, exists, Info, ◌>>=◌, ◌>>◌, return, fail, with_root,
  stat, create_new, mkdir_all, remove, chmod,
}
use macftpd.Storage.Copy.{CopyOptions, CopyResult}
use macftpd.Storage.Retain.{Notes, Stamp}
use macftpd.Storage.Replace.{replace_file}

-- How an upload ends: with a reply before the transfer, without a data connection, with a reply and a note
-- that it failed after so many bytes, or stored with so many.
pub data Outcome : Type 0 where
  stopped : ℕ → Text → Outcome
  no_data : Outcome
  failed : ℕ → Text → ℕ → Outcome
  stored : ℕ → Outcome

-- Whether there is a data connection, what comes over it, and after how many bytes it breaks, if it does; and
-- whether `Seek`, `Truncate` and `Close` of the staged file fail.
pub record Incoming : Type 0 where
  pub opens : Bool
  pub bytes : Text
  pub breaks : Option ℕ
  pub seek_fails : Bool
  pub truncate_fails : Bool
  pub close_fails : Bool

unfoldable pub zeros : ℕ → Text
zeros zero = []
zeros (suc n) = 0 ∷ zeros n

module _ {S : Type 0} (os : Os S) (notes : Notes) (r : Root)
    (copy_dir : Text → Text → CopyOptions → M S CopyResult) (stamp : Stamp) where
  -- `createStagedUpload`, over the names that it tries
  abbrev pub stage_created : Text → M S Text → S × Result (Unit {0}) → S × Result Text
  stage_created path more (s, ok a) = (s, ok path)
  stage_created path more (s, err exists) = more s
  stage_created path more (s, err e) = (s, err e)

  unfoldable pub stage : List Text → M S Text
  stage [] = fail exists
  stage (path ∷ paths) = λ s. stage_created path (stage paths) (create_new os r path s)

  abbrev pub staged_upload : List Text → M S Text
  staged_upload paths =
      mkdir_all os r (join_paths (r.base ∷ codes "._macftpd_uploads" ∷ [])) >> stage paths

  abbrev pub replaced : ℕ → S × Result (Unit {0}) → S × Outcome
  replaced n (s, ok a) = (s, stored n)
  replaced n (s, err e) = (s, failed 451 (codes "Cannot preserve or replace destination") n)

  abbrev pub sealed : Text → Text → Text → Text → ℕ → S × Result (Unit {0}) → S × Outcome
  sealed path real virtual actor n (s, err e) =
      (s, failed 451 (codes "Cannot finalize upload permissions") n)
  sealed path real virtual actor n (s, ok a) =
      replaced n (replace_file os notes r copy_dir stamp path real virtual actor true s)

  abbrev pub received : Bool → Text → Text → Text → Text → ℕ → S × Result (Unit {0}) → S × Outcome
  received close_fails path real virtual actor n (s, err e) =
      (s, failed 426 (codes "Transfer aborted") n)
  received true path real virtual actor n (s, ok a) =
      (s, failed 451 (codes "Cannot finalize upload") n)
  received false path real virtual actor n (s, ok a) =
      sealed path real virtual actor n (chmod os r path s)

  abbrev pub broken : ℕ → S × Result (Unit {0}) → S × Outcome
  broken n (s, a) = (s, failed 426 (codes "Transfer aborted") n)

  -- the bytes behind `base`
  abbrev pub transfer : Bool → Text → Text → Text → Text → Text → Text → Option ℕ → S → S × Outcome
  transfer close_fails path real virtual actor base bytes none s =
      received close_fails path real virtual actor (length bytes)
        (os.write_file path (base ++ bytes) s)
  transfer close_fails path real virtual actor base bytes (some n) s =
      broken (length (take n bytes)) (os.write_file path (base ++ take n bytes) s)

  abbrev pub from_base : Text → Text → Text → Text → Incoming → Text → S → S × Outcome
  from_base path real virtual actor incoming base s =
      if incoming.opens
      then transfer incoming.close_fails path real virtual actor base incoming.bytes incoming.breaks
          s
      else (s, no_data)

  -- the place of the first byte is looked up, and what is behind an offset is cut off
  abbrev pub sought : Text → Text → Text → Text → Incoming → Bool → Bool → Text → S → S × Outcome
  sought path real virtual actor incoming appending restarting base s =
      if appending && incoming.seek_fails
      then (s, stopped 550 (codes "Append seek failed"))
      else if restarting && incoming.seek_fails
      then (s, stopped 550 (codes "Restart seek failed"))
      else if restarting && incoming.truncate_fails
      then (s, stopped 550 (codes "Restart truncate failed"))
      else from_base path real virtual actor incoming base s

  -- what is kept of the file that is there: `Seek` and `Truncate` at an offset behind the end fill up with zeros
  abbrev pub base_of : Bool → ℕ → Text → Text
  base_of restarting offset current =
      if restarting then take offset current ++ zeros (offset - length current) else current

  abbrev pub from_current :
      Text → Text → Text → Text → Incoming → Bool → Bool → ℕ → S × Result Text → S × Outcome
  from_current path real virtual actor incoming appending restarting offset (s, err e) =
      (s, stopped 550 (codes "Cannot read current file"))
  from_current path real virtual actor incoming appending restarting offset (s, ok current) =
      sought path real virtual actor incoming appending restarting
        (base_of restarting offset current) s

  abbrev pub read_current : Text → M S Text
  read_current real = with_root os r real (λ p s. (s, os.read_file p s))

  abbrev pub from_staged :
      Text → Text → Text → Text → Incoming → Bool → Bool → ℕ → Bool → S → S × Outcome
  from_staged path real virtual actor incoming appending restarting offset true s =
      from_current path real virtual actor incoming appending restarting offset
        (read_current real s)
  from_staged path real virtual actor incoming appending restarting offset false s =
      sought path real virtual actor incoming appending restarting [] s

  -- `defer`: what is left of the staged file is removed
  abbrev pub cleaned : Text → S × Outcome → S × Outcome
  cleaned path (s, outcome) = ((remove os r path s).0, outcome)

  abbrev pub with_staged :
      Text → Text → Text → Incoming → Bool → Bool → ℕ → Bool → S × Result Text → S × Outcome
  with_staged real virtual actor incoming appending restarting offset current (s, err e) =
      (s, stopped 550 (codes "Cannot stage upload"))
  with_staged real virtual actor incoming appending restarting offset current (s, ok path) =
      cleaned path
        (from_staged path real virtual actor incoming appending restarting offset current s)

  abbrev pub with_offset :
      List Text → Text → Text → Text → Incoming → Bool → Bool → ℕ → Option ℕ → S → S × Outcome
  with_offset paths real virtual actor incoming appending restarting offset none s =
      if restarting && ltb 0 offset
      then (s, stopped 550 (codes "Resume target unavailable"))
      else with_staged real virtual actor incoming appending restarting offset false
          (staged_upload paths s)
  with_offset paths real virtual actor incoming appending restarting offset (some size) s =
      if restarting && ltb 0 offset && ltb size offset
      then (s, stopped 554 (codes "Restart offset exceeds file size"))
      else with_staged real virtual actor incoming appending restarting offset
          (appending || restarting) (staged_upload paths s)

  abbrev pub with_seen :
      List Text → Text → Text → Text → Incoming → Bool → Bool → ℕ → Result Info → S → S × Outcome
  with_seen paths real virtual actor incoming appending restarting offset (ok info) s =
      if info.is_dir
      then (s, stopped 550 (codes "Destination is a directory"))
      else with_offset paths real virtual actor incoming appending restarting offset
          (some info.size) s
  with_seen paths real virtual actor incoming appending restarting offset (err not_exist) s =
      with_offset paths real virtual actor incoming appending restarting offset none s
  with_seen paths real virtual actor incoming appending restarting offset (err e) s =
      (s, stopped 550 (codes "Destination unavailable"))

  abbrev pub with_parent :
      List Text
      → Text
      → Text
      → Text
      → Incoming
      → Bool
      → Bool
      → ℕ
      → S × Result (Unit {0})
      → S × Outcome
  with_parent paths real virtual actor incoming appending restarting offset (s, err e) =
      (s, stopped 550 (codes "Cannot create directory"))
  with_parent paths real virtual actor incoming appending restarting offset (s, ok a) =
      with_seen paths real virtual actor incoming appending restarting offset (stat os r real s).1 s

  unfoldable pub store_at :
      List Text → Text → Text → Text → Incoming → Bool → Bool → ℕ → S → S × Outcome
  unfolding stage
  store_at paths real virtual actor incoming appending restarting offset s =
      with_parent paths real virtual actor incoming appending restarting offset
        (mkdir_all os r (dir_path real) s)
