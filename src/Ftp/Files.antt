-- ===== src/Ftp/Files.antt =====
-- internal/ftpserver/server.go: the commands that look up, remove and move files. The file system behind the
-- storage root is the interface `Disk`; an operation on it that fails says why.
pub mod Confined
pub mod Permitted
use macftpd.Prelude.{
  ℕ, Bool, true, false, ◌&&◌, ◌||◌, not, Option, none, some, List, [], ◌∷◌, ◌++◌, if◌then◌else◌,
}
use macftpd.Text.{Text, codes, is_empty}
use macftpd.Auth.{Permission, PermissionSet}
use macftpd.Auth
use macftpd.Status
use macftpd.Storage.{Root, resolve, is_public_real}
use macftpd.Ftp.Command.{Command, is_monitor_virtual}
use macftpd.Ftp.Command
use macftpd.Ftp.World.{
  Env, Config, Session, Server, World, Effect, purged, reply, set_session, emit, update_status,
  log_activity,
}
use macftpd.Ftp.Access.{with_perm}
use macftpd.Ftp.Ports.{print_nat}

-- what `Stat` tells of a file; the time is as `Format("20060102150405")` writes it
pub record Info : Type 0 where
  pub is_dir : Bool
  pub size : ℕ
  pub modified : Text

-- The operations of `storage.Root` that reach the file system. A change answers the state after it, and
-- the text of the error if there was one.
pub record Disk (S : Type 0) : Type 0 where
  pub stat : Text → S → Option Info
  pub make_dirs : Text → S → S × Option Text
  pub remove_file : Text → S → S × Option Text
  pub remove_tree : Text → S → S × Option Text
  pub trash : Text → Text → Text → S → S × Option Text
  pub move : Text → Text → S → S × Option Text

module _ {S : Type 0} (glob : Text → Text → Option Bool) (disk : Disk S) (env : Env) where
  -- `Resolve` for the session
  abbrev pub resolved : Text → World S → Option (Text × Text)
  resolved arg w = resolve w.server.root glob w.session.user w.session.cwd arg

  abbrev pub unavailable : World S → World S
  unavailable w = reply 550 (codes "Path unavailable") w

  abbrev pub log : Text → Text → Text → Text → Text → World S → World S
  log action outcome path dest_path detail w =
      log_activity env action outcome path dest_path 0 detail w

  -- `publicHook`
  abbrev pub purge : Bool → Text → World S → World S
  purge public virtual w = if public && w.server.cfg.public_hook then emit (purged virtual) w else w

  abbrev pub set_disk : S → World S → World S
  set_disk d w = record w { disk = d }

  abbrev pub entered : Text → Option Info → World S → World S
  entered virtual none w = reply 550 (codes "Not a directory") w
  entered virtual (some info) w =
      if not info.is_dir
      then reply 550 (codes "Not a directory") w
      else reply 250 (codes "Directory changed") (
          update_status env (λ st. record st { path = virtual })
            (set_session (record w.session { cwd = virtual }) w))

  abbrev pub change_to : Option (Text × Text) → World S → World S
  change_to none w = unavailable w
  change_to (some (real, virtual)) w = entered virtual (disk.stat real w.disk) w

  -- `changeDir`
  unfoldable pub change_dir : Text → World S → World S
  change_dir arg w = change_to (resolved arg w) w

  -- the words of `DELE` and of `RMD`
  abbrev pub denied : Bool → Text
  denied true = codes "Permission denied: public folders are admin-managed"
  denied false = codes "Permission denied: public files are admin-managed"

  abbrev pub removal_failed : Bool → Text
  removal_failed true = codes "Remove failed"
  removal_failed false = codes "Delete failed"

  abbrev pub removal_done : Bool → Text
  removal_done true = codes "Removed"
  removal_done false = codes "Deleted"

  abbrev pub erased_detail : Bool → Text
  erased_detail true = codes "FTP monitor folder removed permanently"
  erased_detail false = codes "FTP monitor cleanup removed permanently"

  abbrev pub trashed_detail : Bool → Text
  trashed_detail true = codes "FTP folder moved to trash"
  trashed_detail false = codes "FTP delete moved to trash"

  -- after `Remove`, `RemoveAll` or `Trash`
  abbrev pub discarded :
      Bool → Text → Text → (World S → World S) → S × Option Text → World S → World S
  discarded folder arg detail hook (d, some error) w =
      reply 550 (removal_failed folder)
        (log (codes "delete") (codes "failed") arg [] error (set_disk d w))
  discarded folder arg detail hook (d, none) w =
      reply 250 (removal_done folder)
        (log (codes "delete") (codes "ok") arg [] detail (hook (set_disk d w)))

  abbrev pub discard_at : Bool → Text → Option (Text × Text) → World S → World S
  discard_at folder arg none w = unavailable w
  discard_at folder arg (some (real, virtual)) w =
      let public = is_public_real w.server.root real in
      let erased = if folder then disk.remove_tree real w.disk else disk.remove_file real w.disk in
      let trashed = disk.trash real virtual w.session.user.username w.disk in
      if public && not w.session.perms.admin
      then reply 550 (denied folder) w
      else if is_monitor_virtual virtual
      then discarded folder arg (erased_detail folder) (λ v. v) erased w
      else discarded folder arg (trashed_detail folder) (purge public virtual) trashed w

  -- `delete` and `rmdir`
  unfoldable pub delete : Text → World S → World S
  delete arg w = discard_at false arg (resolved arg w) w

  unfoldable pub rmdir : Text → World S → World S
  rmdir arg w = discard_at true arg (resolved arg w) w

  abbrev pub made : Text → Text → S × Option Text → World S → World S
  made real virtual (d, some error) w =
      reply 550 (codes "Create failed")
        (log (codes "mkdir") (codes "failed") virtual [] error (set_disk d w))
  made real virtual (d, none) w = reply 257 (b'"' ∷ virtual ++ codes "\" created") (
      log (codes "mkdir") (codes "ok") virtual [] (codes "FTP folder created")
        (purge (is_public_real w.server.root real) virtual (set_disk d w)))

  abbrev pub make_at : Option (Text × Text) → World S → World S
  make_at none w = unavailable w
  make_at (some (real, virtual)) w = made real virtual (disk.make_dirs real w.disk) w

  -- `mkdir`
  unfoldable pub mkdir : Text → World S → World S
  mkdir arg w = make_at (resolved arg w) w

  abbrev pub rename_source : Text → Option Info → World S → World S
  rename_source real none w = unavailable w
  rename_source real (some info) w =
      if is_public_real w.server.root real && not w.session.perms.admin
      then reply 550 (denied false) w
      else reply 350 (codes "Ready for destination")
          (set_session (record w.session { rename_from = real }) w)

  abbrev pub rename_from_at : Option (Text × Text) → World S → World S
  rename_from_at none w = unavailable w
  rename_from_at (some (real, virtual)) w = rename_source real (disk.stat real w.disk) w

  -- `renameFromPath`
  unfoldable pub rename_from_path : Text → World S → World S
  rename_from_path arg w = rename_from_at (resolved arg w) w

  abbrev pub forget_source : World S → World S
  forget_source w = set_session (record w.session { rename_from = [] }) w

  abbrev pub moved : Text → Text → Bool → Text → S × Option Text → World S → World S
  moved arg source public virtual (d, some error) w = forget_source (
      reply 550 (codes "Rename failed")
        (log (codes "move") (codes "failed") source arg error (set_disk d w)))
  moved arg source public virtual (d, none) w = forget_source (
      reply 250 (codes "Renamed") (
        log (codes "move") (codes "ok") source arg (codes "FTP rename")
          (purge public virtual (set_disk d w))))

  abbrev pub rename_to_at : Text → Option (Text × Text) → World S → World S
  rename_to_at arg none w = unavailable w
  rename_to_at arg (some (real, virtual)) w =
      let source = w.session.rename_from in
      let public = is_public_real w.server.root real in
      if public && not w.session.perms.admin
      then reply 550 (denied false) w
      else moved arg source (is_public_real w.server.root source || public) virtual
          (disk.move source real w.disk) w

  -- `renameToPath`
  unfoldable pub rename_to_path : Text → World S → World S
  rename_to_path arg w =
      if is_empty w.session.rename_from
      then reply 503 (codes "RNFR required") w
      else rename_to_at arg (resolved arg w) w

  abbrev pub told_size : Option Info → World S → World S
  told_size none w = unavailable w
  told_size (some info) w = if info.is_dir then unavailable w else reply 213 (print_nat info.size) w

  abbrev pub size_at : Option (Text × Text) → World S → World S
  size_at none w = unavailable w
  size_at (some (real, virtual)) w = told_size (disk.stat real w.disk) w

  -- `size`
  unfoldable pub size : Text → World S → World S
  size arg w = size_at (resolved arg w) w

  abbrev pub told_time : Option Info → World S → World S
  told_time none w = unavailable w
  told_time (some info) w = reply 213 info.modified w

  abbrev pub time_at : Option (Text × Text) → World S → World S
  time_at none w = unavailable w
  time_at (some (real, virtual)) w = told_time (disk.stat real w.disk) w

  -- `mdtm`
  unfoldable pub mdtm : Text → World S → World S
  mdtm arg w = time_at (resolved arg w) w

  -- `dispatch`, for these commands; `none` for the others
  unfoldable pub file : Command → Text → World S → Option (World S)
  file Command.cwd arg w = some (with_perm Auth.list (change_dir arg) w)
  file Command.cdup arg w = some (with_perm Auth.list (change_dir (codes "..")) w)
  file Command.dele arg w = some (with_perm Auth.delete (delete arg) w)
  file Command.mkd arg w = some (with_perm Auth.mkdir (mkdir arg) w)
  file Command.rmd arg w = some (with_perm Auth.delete (rmdir arg) w)
  file Command.rnfr arg w = some (with_perm Auth.rename (rename_from_path arg) w)
  file Command.rnto arg w = some (with_perm Auth.rename (rename_to_path arg) w)
  file Command.size arg w = some (with_perm Auth.download (size arg) w)
  file Command.mdtm arg w = some (with_perm Auth.download (mdtm arg) w)
  file _ arg w = none
