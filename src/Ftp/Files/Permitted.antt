-- ===== src/Ftp/Files/Permitted.antt =====
-- That a command about files asks the account database first.
use macftpd.Prelude.{◌≡◌, refl, Bool, false, ◌&&◌, Option, none, some, arith, subst}
use macftpd.Text.{Text, codes}
use macftpd.Auth.{Permission, User, PermissionSet, permissions_of}
use macftpd.Auth
use macftpd.Ftp.Command.{Command}
use macftpd.Ftp.World.{Env, World}
use macftpd.Ftp.Access.{granted, require_auth, require_auth_perm, with_perm}
use macftpd.Ftp.Files.{
  Disk, file, change_dir, delete, rmdir, mkdir, rename_from_path, rename_to_path, size, mdtm,
}

-- the permission that a command asks for
abbrev pub required : Command → Permission
required Command.dele = Auth.delete
required Command.rmd = Auth.delete
required Command.mkd = Auth.mkdir
required Command.rnfr = Auth.rename
required Command.rnto = Auth.rename
required Command.size = Auth.download
required Command.mdtm = Auth.download
required Command.stor = Auth.upload
required Command.appe = Auth.upload
required Command.retr = Auth.download
required _ = Auth.list

abbrev account_grants : Permission → Option (User × PermissionSet) → Bool
account_grants r none = false
account_grants r (some (user, perms)) = granted r perms

-- the session is logged in, and the database now gives its account the permission
abbrev pub may : {S : Type 0} → Permission → World S → Bool
may r w =
    w.session.authenticated && account_grants r (permissions_of w.server.db w.session.user.username)

with_perm-denied :
    {S : Type 0} (r : Permission) (run : World S → World S) (w : World S)
    → may r w ≡ false
    → (with_perm r run w).disk ≡ w.disk
unfolding require_auth_perm require_auth
with_perm-denied r run w lacks = ground arith

abbrev disk_after : {S : Type 0} → World S → Option (World S) → S
disk_after w none = w.disk
disk_after w (some v) = v.disk

module _ {S : Type 0} (glob : Text → Text → Option Bool) (disk : Disk S) (env : Env) where
  disk_after-file :
      (c : Command) (arg : Text) (w : World S)
      → may (required c) w ≡ false
      → disk_after w (file glob disk env c arg w) ≡ w.disk
  unfolding file
  disk_after-file Command.cwd arg w lacks =
      with_perm-denied Auth.list (change_dir glob disk env arg) w lacks
  disk_after-file Command.cdup arg w lacks =
      with_perm-denied Auth.list (change_dir glob disk env (codes "..")) w lacks
  disk_after-file Command.dele arg w lacks =
      with_perm-denied Auth.delete (delete glob disk env arg) w lacks
  disk_after-file Command.mkd arg w lacks =
      with_perm-denied Auth.mkdir (mkdir glob disk env arg) w lacks
  disk_after-file Command.rmd arg w lacks =
      with_perm-denied Auth.delete (rmdir glob disk env arg) w lacks
  disk_after-file Command.rnfr arg w lacks =
      with_perm-denied Auth.rename (rename_from_path glob disk env arg) w lacks
  disk_after-file Command.rnto arg w lacks =
      with_perm-denied Auth.rename (rename_to_path glob disk env arg) w lacks
  disk_after-file Command.size arg w lacks =
      with_perm-denied Auth.download (size glob disk env arg) w lacks
  disk_after-file Command.mdtm arg w lacks =
      with_perm-denied Auth.download (mdtm glob disk env arg) w lacks
  disk_after-file c arg w lacks = refl

  -- The commands CWD, CDUP, DELE, RMD, MKD, RNFR, RNTO, SIZE and MDTM (uploads, downloads and listings are not
  -- among them) leave the disk as it is unless the session is logged in and the account database, as it is at
  -- that moment, gives the account the permission that the command asks for: delete for DELE and RMD, mkdir for
  -- MKD, rename for RNFR and RNTO, download for SIZE and MDTM, list for CWD and CDUP.
  pub file-permitted :
      (c : Command) (arg : Text) (w v : World S)
      → may (required c) w ≡ false
      → file glob disk env c arg w ≡ some v
      → v.disk ≡ w.disk
  file-permitted c arg w v lacks e =
      subst (λ o. disk_after w o ≡ w.disk) e (disk_after-file c arg w lacks)
