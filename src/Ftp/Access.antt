-- ===== src/Ftp/Access.antt =====
-- internal/ftpserver/server.go: the tests that stand before the commands.
use macftpd.Prelude.{Bool, true, false, not, Option, none, some, ◌++◌, if◌then◌else◌}
use macftpd.Text.{Text, codes}
use macftpd.Auth.{User, PermissionSet, Permission, has, no_permissions, permissions_of}
use macftpd.Auth
use macftpd.Ftp.World.{World, reply, set_session}

-- the names that `requireAuthPerm` is called with
unfoldable pub permission_name : Permission → Text
permission_name Auth.list = codes "list"
permission_name Auth.download = codes "download"
permission_name Auth.upload = codes "upload"
permission_name Auth.delete = codes "delete"
permission_name Auth.mkdir = codes "mkdir"
permission_name Auth.rename = codes "rename"
permission_name Auth.admin = codes "admin"
permission_name Auth.public = codes "public"
permission_name Auth.dropbox = codes "dropbox"

-- the `switch` of `requireAuthPerm`
abbrev pub granted : Permission → PermissionSet → Bool
granted Auth.list p = p.list
granted Auth.download p = p.download
granted Auth.upload p = p.upload
granted Auth.delete p = p.delete
granted Auth.mkdir p = p.mkdir
granted Auth.rename p = p.rename
granted _ p = false

module _ {S : Type 0} where
  abbrev account : Option (User × PermissionSet) → World S → World S × Bool
  account none w = (
    reply 530 (codes "Account unavailable")
        (set_session (record w.session { authenticated = false; perms = no_permissions }) w),
    false,
  )
  account (some (user, perms)) w = (
    set_session (record w.session { user = record user { permissions = perms }; perms = perms }) w,
    true,
  )

  -- the account is read again before each command
  unfoldable pub require_auth : World S → World S × Bool
  require_auth w =
      if not w.session.authenticated
      then (reply 530 (codes "Please login") w, false)
      else account (permissions_of w.server.db w.session.user.username) w

  unfoldable pub require_auth_perm : Permission → World S → World S × Bool
  unfolding require_auth permission_name
  require_auth_perm r w =
      let (w', allowed) = require_auth w in
      if not allowed
      then (w', false)
      else if not (granted r w'.session.perms)
      then (reply 550 (codes "Permission denied: " ++ permission_name r) w', false)
      else (w', true)

  -- a command that needs an account, and one that needs a permission
  abbrev pub with_auth : (World S → World S) → World S → World S
  with_auth run w = let (w', allowed) = require_auth w in if allowed then run w' else w'

  abbrev pub with_perm : Permission → (World S → World S) → World S → World S
  with_perm r run w = let (w', allowed) = require_auth_perm r w in if allowed then run w' else w'
