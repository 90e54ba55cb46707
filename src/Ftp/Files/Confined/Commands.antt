-- ===== src/Ftp/Files/Confined/Commands.antt =====
-- That the paths which a command about files hands on are below the base directory.
use macftpd.Prelude.{◌≡◌, Bool, true, Option, none, some, List}
use macftpd.Text.{Text}
use macftpd.Auth.{User}
use macftpd.Auth
use macftpd.Storage.Containment.{IsSound}
use macftpd.Ftp.Command.{Command}
use macftpd.Ftp.World.{Env, World}
use macftpd.Ftp.Files.{Disk}
use macftpd.Ftp.Files.Confined.{confined}

module _ {S : Type 0} (glob : Text → Text → Option Bool) (disk : Disk S) (env : Env) where
  -- a handler that keeps the paths below the base where the storage root is sound
  abbrev Keeps : (World (S × List Text) → World (S × List Text)) → Type 0
  Keeps run =
      (w : World (S × List Text))
      → IsSound w.server.root
      → confined w ≡ true
      → confined (run w) ≡ true

  abbrev next_confined : Option (World (S × List Text)) → Bool
  next_confined none = true
  next_confined (some w) = confined w
