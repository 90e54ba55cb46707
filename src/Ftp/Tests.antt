-- ===== src/Ftp/Tests.antt =====
-- A session at work, and the theorems at concrete inputs.
use macftpd.Prelude.{
  arith, ℕ, ◌≡◌, ◌<◌, refl, Bool, true, false, ◌&&◌, not, Option, none, some, List, [], ◌∷◌, pos,
  length, ◌+◌, ◌%◌,
}
use macftpd.Text.{Text, codes}
use macftpd.Auth.{admin_permissions, no_permissions, authenticate, permissions_of}
use macftpd.Auth.Tests.{vault, keeper, secret}
use macftpd.Dict.{get}
use macftpd.Auth.Toy.{toy}
use macftpd.Ratelimit
use macftpd.Activity
use macftpd.Status
use macftpd.Storage.Tests.{root, guest}
use macftpd.Ftp.Command.{Command}
use macftpd.Ftp.World.{Env, Session, Server, World, login_limit_key}
use macftpd.Ftp.Control.Dispatch.{Homes, login, control}
use macftpd.Ftp.Control.Secure.{control-guarded, next_guarded}
use macftpd.Ftp.Control.Login.{login_exact, is_found}
use macftpd.Ftp.Files.{Disk, file, delete, mkdir}
use macftpd.Ftp.Access.{with_perm}
use macftpd.Auth
use macftpd.Ftp.Files.Permitted.{file-permitted}
use macftpd.Ftp.Files.Confined.{recording}
use macftpd.Ftp.Control.{restart}
use macftpd.Ftp.Control.Offset.{restart-print_nat}
use macftpd.Ftp.Ports.{print_nat, listen_passive, get_or}
use macftpd.Ftp.Ports.Rotation.{listen_passive_in_turn}

abbrev network : Env
network = record {
  now = 1000;
  remote = codes "10.0.0.9:5";
  remote_host = some (codes "10.0.0.9");
  loopback = false;
  same_host = λ host. false;
  ip4 = λ host. none;
  local_ip = codes "10.0.0.1";
  mapped_ip = [];
  handshake = true;
  can_listen = λ port. true;
  any_port = none;
  log_written = true;
}

abbrev ports : List ℕ
ports = 2000 ∷ 2001 ∷ []

abbrev session : Session
session = record {
  username = codes "ann";
  user = guest;
  perms = no_permissions;
  authenticated = false;
  cwd = b'/' ∷ [];
  typ = codes "A";
  passive = false;
  passive_port = 0;
  active_addr = [];
  rename_from = [];
  restart_offset = 0;
  restart_set = false;
  secure = false;
  prot_private = false;
  monitor = false;
  status_id = 1;
}

-- a server that asks for TLS, with no accounts
abbrev server : Server
server = record {
  cfg = record {
    external_ip = [];
    require_tls = true;
    tls = true;
    allow_active = true;
    allow_fxp = false;
    public_hook = true;
  };
  root = root;
  db = record { users = []; groups = [] };
  limiter = Ratelimit.new (pos 0) (pos 0) (pos 0);
  activity = Activity.new (pos 0);
  tracker = Status.new;
  ports = ports;
  next_port = 1;
  monitor_last = 0;
}

abbrev world : {S : Type 0} → S → World S
world disk = record { session = session; server = server; disk = disk; effects = [] }

-- a disk that counts what is asked of it
abbrev counter : Disk ℕ
counter = record {
  stat = λ p n. none;
  make_dirs = λ p n. (n + 1, none);
  remove_file = λ p n. (n + 1, none);
  remove_tree = λ p n. (n + 1, none);
  trash = λ p v user n. (n + 1, none);
  move = λ p q n. (n + 1, none);
}

abbrev homes : Homes ℕ
homes = record { ensure_user_home = λ root user n. n + 1 }

abbrev no_glob : Text → Text → Option Bool
no_glob pattern name = some false

control-guarded_example :
    next_guarded toy homes network (control toy homes network Command.auth (codes "tls") (world 0))
    ≡ true
control-guarded_example =
    control-guarded toy homes network Command.auth (codes "tls") (world 0) refl

-- Ann, who has an account, on a connection that is protected
abbrev covered : World ℕ
covered = record {
  session = record session { secure = true };
  server = record server { db = vault };
  disk = 0;
  effects = [];
}

login_exact_example : (login toy homes network secret covered).0.session.authenticated ≡ (
    not (true && true && not true)
    && (Ratelimit.allow 1000 (login_limit_key network covered) server.limiter).1
    && is_found (authenticate toy vault (codes "ann") secret))
login_exact_example = login_exact toy homes network secret covered refl

-- a session that is logged in to an account that is gone
abbrev orphan : World ℕ
orphan = record covered { session = record session { authenticated = true }; server = server }

file-permitted_example :
    (with_perm Auth.delete (delete no_glob counter network (codes "a")) orphan).disk ≡ 0
unfolding permissions_of get file
file-permitted_example =
    file-permitted no_glob counter network Command.dele (codes "a") orphan
      (with_perm Auth.delete (delete no_glob counter network (codes "a")) orphan) refl refl

-- Ann, who is logged in and may do everything, in a disk that nothing was changed in
abbrev at_work : World (ℕ × List Text)
at_work = record {
  session = record session { user = keeper; perms = admin_permissions; authenticated = true };
  server = record server { db = vault };
  disk = (0, []);
  effects = [];
}

abbrev after_mkdir : World (ℕ × List Text)
after_mkdir =
    with_perm Auth.mkdir (mkdir no_glob (recording counter) network (codes "../../a")) at_work

listen_passive_in_turn_example :
    ((port index : ℕ)
      → listen_passive (λ p. true) none ports 1 ≡ some (port, index)
      → (turn : ℕ) × (turn < length ports)
        × (port ≡ get_or ports ((1 + turn) % length ports) 0)
        × (true ≡ true)
        × (index ≡ ((1 + turn) % length ports + 1) % length ports)
        × ((j : ℕ) → j < turn → true ≡ false))
    × (listen_passive (λ p. true) none ports 1 ≡ none → (j : ℕ) → j < length ports → true ≡ false)
listen_passive_in_turn_example = listen_passive_in_turn (λ p. true) none 2000 (2001 ∷ []) 1

restart-print_nat_example :
    ((restart network (print_nat 50210) covered).session.restart_offset ≡ 50210)
    × ((restart network (print_nat 50210) covered).session.restart_set ≡ true)
restart-print_nat_example = restart-print_nat network covered 50210 (omega arith)
