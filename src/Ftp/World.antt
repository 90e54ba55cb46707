-- ===== src/Ftp/World.antt =====
-- internal/ftpserver/server.go: what a command of a session reads and changes. A handler is a function from
-- the world before to the world after; the store behind it, `Disk`, is the interface of the storage
-- root that the handlers call.
use macftpd.Prelude.{
  ℕ, Bool, false, ◌&&◌, ◌||◌, not, Option, none, some, List, [], ◌∷◌, ◌++◌, ltb, if◌then◌else◌,
}
use macftpd.Text.{Text, codes, is_empty, trim_space, to_lower, ◌=ₜ◌}
use macftpd.Clock.{Time, sub, is_zero, hour}
use macftpd.Auth.{User, PermissionSet, Database}
use macftpd.Ratelimit.{Limiter}
use macftpd.Activity
use macftpd.Activity.Message.{Event}
use macftpd.Status
use macftpd.Storage.{Root}

pub record Config : Type 0 where
  pub external_ip : Text
  pub require_tls : Bool
  pub tls : Bool
  pub allow_active : Bool
  pub allow_fxp : Bool
  pub public_hook : Bool

-- What the operating system and the network answer while a command runs: the time, the peer's address and
-- its host if it splits, whether the peer is this machine or is the named host, the IPv4 form of a host, the
-- local address, the address that the router told, the TLS handshake, and the ports that can be bound.
pub record Env : Type 0 where
  pub now : Time
  pub remote : Text
  pub remote_host : Option Text
  pub loopback : Bool
  pub same_host : Text → Bool
  pub ip4 : Text → Option (List ℕ)
  pub local_ip : Text
  pub mapped_ip : Text
  pub handshake : Bool
  pub can_listen : ℕ → Bool
  pub any_port : Option ℕ
  pub log_written : Bool

pub record Session : Type 0 where
  pub username : Text
  pub user : User
  pub perms : PermissionSet
  pub authenticated : Bool
  pub cwd : Text
  pub typ : Text
  pub passive : Bool
  pub passive_port : ℕ
  pub active_addr : Text
  pub rename_from : Text
  pub restart_offset : ℕ
  pub restart_set : Bool
  pub secure : Bool
  pub prot_private : Bool
  pub monitor : Bool
  pub status_id : ℕ

pub record Server : Type 0 where
  pub cfg : Config
  pub root : Root
  pub db : Database
  pub limiter : Limiter
  pub activity : Activity.Store
  pub tracker : Status.Tracker
  pub ports : List ℕ
  pub next_port : ℕ
  pub monitor_last : Time

pub record Reply : Type 0 where
  pub code : ℕ
  pub text : Text

-- What leaves the process: replies to the client, of one line and of several, ports asked of the router
-- and given back to it, and the public paths whose cached copies are to be dropped.
pub data Effect : Type 0 where
  replied : Reply → Effect
  replied_lines : ℕ → List Text → Text → Effect
  mapped unmapped : ℕ → Effect
  purged : Text → Effect

pub record World (S : Type 0) : Type 0 where
  pub session : Session
  pub server : Server
  pub disk : S
  pub effects : List Effect

-- `monitorSuccessDue`, for a time that is due
abbrev pub is_due : Time → Time → Bool
is_due now last = is_zero last || not (ltb (sub now last) hour)

-- `if a == "" { a = b }`
abbrev pub or_text : Text → Text → Text
or_text a b = if is_empty a then b else a

module _ {S : Type 0} where
  abbrev pub set_session : Session → World S → World S
  set_session s w = record w { session = s }

  abbrev pub set_server : Server → World S → World S
  set_server s w = record w { server = s }

  abbrev pub emit : Effect → World S → World S
  emit e w = record w { effects = w.effects ++ e ∷ [] }

  abbrev pub reply : ℕ → Text → World S → World S
  reply code text = emit (replied (record { code = code; text = text }))

  -- `releasePassivePort`: the answer of the router is only logged
  abbrev pub release_passive_port : ℕ → World S → World S
  release_passive_port port = emit (unmapped port)

  -- the port of a closed listener is given back
  unfoldable pub close_passive : World S → World S
  close_passive w =
      let s = w.session in
      let closed = set_session (record s { passive = false; passive_port = 0 }) w in
      if ltb 0 s.passive_port then release_passive_port s.passive_port closed else closed

  unfoldable pub close_data_setup : World S → World S
  unfolding close_passive
  close_data_setup w =
      let c = close_passive w in set_session (record c.session { active_addr = [] }) c

  unfoldable pub update_status : Env → (Status.Session → Status.Session) → World S → World S
  update_status env mutate w =
      if ltb 0 w.session.status_id
      then set_server
          (record w.server {
            tracker = Status.update env.now w.session.status_id mutate w.server.tracker;
          })
          w
      else w

  -- `logActivity`, once it is clear that the event is kept
  unfoldable pub add_activity : Env → Text → Text → Text → Text → ℕ → Text → World S → World S
  add_activity env action outcome path dest_path bytes detail w =
      let actor =
        or_text (or_text w.session.user.username w.session.username) (codes "anonymous") in
      let event : Event = record {
        id = 0;
        time = 0;
        type = codes "ftp_" ++ action;
        protocol = codes "ftp";
        actor = actor;
        remote = env.remote;
        referrer = [];
        action = action;
        outcome = outcome;
        path = path;
        dest_path = dest_path;
        bytes = bytes;
        detail = detail;
        message = [];
      } in
      set_server
        (record w.server {
          activity = (Activity.add env.log_written env.now event w.server.activity).0;
        })
        w

  -- a successful monitor cycle is kept once an hour, at its deletion
  unfoldable pub log_activity : Env → Text → Text → Text → Text → ℕ → Text → World S → World S
  unfolding add_activity
  log_activity env action outcome path dest_path bytes detail w =
      if w.session.monitor && outcome =ₜ codes "ok"
      then (if not (action =ₜ codes "delete") || not (is_due env.now w.server.monitor_last)
          then w
          else add_activity env action outcome path dest_path bytes
              (codes "FTP monitor cycle completed")
              (set_server (record w.server { monitor_last = env.now }) w))
      else add_activity env action outcome path dest_path bytes detail w

  unfoldable pub login_limit_key : Env → World S → Text
  login_limit_key env w =
      (elim env.remote_host [ none ↦ env.remote | some host ↦ host ])
      ++ b'|' ∷ to_lower (trim_space w.session.username)
