-- ===== src/Ftp/Control.antt =====
-- internal/ftpserver/server.go: `handle` and `dispatch`, for the commands that steer the session: the login,
-- the protection of the connections, and how the next transfer is made. An answer comes with whether
-- the session ends.
pub mod Dispatch
pub mod Login
pub mod Offset
pub mod Secure
use macftpd.Prelude.{
  ℕ, ◌+◌, ◌*◌, ◌/◌, ◌%◌, Bool, true, false, ◌&&◌, ◌||◌, not, Option, none, some, List, [], ◌∷◌,
  ◌++◌, leb, ltb, ◌==◌, if◌then◌else◌, ℤ, pos, negsuc, map,
}
use macftpd.Text.{
  Text, codes, is_empty, trim_space, to_upper, has_prefix, split, equal_fold, ◌=ₜ◌, join,
}
use macftpd.Auth.{User, PermissionSet, authenticate}
use macftpd.Auth.Password.{Crypto}
use macftpd.Ratelimit
use macftpd.Status
use macftpd.Storage.{Root, resolve}
use macftpd.Ftp.Command.{Command}
use macftpd.Ftp.Command
use macftpd.Ftp.World.{
  Env, Session, Server, World, mapped, reply, set_session, set_server, emit, close_passive,
  update_status, log_activity, login_limit_key,
}
use macftpd.Ftp.Access.{require_auth, with_auth}
use macftpd.Ftp.Ports.{parse_int, print_nat, listen_passive}

-- `monitorClientAllowed`
abbrev monitor_client_allowed : Env → Text → Bool
monitor_client_allowed env name =
    equal_fold (trim_space name) (codes "macftpd-monitor") && env.loopback

-- the host of a `PASV` answer: the configured one, the router's, or the local address
abbrev passive_host : Env → Text → Text
passive_host env configured =
    let first =
      if is_empty configured || equal_fold configured (codes "auto")
      then env.mapped_ip
      else configured in
    let second = if is_empty first then env.local_ip else first in
    if is_empty second || second =ₜ codes "::" then codes "127.0.0.1" else second

abbrev ip_or_local : Option (List ℕ) → List ℕ
ip_or_local none = 127 ∷ 0 ∷ 0 ∷ 1 ∷ []
ip_or_local (some ip) = ip

-- a number of a `PORT` argument
abbrev byte_of : Option ℤ → Option ℕ
byte_of (some (pos n)) = if ltb 255 n then none else some n
byte_of _ = none

abbrev cons_byte : Option ℕ → Option (List ℕ) → Option (List ℕ)
cons_byte (some n) (some ns) = some (n ∷ ns)
cons_byte _ _ = none

unfoldable pub bytes_of : List Text → Option (List ℕ)
bytes_of [] = some []
bytes_of (p ∷ parts) = cons_byte (byte_of (parse_int (trim_space p))) (bytes_of parts)

-- the rest of `enterActive` and of `enterExtendedActive`; `JoinHostPort` puts a host with a colon in
-- brackets
abbrev join_host_port : Text → Text → Text
join_host_port host port =
    if Command.has_colon host then b'[' ∷ host ++ b']' ∷ b':' ∷ port else host ++ b':' ∷ port

module _ {S : Type 0} (env : Env) where
  -- `restart`
  abbrev accept_offset : Option ℤ → World S → World S
  accept_offset (some (pos offset)) w =
      reply 350
        (codes "Restarting at "
          ++ print_nat offset
          ++ codes ". Send STORE or RETRIEVE to initiate transfer")
        (set_session (record w.session { restart_offset = offset; restart_set = true }) w)
  accept_offset _ w = reply 501 (codes "Bad restart offset") w

  unfoldable pub restart : Text → World S → World S
  restart given w =
      let arg = trim_space given in
      if is_empty arg
      then reply 501 (codes "Restart offset required") w
      else accept_offset (parse_int arg) w

  -- `authTLS`; a failed handshake leaves the session as it is, on a closed connection
  unfoldable pub auth_tls : Text → World S → World S
  auth_tls arg w =
      let upper = to_upper (trim_space arg) in
      if not w.server.cfg.tls
      then reply 502 (codes "TLS not configured") w
      else if w.session.secure
      then reply 503 (codes "TLS already active") w
      else if not (upper =ₜ codes "TLS") && not (upper =ₜ codes "SSL")
      then reply 504 (codes "Use AUTH TLS") w
      else let started = reply 234 (codes "Starting TLS") w in
        if not env.handshake
        then started
        else update_status env (λ st. record st { secure = true })
            (set_session (record started.session { secure = true; prot_private = true }) started)

  -- `PBSZ` and `PROT`
  unfoldable pub pbsz : World S → World S
  pbsz w =
      if not w.session.secure
      then reply 503 (codes "Send AUTH TLS first") w
      else reply 200 (codes "PBSZ=0") w

  unfoldable pub prot : Text → World S → World S
  prot arg w =
      let level = to_upper (trim_space arg) in
      if not w.session.secure
      then reply 503 (codes "Send AUTH TLS first") w
      else if level =ₜ codes "P"
      then reply 200 (codes "Data channel protection set to private")
          (set_session (record w.session { prot_private = true }) w)
      else if level =ₜ codes "C"
      then reply 200 (codes "Data channel protection set to clear")
          (set_session (record w.session { prot_private = false }) w)
      else reply 536 (codes "Unsupported protection level") w

  unfoldable pub set_type : Text → World S → World S
  set_type arg w =
      let typ = if has_prefix (to_upper arg) (codes "I") then codes "I" else codes "A" in
      reply 200 (codes "Type set to " ++ typ) (set_session (record w.session { typ = typ }) w)

  unfoldable pub client_name : Text → World S → World S
  client_name arg w = reply 200 (codes "Client name noted") (
      if monitor_client_allowed env arg
      then set_session (record w.session { monitor = true }) w
      else w)

  abbrev passive_text : Bool → ℕ → World S → ℕ × Text
  passive_text true port w =
      (229, codes "Entering Extended Passive Mode (|||" ++ print_nat port ++ codes "|)")
  passive_text false port w =
      let ip = ip_or_local (env.ip4 (passive_host env w.server.cfg.external_ip)) in
      (
        227,
        codes "Entering Passive Mode ("
            ++ join b',' (map print_nat (ip ++ (port / 256) ∷ (port % 256) ∷ []))
            ++ codes ")",
      )

  abbrev listening : Bool → Option (ℕ × ℕ) → World S → World S
  listening extended none w = reply 421 (codes "No passive ports available") w
  listening extended (some (port, next)) w =
      let (code, text) = passive_text extended port w in
      reply code text (
        emit (mapped port) (record w {
          session = record w.session { passive = true; passive_port = port; active_addr = [] };
          server = record w.server { next_port = next };
        }))

  -- `enterPassive`: the listener of an earlier command is closed first
  unfoldable pub enter_passive : Bool → World S → World S
  enter_passive extended w =
      let c = close_passive w in
      listening extended
        (listen_passive env.can_listen env.any_port c.server.ports c.server.next_port) c

  abbrev active_target : Text → Text → Text → World S → World S
  active_target name host port w =
      if not w.server.cfg.allow_fxp && not (env.same_host host)
      then reply 501 (codes "FXP active target denied") w
      else let c = close_passive w in
        reply 200 (name ++ codes " command successful")
          (set_session (record c.session { active_addr = join_host_port host port }) c)

  abbrev port_numbers : Option (List ℕ) → World S → World S
  port_numbers (some (a ∷ b ∷ c ∷ d ∷ e ∷ f ∷ [])) w =
      active_target (codes "PORT") (join b'.' (map print_nat (a ∷ b ∷ c ∷ d ∷ [])))
        (print_nat (e * 256 + f)) w
  port_numbers _ w = reply 501 (codes "Bad PORT") w

  unfoldable pub enter_active : Text → World S → World S
  enter_active arg w =
      if not w.server.cfg.allow_active
      then reply 502 (codes "Active mode disabled") w
      else port_numbers (bytes_of (split b',' arg)) w

  abbrev eprt_parts : List Text → World S → World S
  eprt_parts (first ∷ host ∷ port ∷ last ∷ more) w = active_target (codes "EPRT") host port w
  eprt_parts _ w = reply 501 (codes "Bad EPRT") w

  abbrev eprt_delimited : Text → World S → World S
  eprt_delimited (delim ∷ a ∷ b ∷ c ∷ d ∷ rest) w =
      eprt_parts (split delim (a ∷ b ∷ c ∷ d ∷ rest)) w
  eprt_delimited _ w = reply 501 (codes "Bad EPRT") w

  unfoldable pub enter_extended_active : Text → World S → World S
  enter_extended_active arg w =
      if not w.server.cfg.allow_active
      then reply 502 (codes "Active mode disabled") w
      else eprt_delimited arg w
