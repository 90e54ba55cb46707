-- ===== src/Ftp/Control/Dispatch.antt =====
-- internal/ftpserver/server.go: `PASS`, and the part of `dispatch` that is not about files. An answer is the
-- world after the command and whether the session ends.
use macftpd.Prelude.{
  Bool, true, false, ◌&&◌, not, Option, none, some, List, [], ◌∷◌, ◌++◌, if◌then◌else◌,
}
use macftpd.Text.{Text, codes, trim_space, ◌=ₜ◌}
use macftpd.Auth.{User, PermissionSet, authenticate}
use macftpd.Auth.Password.{Crypto}
use macftpd.Ratelimit
use macftpd.Storage.{Root}
use macftpd.Ftp.Command.{Command}
use macftpd.Ftp.World.{
  Env, World, replied_lines, reply, set_session, set_server, emit, update_status, log_activity,
  login_limit_key, or_text,
}
use macftpd.Ftp.Access.{with_auth}
use macftpd.Ftp.Control.{
  auth_tls, pbsz, prot, set_type, client_name, restart, enter_passive, enter_active,
  enter_extended_active,
}

-- What the storage root does for a login: it makes the user's home. Its failure is not reported.
pub record Homes (S : Type 0) : Type 0 where
  pub ensure_user_home : Root → User → S → S

abbrev features : Bool → List Text
features tls =
    (codes "UTF8"
      ∷ codes "CLNT"
      ∷ codes "EPSV"
      ∷ codes "PASV"
      ∷ codes "REST STREAM"
      ∷ codes "SIZE"
      ∷ codes "MDTM"
      ∷ codes "MLST type*;size*;modify*;perm*;"
      ∷ codes "MLSD"
      ∷ [])
    ++ (if tls then codes "AUTH TLS" ∷ codes "PBSZ" ∷ codes "PROT" ∷ [] else [])

module _ {S : Type 0} (crypto : Crypto) (homes : Homes S) (env : Env) where
  abbrev pub set_limiter : Ratelimit.Limiter → World S → World S
  set_limiter l w = set_server (record w.server { limiter = l }) w

  -- the outcome of `Authenticate`
  abbrev pub logged_in : Text → Option (User × PermissionSet) → World S → World S
  logged_in key none w = reply 530 (codes "Login incorrect") (
      log_activity env (codes "login") (codes "failed") [] [] 0 (codes "bad FTP credentials")
        (set_limiter (Ratelimit.fail env.now key w.server.limiter) w))
  logged_in key (some (user, perms)) w =
      let cwd = or_text user.home (codes "/") in
      let secure = w.session.secure in
      let reset = set_limiter (Ratelimit.reset key w.server.limiter) w in
      let entered =
        set_session
          (record reset.session {
            user = record user { permissions = perms };
            perms = perms;
            authenticated = true;
            cwd = cwd;
          })
          reset in
      let housed =
        if not (cwd =ₜ codes "/")
        then record entered {
          disk = homes.ensure_user_home w.server.root (record user { permissions = perms }) w.disk;
        }
        else entered in
      reply 230 (codes "Login successful") (
        log_activity env (codes "login") (codes "ok") cwd [] 0 (codes "FTP login") (
          update_status env
            (λ st. record st {
              user = user.username;
              action = codes "idle";
              path = cwd;
              secure = secure;
            })
            housed))

  unfoldable pub login : Text → World S → World S × Bool
  login password w =
      let key = login_limit_key env w in
      let (l, allowed) = Ratelimit.allow env.now key w.server.limiter in
      let asked = set_limiter l w in
      if w.server.cfg.require_tls && w.server.cfg.tls && not w.session.secure
      then (reply 534 (codes "TLS required") w, false)
      else if not allowed
      then (
        reply 421 (codes "Too many failed login attempts; try again later") (
            log_activity env (codes "login") (codes "limited") [] [] 0
              (codes "too many failed FTP login attempts") asked),
        true,
      )
      else (
        logged_in key (authenticate crypto w.server.db w.session.username password) asked,
        false,
      )

  abbrev pub show_cwd : World S → World S
  show_cwd w = reply 257 (b'"' ∷ w.session.cwd ++ codes "\" is current directory") w

  -- `dispatch`; `none` for the commands about files
  unfoldable pub control : Command → Text → World S → Option (World S × Bool)
  control Command.user arg w = some (
    reply 331 (codes "Password required")
        (set_session (record w.session { username = trim_space arg }) w),
    false,
  )
  control Command.pass arg w = some (login arg w)
  control Command.auth arg w = some (auth_tls env arg w, false)
  control Command.pbsz arg w = some (pbsz env w, false)
  control Command.prot arg w = some (prot env arg w, false)
  control Command.syst arg w = some (reply 215 (codes "UNIX Type: L8") w, false)
  control Command.feat arg w =
      some (emit (replied_lines 211 (features w.server.cfg.tls) (codes "End")) w, false)
  control Command.clnt arg w = some (client_name env arg w, false)
  control Command.opts arg w = some (reply 200 (codes "OK") w, false)
  control Command.pwd arg w = some (with_auth show_cwd w, false)
  control Command.type arg w = some (set_type env arg w, false)
  control Command.mode arg w = some (reply 200 (codes "OK") w, false)
  control Command.noop arg w = some (reply 200 (codes "OK") w, false)
  control Command.quit arg w = some (reply 221 (codes "Goodbye") w, true)
  control Command.pasv arg w = some (with_auth (enter_passive env false) w, false)
  control Command.epsv arg w = some (with_auth (enter_passive env true) w, false)
  control Command.port arg w = some (with_auth (enter_active env arg) w, false)
  control Command.eprt arg w = some (with_auth (enter_extended_active env arg) w, false)
  control Command.rest arg w = some (with_auth (restart env arg) w, false)
  control Command.unknown arg w = some (reply 502 (codes "Command not implemented") w, false)
  control _ arg w = none
