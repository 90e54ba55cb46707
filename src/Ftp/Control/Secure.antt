-- ===== src/Ftp/Control/Secure.antt =====
-- That a server which asks for TLS logs nobody in on a connection in the clear.
use macftpd.Prelude.{
  ℕ, ◌≡◌, refl, Bool, true, false, ◌&&◌, ◌||◌, not, Option, none, some, [], arith, ◌∙◌, Bool-cases,
  inl, inr,
}
use macftpd.Text.{Text, codes}
use macftpd.Auth.{User, PermissionSet, authenticate}
use macftpd.Auth.Password.{Crypto}
use macftpd.Ratelimit
use macftpd.Status
use macftpd.Ftp.Command.{Command}
use macftpd.Ftp.World.{
  Env, World, close_passive, update_status, log_activity, add_activity, login_limit_key,
}
use macftpd.Ftp.Access.{require_auth, with_auth}
use macftpd.Ftp.Control.{
  auth_tls, pbsz, prot, set_type, client_name, restart, enter_passive, enter_active,
  enter_extended_active,
}
use macftpd.Ftp.Control.Dispatch.{Homes, login, control, logged_in, set_limiter, show_cwd}

abbrev pub guarded : {S : Type 0} → World S → Bool
guarded w =
    not (w.server.cfg.require_tls && w.server.cfg.tls)
    || not w.session.authenticated
    || w.session.secure

module _ {S : Type 0} (env : Env) where
  guarded-update_status :
      (f : Status.Session → Status.Session) (w : World S)
      → guarded (update_status env f w) ≡ guarded w
  unfolding update_status
  guarded-update_status f w = ground arith

  guarded-close_passive : (w : World S) → guarded (close_passive w) ≡ guarded w
  unfolding close_passive
  guarded-close_passive w = ground arith

  guarded-add_activity :
      (action outcome path dest : Text) (bytes : ℕ) (detail : Text) (w : World S)
      → guarded (add_activity env action outcome path dest bytes detail w) ≡ guarded w
  unfolding add_activity
  guarded-add_activity action outcome path dest bytes detail w = refl

  guarded-log_activity :
      (action outcome path dest : Text) (bytes : ℕ) (detail : Text) (w : World S)
      → guarded (log_activity env action outcome path dest bytes detail w) ≡ guarded w
  unfolding log_activity add_activity
  guarded-log_activity action outcome path dest bytes detail w = ground arith

  guarded-auth_tls :
      (arg : Text) (w : World S) → guarded w ≡ true → guarded (auth_tls env arg w) ≡ true
  unfolding auth_tls update_status
  guarded-auth_tls arg w g = ground arith

  guarded-pbsz : (w : World S) → guarded w ≡ true → guarded (pbsz env w) ≡ true
  unfolding pbsz
  guarded-pbsz w g = ground arith

  guarded-prot : (arg : Text) (w : World S) → guarded w ≡ true → guarded (prot env arg w) ≡ true
  unfolding prot
  guarded-prot arg w g = ground arith

  guarded-set_type :
      (arg : Text) (w : World S) → guarded w ≡ true → guarded (set_type env arg w) ≡ true
  unfolding set_type
  guarded-set_type arg w g = ground arith

  guarded-client_name :
      (arg : Text) (w : World S) → guarded w ≡ true → guarded (client_name env arg w) ≡ true
  unfolding client_name
  guarded-client_name arg w g = ground arith

  guarded-restart :
      (arg : Text) (w : World S) → guarded w ≡ true → guarded (restart env arg w) ≡ true
  unfolding restart
  guarded-restart arg w g = ground arith

  guarded-enter_passive :
      (extended : Bool) (w : World S)
      → guarded w ≡ true
      → guarded (enter_passive env extended w) ≡ true
  unfolding enter_passive close_passive
  guarded-enter_passive extended w g = ground arith

  guarded-enter_active :
      (arg : Text) (w : World S) → guarded w ≡ true → guarded (enter_active env arg w) ≡ true
  unfolding enter_active close_passive
  guarded-enter_active arg w g = ground arith

  guarded-enter_extended_active :
      (arg : Text) (w : World S)
      → guarded w ≡ true
      → guarded (enter_extended_active env arg w) ≡ true
  unfolding enter_extended_active close_passive
  guarded-enter_extended_active arg w g = ground arith

  guarded-require_auth : (w : World S) → guarded w ≡ true → guarded (require_auth w).0 ≡ true
  unfolding require_auth
  guarded-require_auth w g = ground arith

  guarded-with_auth :
      (run : World S → World S)
      → ((v : World S) → guarded v ≡ true → guarded (run v) ≡ true)
      → (w : World S) → guarded w ≡ true
      → guarded (with_auth run w) ≡ true
  guarded-with_auth run keeps w g = elim (Bool-cases (require_auth w).1) [
    | inl able ↦ rw able (keeps (require_auth w).0 (guarded-require_auth w g))
    | inr unable ↦ rw unable (guarded-require_auth w g)
  ]

module _ {S : Type 0} (crypto : Crypto) (homes : Homes S) (env : Env) where
  guarded-logged_in :
      (key : Text) (o : Option (User × PermissionSet)) (w : World S)
      → (w.server.cfg.require_tls && w.server.cfg.tls && not w.session.secure) ≡ false
      → guarded w ≡ true
      → guarded (logged_in crypto homes env key o w) ≡ true
  guarded-logged_in key none w t g =
      guarded-log_activity env (codes "login") (codes "failed") [] [] 0
        (codes "bad FTP credentials")
        (set_limiter crypto homes env (Ratelimit.fail env.now key w.server.limiter) w)
      ∙ g
  guarded-logged_in key (some (user, perms)) w t g =
      rw (guarded-log_activity env (codes "login") (codes "ok") _ [] 0 (codes "FTP login") _)
        (rw (guarded-update_status env _ _) (ground arith))

  guarded-login :
      (password : Text) (w : World S)
      → guarded w ≡ true
      → guarded (login crypto homes env password w).0 ≡ true
  unfolding login
  guarded-login password w g =
      let key = login_limit_key env w in
      let asked = set_limiter crypto homes env (Ratelimit.allow env.now key w.server.limiter).0 w in
      elim (Bool-cases (w.server.cfg.require_tls && w.server.cfg.tls && not w.session.secure)) [
        | inl clear ↦ rw clear g
        | inr covered ↦
            rw covered (elim (Bool-cases (Ratelimit.allow env.now key w.server.limiter).1) [
              | inl allowed ↦ rw allowed (
                  guarded-logged_in key
                    (authenticate crypto w.server.db w.session.username password) asked covered g)
              | inr limited ↦ rw limited (
                  guarded-log_activity env (codes "login") (codes "limited") [] [] 0
                    (codes "too many failed FTP login attempts") asked
                  ∙ g)
            ])
      ]

  abbrev pub next_guarded : Option (World S × Bool) → Bool
  next_guarded none = true
  next_guarded (some (w, quits)) = guarded w

  -- On a server that asks for TLS and has it, every session that is logged in is protected by TLS: each
  -- command but those about files keeps this, whatever its argument.
  pub control-guarded :
      (c : Command) (arg : Text) (w : World S)
      → guarded w ≡ true
      → next_guarded (control crypto homes env c arg w) ≡ true
  unfolding control
  control-guarded Command.user arg w g = g
  control-guarded Command.pass arg w g = guarded-login arg w g
  control-guarded Command.auth arg w g = guarded-auth_tls env arg w g
  control-guarded Command.pbsz arg w g = guarded-pbsz env w g
  control-guarded Command.prot arg w g = guarded-prot env arg w g
  control-guarded Command.clnt arg w g = guarded-client_name env arg w g
  control-guarded Command.type arg w g = guarded-set_type env arg w g
  control-guarded Command.pwd arg w g =
      guarded-with_auth env (show_cwd crypto homes env) (λ v h. h) w g
  control-guarded Command.pasv arg w g =
      guarded-with_auth env (enter_passive env false) (guarded-enter_passive env false) w g
  control-guarded Command.epsv arg w g =
      guarded-with_auth env (enter_passive env true) (guarded-enter_passive env true) w g
  control-guarded Command.port arg w g =
      guarded-with_auth env (enter_active env arg) (guarded-enter_active env arg) w g
  control-guarded Command.eprt arg w g =
      guarded-with_auth env (enter_extended_active env arg) (guarded-enter_extended_active env arg)
        w g
  control-guarded Command.rest arg w g =
      guarded-with_auth env (restart env arg) (guarded-restart env arg) w g
  control-guarded c arg w g = ground arith
