-- ===== src/Ftp/Control/Login.antt =====
-- When a password logs a session in.
use macftpd.Prelude.{
  ℕ, ◌≡◌, Bool, true, false, ◌&&◌, not, Option, none, some, [], arith, ◌∙◌, Bool-cases, inl, inr,
}
use macftpd.Text.{Text, codes}
use macftpd.Auth.{User, PermissionSet, authenticate}
use macftpd.Auth.Password.{Crypto}
use macftpd.Ratelimit
use macftpd.Status
use macftpd.Ftp.World.{Env, World, update_status, log_activity, add_activity, login_limit_key}
use macftpd.Ftp.Control.Dispatch.{Homes, login, logged_in, set_limiter}

abbrev pub is_found : Option (User × PermissionSet) → Bool
is_found none = false
is_found (some account) = true

abbrev authenticated : {S : Type 0} → World S → Bool
authenticated w = w.session.authenticated

module _ {S : Type 0} (crypto : Crypto) (homes : Homes S) (env : Env) where
  authenticated-update_status :
      (f : Status.Session → Status.Session) (w : World S)
      → authenticated (update_status env f w) ≡ authenticated w
  unfolding update_status
  authenticated-update_status f w = ground arith

  authenticated-log_activity :
      (action outcome path dest : Text) (bytes : ℕ) (detail : Text) (w : World S)
      → authenticated (log_activity env action outcome path dest bytes detail w) ≡ authenticated w
  unfolding log_activity add_activity
  authenticated-log_activity action outcome path dest bytes detail w = ground arith

  authenticated-logged_in :
      (key : Text) (o : Option (User × PermissionSet)) (w : World S)
      → authenticated w ≡ false
      → authenticated (logged_in crypto homes env key o w) ≡ is_found o
  authenticated-logged_in key none w before =
      authenticated-log_activity (codes "login") (codes "failed") [] [] 0
        (codes "bad FTP credentials")
        (set_limiter crypto homes env (Ratelimit.fail env.now key w.server.limiter) w)
      ∙ before
  authenticated-logged_in key (some (user, perms)) w before =
      rw (authenticated-log_activity (codes "login") (codes "ok") _ [] 0 (codes "FTP login") _)
        (rw (authenticated-update_status _ _) (ground arith))

  -- `PASS` logs a session in that was not exactly if the connection is protected where the server asks for
  -- it, the limiter lets the attempt through, and the name and the password are those of an account.
  pub login_exact :
      (password : Text) (w : World S)
      → w.session.authenticated ≡ false
      → (login crypto homes env password w).0.session.authenticated ≡ (
          not (w.server.cfg.require_tls && w.server.cfg.tls && not w.session.secure)
          && (Ratelimit.allow env.now (login_limit_key env w) w.server.limiter).1
          && is_found (authenticate crypto w.server.db w.session.username password))
  unfolding login
  login_exact password w before =
      let key = login_limit_key env w in
      let asked = set_limiter crypto homes env (Ratelimit.allow env.now key w.server.limiter).0 w in
      elim (Bool-cases (w.server.cfg.require_tls && w.server.cfg.tls && not w.session.secure)) [
        | inl clear ↦ rw clear before
        | inr covered ↦
            rw covered (elim (Bool-cases (Ratelimit.allow env.now key w.server.limiter).1) [
              | inl allowed ↦ rw allowed (
                  authenticated-logged_in key
                    (authenticate crypto w.server.db w.session.username password) asked before)
              | inr limited ↦ rw limited (
                  authenticated-log_activity (codes "login") (codes "limited") [] [] 0
                    (codes "too many failed FTP login attempts") asked
                  ∙ before)
            ])
      ]
