-- ===== src/Http/Access.antt =====
-- internal/httpapi/server.go: `login`, `authenticateRequest` and `requireAdmin`. The body of a login that is no
-- JSON is `none`; `turnstile` is why
-- the service that tells people from programs turns a login down, if it does.
pub mod Admitted
pub mod Remembered
use macftpd.Prelude.{
  ℕ, ◌≡◌, Bool, true, false, ◌&&◌, ◌||◌, not, Option, none, some, List, [], ◌∷◌, ◌++◌,
  if◌then◌else◌,
}
use macftpd.Text.{Text, codes}
use macftpd.Clock.{Time}
use macftpd.Auth.{User, PermissionSet, authenticate, permissions_of}
use macftpd.Auth.Names.{normalize_name}
use macftpd.Auth.Password.{Crypto}
use macftpd.Ratelimit
use macftpd.Ratelimit.{Limiter}
use macftpd.Http.Sessions.{Signer, session_cookie, verify_session}
use macftpd.Http.Request.{
  Net, Request, Server, Env, is_method, login_limit_key, same_origin_unsafe, log_activity,
}

-- The answer of `login`: a status, and the cookie that is set.
pub data LoginAnswer : Type 0 where
  rejected : ℕ → LoginAnswer
  accepted : Text → Text → LoginAnswer

-- What `authenticateRequest` finds: nobody, a limited caller, or an account with its permissions.
pub data Caller : Type 0 where
  unknown limited : Caller
  known : User → PermissionSet → Caller

-- What `requireAdmin` does with a request: it answers with a status, or hands it on.
pub data Guarded : Type 0 where
  answered : ℕ → Guarded
  handed_on : User → PermissionSet → Guarded

module _ (c : Crypto) (k : Signer) (net : Net) (env : Env) where
  abbrev pub set_limiter : Limiter → Server → Server
  set_limiter l s = record s { limiter = l }

  -- a credential that is no administrator's counts as a failure
  abbrev pub count_login : Text → Option (User × PermissionSet) → Server → Server
  count_login key none s = set_limiter (Ratelimit.fail env.now key s.limiter) s
  count_login key (some (user, perms)) s =
      if perms.admin
      then set_limiter (Ratelimit.reset key s.limiter) s
      else set_limiter (Ratelimit.fail env.now key s.limiter) s

  abbrev pub noted : Request → Text → Text → Text → Server → Server
  noted q actor outcome detail s =
      log_activity net env q (codes "http_login") actor (codes "login") outcome [] detail s

  abbrev pub bad_credentials : Request → Text → Server → Server × LoginAnswer
  bad_credentials q username s = (
    noted q (normalize_name username) (codes "failed") (codes "bad admin credentials") s,
    rejected 401,
  )

  abbrev pub logged_in :
      Request → Text → Text → Option (User × PermissionSet) → Server → Server × LoginAnswer
  logged_in q username nonce none s = bad_credentials q username s
  logged_in q username nonce (some (user, perms)) s =
      if perms.admin
      then (
        noted q user.username (codes "ok") (codes "admin login") s,
        accepted user.username (session_cookie k env.now user.username nonce),
      )
      else bad_credentials q username s

  abbrev pub login_checked :
      Request → Text → Text → Text → Limiter × Bool → Server → Server × LoginAnswer
  login_checked q username password nonce (l, false) s = (
    noted q (normalize_name username) (codes "limited")
        (codes "too many failed admin login attempts") (set_limiter l s),
    rejected 429,
  )
  login_checked q username password nonce (l, true) s =
      let found = authenticate c s.db username password in
      logged_in q username nonce found
        (count_login (login_limit_key net q username) found (set_limiter l s))

  abbrev pub login_read :
      Request → Option (Text × Text) → Option Text → Text → Server → Server × LoginAnswer
  login_read q none turnstile nonce s = (s, rejected 400)
  login_read q (some (username, password)) (some detail) nonce s =
      (noted q (normalize_name username) (codes "denied") detail s, rejected 403)
  login_read q (some (username, password)) none nonce s =
      login_checked q username password nonce
        (Ratelimit.allow env.now (login_limit_key net q username) s.limiter) s

  -- `login`
  unfoldable pub login :
      Request → Option (Text × Text) → Option Text → Text → Server → Server × LoginAnswer
  login q body turnstile nonce s =
      if not (is_method q (codes "POST"))
      then (s, rejected 405)
      else if not (same_origin_unsafe net q)
      then (s, rejected 403)
      else login_read q body turnstile nonce s

  abbrev pub caller_of : Option (User × PermissionSet) → Caller
  caller_of none = unknown
  caller_of (some (user, perms)) = known user perms

  abbrev pub basic_checked : Request → Text → Text → Limiter × Bool → Server → Server × Caller
  basic_checked q username password (l, false) s = (set_limiter l s, limited)
  basic_checked q username password (l, true) s =
      let found = authenticate c s.db username password in
      (count_login (login_limit_key net q username) found (set_limiter l s), caller_of found)

  abbrev pub session_account : Option Text → Server → Caller
  session_account none s = unknown
  session_account (some username) s = caller_of (permissions_of s.db username)

  abbrev pub session_caller : Option Text → Server → Caller
  session_caller none s = unknown
  session_caller (some raw) s = session_account (verify_session k env.now raw) s

  abbrev pub caller_by : Request → Option (Text × Text) → Server → Server × Caller
  caller_by q (some (username, password)) s =
      basic_checked q username password
        (Ratelimit.allow env.now (login_limit_key net q username) s.limiter) s
  caller_by q none s = (s, session_caller q.session s)

  -- `authenticateRequest`
  unfoldable pub authenticate_request : Request → Server → Server × Caller
  authenticate_request q s = caller_by q q.basic s

  abbrev pub refused : Request → Text → Text → Server → Server
  refused q outcome detail s =
      log_activity net env q (codes "http_login") [] (codes "login") outcome q.path detail s

  abbrev pub guarded : Request → Server × Caller → Server × Guarded
  guarded q (s, limited) =
      (refused q (codes "limited") (codes "admin auth rate-limited") s, answered 429)
  guarded q (s, unknown) = (refused q (codes "failed") (codes "admin auth failed") s, answered 401)
  guarded q (s, known user perms) =
      if perms.admin
      then (s, handed_on user perms)
      else (refused q (codes "failed") (codes "admin auth failed") s, answered 401)

  -- `requireAdmin`: what comes before the handler
  unfoldable pub require_admin : Request → Server → Server × Guarded
  unfolding authenticate_request
  require_admin q s =
      if not (same_origin_unsafe net q)
      then (
        log_activity net env q (codes "http_security") [] (codes "request") (codes "denied") q.path
            (codes "cross-origin admin request denied") s,
        answered 403,
      )
      else guarded q (authenticate_request q s)
