-- ===== src/Http/Access/Remembered.antt =====
-- The session after a login.
use macftpd.Prelude.{◌<◌, ◌^◌, ◌≡◌, refl, true, false, Option, none, some, pos, ◌∙◌}
use macftpd.Text.{Text}
use macftpd.Text.Laws.{Lacks}
use macftpd.Clock.{Time, after}
use macftpd.Auth.{User, PermissionSet, permissions_of}
use macftpd.Auth.Password.{Crypto}
use macftpd.Ratelimit
use macftpd.Http.Sessions.{Signer, IsSigner, session_cookie, verify_session, from_unix, expiry}
use macftpd.Http.Sessions.Issued.{verify_session-session_cookie}
use macftpd.Http.Request.{Net, Request, Server, Env, same_origin_unsafe}
use macftpd.Http.Access.{
  Guarded, answered, LoginAnswer, rejected, accepted, caller_of, guarded, authenticate_request,
  require_admin,
}
use macftpd.Http.Access.Admitted.{tested, guarded-tested}

-- what the guard answers to an account that may be there
abbrev pub for_account : Option (User × PermissionSet) → Guarded
for_account none = answered 401
for_account (some (user, perms)) = tested perms.admin user perms

module _ (c : Crypto) (k : Signer) (net : Net) where
  -- an answer that sets a cookie sets the user's
  abbrev Sets : Env → Text → LoginAnswer → Type 0
  Sets env nonce (rejected status) = Unit
  Sets env nonce (accepted username cookie) = cookie ≡ session_cookie k env.now username nonce

  guarded-for_account :
      (env : Env) (q : Request) (s : Server) (found : Option (User × PermissionSet))
      → (guarded c k net env q (s, caller_of c k net env found)).1 ≡ for_account found
  guarded-for_account env q s none = refl
  guarded-for_account env q s (some (user, perms)) = guarded-tested c k net env q s user perms

  recognised :
      (env : Env) (q : Request) (s : Server) (raw name : Text)
      → q.basic ≡ none
      → q.session ≡ some raw
      → verify_session k env.now raw ≡ some name
      → authenticate_request c k net env q s ≡ (s, caller_of c k net env (permissions_of s.db name))
  unfolding authenticate_request
  recognised env q s raw name bare held read = rw (bare, held, read) refl

  -- what the guard answers to a request with the cookie of a session
  pub cookie-require_admin :
      IsSigner k
      → (set : Time) (later : Env) (next : Request) (nonce username : Text) (t : Server)
      → Lacks b'|' username
      → expiry set < 2 ^ 63
      → after later.now (from_unix (pos (expiry set))) ≡ false
      → next.basic ≡ none
      → next.session ≡ some (session_cookie k set username nonce)
      → same_origin_unsafe net next ≡ true
      → (require_admin c k net later next t).1 ≡ for_account (permissions_of t.db username)
  unfolding require_admin
  cookie-require_admin ok set later next nonce username t plain small early bare held same =
      let read : verify_session k later.now (session_cookie k set username nonce) ≡ some username =
        verify_session-session_cookie k ok set later.now username nonce plain small
        ∙ rw early refl in
      rw
        (
          same,
          recognised later next t (session_cookie k set username nonce) username bare held read,
        )
        (guarded-for_account later next t (permissions_of t.db username))
