-- ===== src/Http/Access/Admitted.antt =====
-- Who gets past the guard of the administration.
use macftpd.Prelude.{
  ◌≡◌, refl, Bool, true, false, not, Option, none, some, [], ◌⊎◌, inl, inr, if◌then◌else◌,
  Bool-cases, Option-cases, ◌∙◌, sym, ap, subst,
}
use macftpd.Text.{Text, codes}
use macftpd.Auth.{User, PermissionSet, authenticate, permissions_of}
use macftpd.Auth.Password.{Crypto}
use macftpd.Ratelimit
use macftpd.Ratelimit.{Limiter}
use macftpd.Http.Sessions.{Signer, verify_session}
use macftpd.Http.Request.{
  Net, Request, Server, Env, login_limit_key, same_origin_unsafe, log_activity,
}
use macftpd.Http.Access.{
  Caller, unknown, limited, known, Guarded, answered, handed_on, guarded, caller_of, basic_checked,
  session_account, session_caller, caller_by, require_admin,
}

-- the guard's answer to an account
abbrev pub tested : Bool → User → PermissionSet → Guarded
tested admin user perms = if admin then handed_on user perms else answered 401

module _ (c : Crypto) (k : Signer) (net : Net) (env : Env) where
  -- how a request shows that it comes from an account
  abbrev pub Shows : Request → Server → User → PermissionSet → Type 0
  Shows q s user perms =
      ((username : Text) × (password : Text) × (q.basic ≡ some (username, password))
        × (authenticate c s.db username password ≡ some (user, perms))
        × ((Ratelimit.allow env.now (login_limit_key net q username) s.limiter).1 ≡ true))
      ⊎ ((raw : Text) × (name : Text) × (q.basic ≡ none)
          × (q.session ≡ some raw)
          × (verify_session k env.now raw ≡ some name)
          × (permissions_of s.db name ≡ some (user, perms)))

  abbrev account_of : Caller → Option (User × PermissionSet)
  account_of (known user perms) = some (user, perms)
  account_of unknown = none
  account_of limited = none

  caller_of_exact :
      (o : Option (User × PermissionSet)) (user : User) (perms : PermissionSet)
      → caller_of c k net env o ≡ known user perms
      → o ≡ some (user, perms)
  caller_of_exact none user perms h = cc
  caller_of_exact (some (u, p)) user perms h = ap account_of h

  basic_known :
      (q : Request) (username password : Text) (s : Server) (user : User) (perms : PermissionSet)
      (x : Limiter × Bool)
      → (basic_checked c k net env q username password x s).1 ≡ known user perms
      → (authenticate c s.db username password ≡ some (user, perms)) × (x.1 ≡ true)
  basic_known q username password s user perms (l, false) h = cc
  basic_known q username password s user perms (l, true) h =
      (caller_of_exact (authenticate c s.db username password) user perms h, refl)

  session_known :
      (cookie : Option Text) (s : Server) (user : User) (perms : PermissionSet)
      → session_caller c k net env cookie s ≡ known user perms
      → (raw : Text) × (name : Text) × (cookie ≡ some raw)
        × (verify_session k env.now raw ≡ some name)
        × (permissions_of s.db name ≡ some (user, perms))
  session_known none s user perms h = cc
  session_known (some raw) s user perms h = elim (Option-cases (verify_session k env.now raw)) [
    | inl e ↦
        absurd (let bad = subst (λ o. session_account c k net env o s ≡ known user perms) e h in cc)
    | inr (name, e) ↦ (
      raw,
      name,
      refl,
      e,
      caller_of_exact (permissions_of s.db name) user perms
          (subst (λ o. session_account c k net env o s ≡ known user perms) e h),
    )
  ]

  caller_Shows :
      (q : Request) (s : Server) (user : User) (perms : PermissionSet)
      (basic : Option (Text × Text))
      → q.basic ≡ basic
      → (caller_by c k net env q basic s).1 ≡ known user perms
      → Shows q s user perms
  caller_Shows q s user perms (some (username, password)) e h =
      let (good, free) =
        basic_known q username password s user perms
          (Ratelimit.allow env.now (login_limit_key net q username) s.limiter) h in
      inl (username, password, e, good, free)
  caller_Shows q s user perms none e h =
      let (raw, name, held, signed, there) = session_known q.session s user perms h in
      inr (raw, name, e, held, signed, there)

  abbrev judged : Bool → Request → Server → Server × Guarded
  judged same q s =
      if not same
      then (
        log_activity net env q (codes "http_security") [] (codes "request") (codes "denied") q.path
            (codes "cross-origin admin request denied") s,
        answered 403,
      )
      else guarded c k net env q (caller_by c k net env q q.basic s)

  abbrev taken : Guarded → Caller
  taken (handed_on user perms) = known user perms
  taken (answered status) = unknown

  tested_known :
      (u user : User) (p perms : PermissionSet)
      → tested p.admin u p ≡ handed_on user perms
      → (known u p ≡ known user perms) × (perms.admin ≡ true)
  tested_known u user p perms h = elim (Bool-cases p.admin) [
    | inr e ↦ absurd (let bad = subst (λ b. tested b u p ≡ handed_on user perms) e h in cc)
    | inl e ↦
        let same : known u p ≡ known user perms =
          ap taken (subst (λ b. tested b u p ≡ handed_on user perms) e h) in
        (same, ap admin_of (sym same) ∙ e)
  ]
    where
      admin_of : Caller → Bool
      admin_of (known u p) = p.admin
      admin_of unknown = false
      admin_of limited = false

  pub guarded-tested :
      (q : Request) (s : Server) (u : User) (p : PermissionSet)
      → (guarded c k net env q (s, known u p)).1 ≡ tested p.admin u p
  guarded-tested q s u p = elim (Bool-cases p.admin) [ inl e ↦ rw e refl | inr e ↦ rw e refl ]

  guarded_known :
      (q : Request) (x : Server × Caller) (user : User) (perms : PermissionSet)
      → (guarded c k net env q x).1 ≡ handed_on user perms
      → (x.1 ≡ known user perms) × (perms.admin ≡ true)
  guarded_known q (s, limited) user perms h = cc
  guarded_known q (s, unknown) user perms h = cc
  guarded_known q (s, known u p) user perms h =
      tested_known u user p perms (sym (guarded-tested q s u p) ∙ h)

  -- A request reaches a handler of the administration only if it is no unsafe request from another site, and
  -- shows that it comes from an account with the permission of an administrator: by a password that the
  -- account accepts, while the limiter lets the caller try, or by a cookie that the server signed, that has
  -- not run out, for a user who still has an account that is not disabled.
  pub require_admin-handed_on :
      (q : Request) (s : Server) (user : User) (perms : PermissionSet)
      → (require_admin c k net env q s).1 ≡ handed_on user perms
      → (same_origin_unsafe net q ≡ true) × (perms.admin ≡ true) × Shows q s user perms
  unfolding require_admin
  require_admin-handed_on q s user perms h = elim (Bool-cases (same_origin_unsafe net q)) [
    | inr e ↦ absurd (let bad = subst (λ b. (judged b q s).1 ≡ handed_on user perms) e h in cc)
    | inl e ↦
        let (who, admin) =
          guarded_known q (caller_by c k net env q q.basic s) user perms
            (subst (λ b. (judged b q s).1 ≡ handed_on user perms) e h) in
        (e, admin, caller_Shows q s user perms q.basic refl who)
  ]
