-- ===== src/Http/Request.antt =====
-- internal/httpapi/server.go: what a handler reads of a request, the state of the server, and the tests of a
-- request that all handlers share. `Net` is what the packages net and net/url say of an address.
use macftpd.Prelude.{
  ℕ, Bool, true, false, ◌&&◌, ◌||◌, not, Option, none, some, List, [], ◌∷◌, ◌++◌, if◌then◌else◌,
  any, ◌==◌,
}
use macftpd.Text.{Text, codes, is_empty, trim_space, to_lower, split, trim, ◌=ₜ◌, equal_fold}
use macftpd.Clock.{Time}
use macftpd.Activity
use macftpd.Activity.Message.{Event}
use macftpd.Auth.{Database}
use macftpd.Auth.Names.{normalize_name}
use macftpd.Ratelimit.{Limiter}
use macftpd.Share

pub record Net : Type 0 where
  -- the host of `net.SplitHostPort`
  pub split_host : Text → Option Text
  -- `net.ParseIP` gives an address, and it is a loopback address
  pub is_loopback_ip : Text → Bool
  -- the host of `url.Parse`
  pub url_host : Text → Option Text

pub record Request : Type 0 where
  pub meth : Text
  pub path : Text
  pub host : Text
  pub remote_addr : Text
  pub cf_connecting_ip : Text
  pub forwarded_for : Text
  pub forwarded_host : Text
  pub public_host : Text
  pub fetch_site : Text
  pub origin : Text
  pub referer : Text
  pub basic : Option (Text × Text)
  pub session : Option Text

-- The parts of the server that requests change, and the user database that they read.
pub record Server : Type 0 where
  pub db : Database
  pub limiter : Limiter
  pub share_limit : Limiter
  pub activity : Activity.Store
  pub links : Share.Store

-- The clock, and whether an event is written to the log's file.
pub record Env : Type 0 where
  pub now : Time
  pub log_written : Bool

abbrev is_bracket : ℕ → Bool
is_bracket c = c == b'[' || c == b']'

abbrev pub host_or : Option Text → Text → Text
host_or none addr = addr
host_or (some host) addr = if is_empty host then addr else host

abbrev pub split_or : Option Text → Text → Text
split_or none addr = addr
split_or (some host) addr = host

abbrev pub first_of : List Text → Text
first_of [] = []
first_of (s ∷ parts) = s

abbrev pub is_method : Request → Text → Bool
is_method q name = q.meth =ₜ name

module _ (net : Net) where
  -- `isLoopbackRemote`
  unfoldable pub is_loopback_remote : Text → Bool
  is_loopback_remote remote =
      net.is_loopback_ip (trim is_bracket (split_or (net.split_host remote) remote))

  -- `remoteAddr`
  unfoldable pub remote_of : Request → Text
  remote_of q =
      let cf = trim_space q.cf_connecting_ip in
      let xff = trim_space q.forwarded_for in
      if not (is_empty cf)
      then cf
      else if not (is_empty xff)
      then trim_space (first_of (split b',' xff))
      else host_or (net.split_host q.remote_addr) q.remote_addr

  -- `clientAddrForLimit`
  unfoldable pub client_addr_for_limit : Request → Text
  client_addr_for_limit q =
      let host = host_or (net.split_host q.remote_addr) q.remote_addr in
      let forwarded = remote_of q in
      if is_loopback_remote host && not (is_empty forwarded) then forwarded else host

  -- `loginLimitKey`
  unfoldable pub login_limit_key : Request → Text → Text
  login_limit_key q username = client_addr_for_limit q ++ b'|' ∷ normalize_name username

  -- `requestHosts`
  unfoldable pub request_hosts : Request → List Text
  request_hosts q =
      let forwarded = trim_space q.forwarded_host in
      let public = trim_space q.public_host in
      q.host ∷ (if is_empty forwarded then [] else forwarded ∷ [])
      ++ (if is_empty public then [] else public ∷ [])

  abbrev pub origin_matches : Option Text → Request → Bool
  origin_matches none q = false
  origin_matches (some host) q = any (λ h. equal_fold host h) (request_hosts q)

  -- `sameOriginUnsafe`
  unfoldable pub same_origin_unsafe : Request → Bool
  same_origin_unsafe q =
      let fetch_site = to_lower (trim_space q.fetch_site) in
      if is_method q (codes "GET") || is_method q (codes "HEAD") || is_method q (codes "OPTIONS")
      then true
      else if fetch_site =ₜ codes "cross-site"
      then false
      else if is_empty q.origin
      then true
      else if q.origin =ₜ codes "null"
      then fetch_site =ₜ codes "same-origin" || fetch_site =ₜ codes "same-site"
      else origin_matches (net.url_host q.origin) q

  -- `logActivity`, of an event of the HTTP server
  unfoldable pub log_activity :
      Env → Request → Text → Text → Text → Text → Text → Text → Server → Server
  log_activity env q type actor action outcome path detail s =
      let event : Event = record {
        id = 0;
        time = 0;
        type = type;
        protocol = codes "http";
        actor = if is_empty actor then codes "admin" else actor;
        remote = remote_of q;
        referrer = [];
        action = action;
        outcome = outcome;
        path = path;
        dest_path = [];
        bytes = 0;
        detail = detail;
        message = [];
      } in
      record s { activity = (Activity.add env.log_written env.now event s.activity).0 }
