-- ===== src/Http/Tests.antt =====
-- An administrator's requests, a cookie of a link and an upload, and the theorems at concrete inputs.
use macftpd.Prelude.{
  Option, ◌+◌, ◌-◌, ◌≡◌, refl, true, false, none, some, List, [], ◌∷◌, pos, arith, ap, ◌∙◌, ◌++◌,
}
use macftpd.Text.{Text, codes, ◌=ₜ◌}
use macftpd.Text.Laws.{Lacks}
use macftpd.Auth.{admin_permissions}
use macftpd.Auth.Toy.{toy}
use macftpd.Auth.Tests.{vault, secret, ann, keeper, ann_permitted}
use macftpd.Activity
use macftpd.Ratelimit
use macftpd.Ftp.Ports.{parse_int}
use macftpd.Ftp.Ports.Numbers.{parse_int-print_nat}
use macftpd.Share.Tokens.{Digest}
use macftpd.Share.Tests.{toy_digest, store}
use macftpd.Storage.Os.{Info}
use macftpd.Http.Served.{FileServeResult}
use macftpd.Http.Links.{share_link}
use macftpd.Http.Links.Protected.{OnlyIf, MayHaveParts, MayEnterParts, asked_for, share_link-OnlyIf}
use macftpd.Storage.Toy.{Tree}
use macftpd.Storage.DiskTests.{disk_root, no_glob}
use macftpd.Http.Upload.{Copying}
use macftpd.Http.Sessions.{Signer, IsSigner, session_cookie, verify_session, share_cookie}
use macftpd.Http.Sessions.Issued.{share_cookie-is_session}
use macftpd.Http.Request.{Net, Request, Server, Env, same_origin_unsafe}
use macftpd.Http.Access.{require_admin, handed_on}
use macftpd.Http.Access.Admitted.{Shows, require_admin-handed_on}
use macftpd.Http.Access.Remembered.{for_account, cookie-require_admin}

-- a signature that is nothing, and an encoding that moves each byte behind the bar
unfoldable raised : Text → Text
raised [] = []
raised (x ∷ s) = (x + 125) ∷ raised s

unfoldable lowered : Text → Text
lowered [] = []
lowered (x ∷ s) = (x - 125) ∷ lowered s

lowered-raised : (s : Text) → lowered (raised s) ≡ s
unfolding lowered raised
lowered-raised [] = refl
lowered-raised (x ∷ s) = rw (lowered-raised s) (ap (λ y. y ∷ s) (omega arith))

raised-Lacks : (s : Text) → Lacks b'|' (raised s)
unfolding raised
raised-Lacks [] = tt
raised-Lacks (x ∷ s) = (λ e. ground arith, raised-Lacks s)

abbrev blank : Signer
blank = record { sign = λ s. []; encode = raised; decode = λ s. some (lowered s); scan = parse_int }

blank-IsSigner : IsSigner blank
blank-IsSigner = record {
  decode_encode = λ s. ap (λ t. some t) (lowered-raised s);
  plain_encode = raised-Lacks;
  plain_sign = λ s. tt;
  scan_print = parse_int-print_nat;
}

ann-Lacks : Lacks b'|' ann
unfolding codes
ann-Lacks = ground arith

secret-Lacks : Lacks b'|' secret
unfolding codes
secret-Lacks = ground arith

share_cookie-is_session_example :
    (payload : Text) × (mac : Text) × (share_cookie blank 1 ann secret
      ≡ blank.encode (payload ++ b'|' ∷ mac))
    × (verify_session blank 1 (blank.encode ((payload ++ b'|' ∷ secret) ++ b'|' ∷ mac)) ≡ some ann)
share_cookie-is_session_example =
    share_cookie-is_session blank blank-IsSigner 1 1 ann secret ann-Lacks secret-Lacks (omega arith)
      refl

abbrev plain_net : Net
plain_net = record {
  split_host = λ addr. none;
  is_loopback_ip = λ ip. false;
  url_host = λ origin. none;
}

abbrev early : Env
early = record { now = 1; log_written = true }

abbrev posting : Request
posting = record {
  meth = codes "POST";
  path = codes "/api/login";
  host = codes "files";
  remote_addr = codes "10.0.0.9";
  cf_connecting_ip = [];
  forwarded_for = [];
  forwarded_host = [];
  public_host = [];
  fetch_site = [];
  origin = [];
  referer = [];
  basic = none;
  session = none;
}

abbrev asking : Request
asking = record posting { meth = codes "GET"; session = some (session_cookie blank 1 ann []) }

abbrev office : Server
office = record {
  db = vault;
  limiter = Ratelimit.new (pos 0) (pos 0) (pos 0);
  share_limit = Ratelimit.new (pos 0) (pos 0) (pos 0);
  activity = Activity.new (pos 0);
  links = record { links = []; active = [] };
}

asking-safe : same_origin_unsafe plain_net asking ≡ true
unfolding same_origin_unsafe codes ◌=ₜ◌
asking-safe = refl

asking-handed_on :
    (require_admin toy blank plain_net early asking office).1 ≡ handed_on keeper admin_permissions
asking-handed_on =
    cookie-require_admin toy blank plain_net blank-IsSigner 1 early asking [] ann office ann-Lacks
      (omega arith) refl refl refl asking-safe
    ∙ ap for_account ann_permitted

require_admin-handed_on_example :
    (same_origin_unsafe plain_net asking ≡ true)
    × (admin_permissions.admin ≡ true)
    × Shows toy blank plain_net early asking office keeper admin_permissions
require_admin-handed_on_example =
    require_admin-handed_on toy blank plain_net early asking office keeper admin_permissions
      asking-handed_on

abbrev plain_digest : Digest
plain_digest = record { sha256 = λ s. s; encode = λ s. s }

abbrev smooth : Copying
smooth = record { stops = none; keeps_excess = false }

-- five bytes in two chunks
abbrev two_chunks : List (Text × (Tree → Tree))
two_chunks = (codes "he", λ t. t) ∷ (codes "llo", λ t. t) ∷ []

-- a download of a file of five bytes by its link, which has no password
abbrev fetching : Request
fetching = record asking { path = codes "/s/k/t"; session = none }

abbrev sharing : Server
sharing = record office { links = store }

abbrev a_file : Text → Option Info
a_file real = some (record { is_dir = false; size = 5; mode = []; mod_time = 0 })

abbrev sent_whole : FileServeResult
sent_whole = record {
  status = 200;
  bytes = 5;
  size = 5;
  meth = codes "GET";
  err = none;
  range = [];
}

share_link-OnlyIf_example :
    OnlyIf
      (MayHaveParts toy toy_digest blank plain_net no_glob disk_root a_file sent_whole true early
        none store
        (asked_for toy toy_digest blank plain_net no_glob disk_root a_file sent_whole true early
          fetching))
      (MayEnterParts toy toy_digest blank plain_net no_glob disk_root a_file sent_whole true early
        none [] store
        (asked_for toy toy_digest blank plain_net no_glob disk_root a_file sent_whole true early
          fetching))
      (share_link toy toy_digest blank plain_net no_glob disk_root a_file sent_whole true early
        fetching none [] sharing).1
share_link-OnlyIf_example =
    share_link-OnlyIf toy toy_digest blank plain_net no_glob disk_root a_file sent_whole true early
      fetching none [] sharing
