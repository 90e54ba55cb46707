-- ===== src/Status.antt =====
-- internal/status/status.go: the tracker of live sessions. Each method runs under the tracker's mutex.
-- Identifiers are natural numbers: the source's int64 counter is taken not to overflow.
pub mod Sessions
pub mod Tests
use macftpd.Prelude.{ℕ, ◌+◌, Bool, false, Option, none, some, List, [], ◌∷◌, map, nat_eq, ltb}
use macftpd.Text.{Text}
use macftpd.Dict.{Dict, get, put, del}
use macftpd.Clock.{Time}
use macftpd.Sort.{sort}

pub record Session : Type 0 where
  pub id : ℕ
  pub protocol : Text
  pub user : Text
  pub remote : Text
  pub started_at : Time
  pub updated_at : Time
  pub secure : Bool
  pub mode : Text
  pub action : Text
  pub path : Text
  pub bytes : ℕ

pub record Tracker : Type 0 where
  pub next_id : ℕ
  pub sessions : Dict ℕ Session

abbrev pub new : Tracker
new = record { next_id = 0; sessions = [] }

unfoldable pub add : Time → Text → Text → Tracker → Tracker × ℕ
add now protocol remote t =
    let id = t.next_id + 1 in
    let session : Session = record {
      id = id;
      protocol = protocol;
      user = [];
      remote = remote;
      started_at = now;
      updated_at = now;
      secure = false;
      mode = [];
      action = [];
      path = [];
      bytes = 0;
    } in
    (record { next_id = id; sessions = put id session t.sessions }, id)

abbrev update_found : Time → ℕ → (Session → Session) → Tracker → Option Session → Tracker
update_found now id mutate t none = t
update_found now id mutate t (some s) = record t {
  sessions = put id (record (mutate s) { updated_at = now }) t.sessions;
}

unfoldable pub update : Time → ℕ → (Session → Session) → Tracker → Tracker
update now id mutate t = update_found now id mutate t (get id t.sessions)

unfoldable pub remove : ℕ → Tracker → Tracker
remove id t = record t { sessions = del id t.sessions }

abbrev pub values : Dict ℕ Session → List Session
values [] = []
values ((k, s) ∷ m) = s ∷ values m

unfoldable pub snapshot : Tracker → List Session
snapshot t = sort (λ (a : Session) (b : Session). ltb a.started_at b.started_at) (values t.sessions)
