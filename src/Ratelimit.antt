-- ===== src/Ratelimit.antt =====
-- internal/ratelimit/ratelimit.go: the limiter of failed logins. Each method takes the time that it
-- reads from the clock, and runs under the limiter's mutex, so a call is one step.
mod Trim
pub mod Lockout
pub mod Threshold
pub mod Tests
use macftpd.Prelude.{
  ℕ, ◌+◌, ◌*◌, Bool, true, false, ◌||◌, Option, none, some, List, [], ◌∷◌, ltb, leb, if◌then◌else◌,
  ℤ, positive_or,
}
use macftpd.Text.{Text, text_eq}
use macftpd.Dict.{Dict, get, put, del}
use macftpd.Clock.{Time, Duration, sub, after, is_zero, minute}

pub record Entry : Type 0 where
  pub failures : ℕ
  pub first_failed : Time
  pub locked_until : Time
  pub last_seen : Time

pub record Limiter : Type 0 where
  pub entries : Dict Text Entry
  pub limit : ℕ
  pub window : Duration
  pub lockout : Duration
  pub last_trim : Time

abbrev pub zero_entry : Entry
zero_entry = record { failures = 0; first_failed = 0; locked_until = 0; last_seen = 0 }

abbrev pub new : ℤ → ℤ → ℤ → Limiter
new limit window lockout = record {
  entries = [];
  limit = positive_or limit 5;
  window = positive_or window (10 * minute);
  lockout = positive_or lockout (5 * minute);
  last_trim = 0;
}

-- `l.entries[key]`, the zero entry where there is none
abbrev pub entry_or_zero : Option Entry → Entry
entry_or_zero none = zero_entry
entry_or_zero (some e) = e

abbrev is_stale : Limiter → Time → Entry → Bool
is_stale l now e = ltb (l.window + l.lockout) (sub now e.last_seen)

-- the loop of `trimLocked`
unfoldable pub trim_entries : Limiter → Time → Dict Text Entry → Dict Text Entry
trim_entries l now [] = []
trim_entries l now ((k, e) ∷ m) =
    let rest = trim_entries l now m in if is_stale l now e then rest else (k, e) ∷ rest

unfoldable pub trim_locked : Time → Limiter → Limiter
unfolding trim_entries
trim_locked now l =
    if ltb (sub now l.last_trim) minute
    then l
    else record l { entries = trim_entries l now l.entries; last_trim = now }

abbrev allow_entry : Time → Text → Limiter → Entry → Limiter × Bool
allow_entry now key l e =
    if after now e.locked_until
    then (l, true)
    else (record l { entries = put key (record e { last_seen = now }) l.entries }, false)

unfoldable pub allow : Time → Text → Limiter → Limiter × Bool
allow now key l =
    let t = trim_locked now l in allow_entry now key t (entry_or_zero (get key t.entries))

-- the entry that a failure counts on: a new one if the window of the old one is over
abbrev pub counted_entry : Limiter → Time → Entry → Entry
counted_entry l now e =
    if is_zero e.first_failed || ltb l.window (sub now e.first_failed)
    then record zero_entry { first_failed = now }
    else e

-- one more failure, which locks the key from the limit on
abbrev pub bump_entry : Limiter → Time → Entry → Entry
bump_entry l now e = record {
  failures = e.failures + 1;
  first_failed = e.first_failed;
  locked_until = if leb l.limit (e.failures + 1) then now + l.lockout else e.locked_until;
  last_seen = now;
}

abbrev pub fail_entry : Limiter → Time → Entry → Entry
fail_entry l now e = bump_entry l now (counted_entry l now e)

unfoldable pub fail : Time → Text → Limiter → Limiter
fail now key l =
    let t = trim_locked now l in
    record t { entries = put key (fail_entry t now (entry_or_zero (get key t.entries))) t.entries }

unfoldable pub reset : Text → Limiter → Limiter
reset key l = record l { entries = del key l.entries }
