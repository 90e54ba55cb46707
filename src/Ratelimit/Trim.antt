-- ===== src/Ratelimit/Trim.antt =====
-- What trimming keeps of the table of failures.
use macftpd.Prelude.{◌+◌, ◌≤◌, ◌≡◌, refl, none, some, [], ◌∷◌, arith}
use macftpd.Text.{Text, text_eq}
use macftpd.Dict.{Dict, get}
use macftpd.Clock.{Time}
use macftpd.Ratelimit.{Entry, Limiter, trim_entries, trim_locked}

-- An entry that was seen in the last `window + lockout` is not trimmed.
get-trim_entries :
    (l : Limiter) (now : Time) (key : Text) (m : Dict Text Entry) (e : Entry)
    → get key m ≡ some e
    → now ≤ e.last_seen + (l.window + l.lockout)
    → get key (trim_entries l now m) ≡ some e
unfolding get trim_entries
get-trim_entries l now key [] e h b = ground arith
get-trim_entries l now key ((k, x) ∷ m) e h b = ground (arith, get-trim_entries l now key m e)

pub get-trim_locked :
    (l : Limiter) (now : Time) (key : Text) (e : Entry)
    → get key l.entries ≡ some e
    → now ≤ e.last_seen + (l.window + l.lockout)
    → get key (trim_locked now l).entries ≡ some e
unfolding trim_locked
get-trim_locked l now key e h b = ground (arith, get-trim_entries l now key l.entries e)

-- Trimming leaves the settings alone.
pub limit-trim_locked : (l : Limiter) (now : Time) → (trim_locked now l).limit ≡ l.limit
unfolding trim_locked
limit-trim_locked l now = ground arith

pub window-trim_locked : (l : Limiter) (now : Time) → (trim_locked now l).window ≡ l.window
unfolding trim_locked
window-trim_locked l now = ground arith

pub lockout-trim_locked : (l : Limiter) (now : Time) → (trim_locked now l).lockout ≡ l.lockout
unfolding trim_locked
lockout-trim_locked l now = ground arith

absent-trim_entries :
    (l : Limiter) (now : Time) (key : Text) (m : Dict Text Entry)
    → get key m ≡ none
    → get key (trim_entries l now m) ≡ none
unfolding get trim_entries
absent-trim_entries l now key [] h = refl
absent-trim_entries l now key ((k, x) ∷ m) h = ground (arith, absent-trim_entries l now key m)

pub absent-trim_locked :
    (l : Limiter) (now : Time) (key : Text)
    → get key l.entries ≡ none
    → get key (trim_locked now l).entries ≡ none
unfolding trim_locked
absent-trim_locked l now key h = ground (arith, absent-trim_entries l now key l.entries)
