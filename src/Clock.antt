-- ===== src/Clock.antt =====
-- Go's `time.Time` and `time.Duration` as the program uses them: a time is the number of nanoseconds
-- since the zero time, so `IsZero` is the test for 0, and a duration is a number of nanoseconds.
use macftpd.Prelude.{ℕ, ◌-◌, ◌*◌, ◌^◌, Bool, ltb, ◌==◌, min}

abbrev pub Time : Type 0
Time = ℕ

abbrev pub Duration : Type 0
Duration = ℕ

-- The largest `time.Duration`, at which `Sub` saturates.
abbrev pub max_duration : Duration
max_duration = 2 ^ 63 - 1

-- `now.Sub(t)`. Where `t` is later the difference is negative in Go and 0 here: the program only
-- compares it with durations that are not negative, which gives the same answer.
abbrev pub sub : Time → Time → Duration
sub now t = min (now - t) max_duration

-- `now.After(t)`
abbrev pub after : Time → Time → Bool
after now t = ltb t now

-- `t.IsZero()`
abbrev pub is_zero : Time → Bool
is_zero t = t == 0

abbrev pub second : Duration
second = 1000000000

abbrev pub minute : Duration
minute = 60 * second

abbrev pub hour : Duration
hour = 60 * minute
