-- ===== src/Ratelimit/Threshold.antt =====
-- How many failures lock a key.
use macftpd.Prelude.{
  ℕ, ◌+◌, ◌≤◌, ◌<◌, ◌≡◌, refl, some, none, List, [], ◌∷◌, map, arith, ltb, All, length, suc, ◌∙◌,
  subst,
}
use native.Mathlib.Nat.{add-zero}
use macftpd.Text.{Text, text_eq}
use macftpd.Dict.{get}
use macftpd.Clock.{Time}
use macftpd.Ratelimit.{Entry, Limiter, trim_locked, allow, fail, fail_entry, zero_entry}
use macftpd.Ratelimit.Trim.{
  get-trim_locked, absent-trim_locked, limit-trim_locked, window-trim_locked, lockout-trim_locked,
}
use macftpd.Ratelimit.Lockout.{Op, fail_op, run, apply, get-fail}

-- The key has failed `n` times since `first`, and is locked exactly if `n` reaches the limit.
record IsCounting (key : Text) (first : Time) (n : ℕ) (l : Limiter) : Type 0 where
  entry : Entry
  found : get key l.entries ≡ some entry
  count : entry.failures ≡ n
  start : entry.first_failed ≡ first
  seen : first ≤ entry.last_seen
  locked : l.limit ≤ n → first + l.lockout ≤ entry.locked_until
  free : n < l.limit → entry.locked_until ≡ 0

limit-fail : (key : Text) (now : Time) (l : Limiter) → (fail now key l).limit ≡ l.limit
unfolding fail
limit-fail key now l = limit-trim_locked l now

window-fail : (key : Text) (now : Time) (l : Limiter) → (fail now key l).window ≡ l.window
unfolding fail
window-fail key now l = window-trim_locked l now

lockout-fail : (key : Text) (now : Time) (l : Limiter) → (fail now key l).lockout ≡ l.lockout
unfolding fail
lockout-fail key now l = lockout-trim_locked l now

ruleset settings = (limit-fail, window-fail, lockout-fail)

first-IsCounting :
    (key : Text) (first : Time) (l : Limiter)
    → get key l.entries ≡ none
    → IsCounting key first 1 (fail first key l)
first-IsCounting key first l h = record {
  entry = fail_entry (trim_locked first l) first zero_entry;
  found = get-fail key first l ∙ rw (absent-trim_locked l first key h);
  count = ground arith;
  start = ground arith;
  seen = ground arith;
  locked = λ b. ground (
    arith,
    limit-fail key first l,
    lockout-fail key first l,
    limit-trim_locked l first,
    lockout-trim_locked l first,
  );
  free = λ b. ground (arith, limit-fail key first l, limit-trim_locked l first);
}

-- A further failure within the window of the first one counts on.
next-IsCounting :
    (key : Text) (first now : Time) (n : ℕ) (l : Limiter)
    → 0 < first
    → first ≤ now
    → now ≤ first + l.window
    → IsCounting key first n l
    → IsCounting key first (suc n) (fail now key l)
next-IsCounting key first now n l pos late soon c = record {
  entry = fail_entry (trim_locked now l) now c.entry;
  found =
      get-fail key now l ∙ rw (get-trim_locked l now key c.entry c.found (omega (arith, c.seen)));
  count = ground (arith, c.count, c.start, window-trim_locked l now);
  start = ground (arith, c.count, c.start, window-trim_locked l now);
  seen = ground arith;
  locked = λ b. ground (
    arith,
    c.count,
    c.start,
    window-trim_locked l now,
    limit-fail key now l,
    lockout-fail key now l,
    limit-trim_locked l now,
    lockout-trim_locked l now,
  );
  free = λ b. ground (
    arith,
    c.count,
    c.start,
    c.free,
    window-trim_locked l now,
    limit-fail key now l,
    limit-trim_locked l now,
  );
}

abbrev pub fails : Text → List Time → List (Time × Op)
fails key = map (λ t. (t, fail_op key))

run-IsCounting :
    (key : Text) (first : Time) (n : ℕ) (ts : List Time) (l : Limiter)
    → 0 < first
    → All (λ t. (first ≤ t) × (t ≤ first + l.window)) ts
    → IsCounting key first n l
    → IsCounting key first (n + length ts) (run (fails key ts) l)
      × ((run (fails key ts) l).limit ≡ l.limit)
      × ((run (fails key ts) l).lockout ≡ l.lockout)
      × ((run (fails key ts) l).window ≡ l.window)
unfolding run apply
run-IsCounting key first n [] l pos b c = (rw add-zero c, refl, refl, refl)
run-IsCounting key first n (t ∷ ts) l pos (h, b) c =
    let r =
      run-IsCounting key first (suc n) ts (fail t key l) pos (rw (window-fail key t l) b)
        (next-IsCounting key first t n l pos h.0 h.1 c) in
    (
      subst (λ k. IsCounting key first k (run (fails key ts) (fail t key l))) (omega arith) r.0,
      r.1 ∙ limit-fail key t l,
      r.2 ∙ lockout-fail key t l,
      r.3 ∙ window-fail key t l,
    )

allow-IsCounting :
    (key : Text) (first now : Time) (n : ℕ) (l : Limiter)
    → 0 < first
    → first ≤ now
    → now ≤ first + l.lockout
    → IsCounting key first n l
    → (allow now key l).1 ≡ ltb n l.limit
unfolding allow
allow-IsCounting key first now n l pos late early c =
    ground (arith, c.locked, c.free, get-trim_locked l now key c.entry c.found)

-- Of a key with no entry, which fails at a first time after the zero time and then at times within the window
-- of that one, the limiter says until a lockout after the first failure: allowed, exactly if the
-- failures are fewer than the limit.
pub threshold_exact :
    (key : Text) (first now : Time) (ts : List Time) (l : Limiter)
    → get key l.entries ≡ none
    → 0 < first
    → All (λ t. (first ≤ t) × (t ≤ first + l.window)) ts
    → first ≤ now
    → now ≤ first + l.lockout
    → (allow now key (run (fails key (first ∷ ts)) l)).1 ≡ ltb (length (first ∷ ts)) l.limit
unfolding run apply
threshold_exact key first now ts l h pos b late early =
    let r =
      run-IsCounting key first 1 ts (fail first key l) pos (rw (window-fail key first l) b)
        (first-IsCounting key first l h) in
    let same : (run (fails key ts) (fail first key l)).limit ≡ l.limit =
      r.1 ∙ limit-fail key first l in
    let kept : (run (fails key ts) (fail first key l)).lockout ≡ l.lockout =
      r.2 ∙ lockout-fail key first l in
    allow-IsCounting key first now (1 + length ts) (run (fails key ts) (fail first key l)) pos late
      (omega arith) r.0
    ∙ rw same (ground arith)
