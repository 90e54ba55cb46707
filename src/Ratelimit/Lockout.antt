-- ===== src/Ratelimit/Lockout.antt =====
-- A locked key stays locked until its time.
use macftpd.Prelude.{
  ◌+◌, ◌≤◌, ◌≡◌, ◌≢◌, false, some, List, [], ◌∷◌, arith, All, Bool-cases, inl, inr, sym, subst,
}
use macftpd.Text.{Text, text_eq, =ₜ_iff, ◌=ₜ◌}
use macftpd.Dict.{get, get-put, get-del, get-put_self}
use macftpd.Clock.{Time}
use macftpd.Ratelimit.{Entry, Limiter, trim_locked, allow, fail, reset, entry_or_zero, fail_entry}
use macftpd.Ratelimit.Trim.{get-trim_locked, limit-trim_locked, lockout-trim_locked}

-- The key was locked at one time until another, at most a lockout later, and was used since.
pub record IsLocked (key : Text) (since until : Time) (l : Limiter) : Type 0 where
  pub entry : Entry
  pub found : get key l.entries ≡ some entry
  pub locked : entry.locked_until ≡ until
  pub seen : since ≤ entry.last_seen
  pub bounded : until ≤ since + l.lockout

-- What a client of the limiter does: a test, a failure or a reset of a key.
pub data Op : Type 0 where
  allow_op fail_op reset_op : Text → Op

unfoldable pub apply : Time → Op → Limiter → Limiter
apply now (allow_op k) l = (allow now k l).0
apply now (fail_op k) l = fail now k l
apply now (reset_op k) l = reset k l

unfoldable pub run : List (Time × Op) → Limiter → Limiter
run [] l = l
run ((now, op) ∷ ops) l = run ops (apply now op l)

-- An operation that does not count a failure on the key, nor reset it.
abbrev pub Spares : Text → Op → Type 0
Spares key (allow_op k) = Unit
Spares key (fail_op k) = k ≢ key
Spares key (reset_op k) = k ≢ key

module _ (key : Text) (since until now : Time) (late : since ≤ now) (early : now ≤ until) where
  found-trim_locked :
      (l : Limiter) (h : IsLocked key since until l)
      → get key (trim_locked now l).entries ≡ some h.entry
  found-trim_locked l h =
      get-trim_locked l now key h.entry h.found (omega (arith, h.seen, h.bounded))

  allow-IsLocked_other :
      (k : Text) (l : Limiter)
      → k ≢ key
      → IsLocked key since until l
      → IsLocked key since until (allow now k l).0
  unfolding allow
  allow-IsLocked_other k l ne h = record {
    entry = h.entry;
    found = ground (
      arith,
      =ₜ_iff k key,
      found-trim_locked l h,
      get-put k key (record (entry_or_zero (get k (trim_locked now l).entries)) { last_seen = now })
          (trim_locked now l).entries,
    );
    locked = h.locked;
    seen = h.seen;
    bounded = ground (arith, lockout-trim_locked l now, h.bounded);
  }

  allow-IsLocked_self :
      (l : Limiter) → IsLocked key since until l → IsLocked key since until (allow now key l).0
  unfolding allow
  allow-IsLocked_self l h = record {
    entry = record h.entry { last_seen = now };
    found = ground (
      arith,
      =ₜ_iff key key,
      found-trim_locked l h,
      h.locked,
      get-put key key (record h.entry { last_seen = now }) (trim_locked now l).entries,
    );
    locked = h.locked;
    seen = late;
    bounded = ground (arith, lockout-trim_locked l now, h.bounded);
  }

  fail-IsLocked :
      (k : Text) (l : Limiter)
      → k ≢ key
      → IsLocked key since until l
      → IsLocked key since until (fail now k l)
  unfolding fail
  fail-IsLocked k l ne h = record {
    entry = h.entry;
    found = rw get-put (ground (arith, =ₜ_iff k key, found-trim_locked l h));
    locked = h.locked;
    seen = h.seen;
    bounded = ground (arith, lockout-trim_locked l now, h.bounded);
  }

  reset-IsLocked :
      (k : Text) (l : Limiter)
      → k ≢ key
      → IsLocked key since until l
      → IsLocked key since until (reset k l)
  unfolding reset
  reset-IsLocked k l ne h = record {
    entry = h.entry;
    found = rw get-del (ground (arith, =ₜ_iff k key, h.found));
    locked = h.locked;
    seen = h.seen;
    bounded = h.bounded;
  }

  allow-IsLocked :
      (k : Text) (l : Limiter)
      → IsLocked key since until l
      → IsLocked key since until (allow now k l).0
  allow-IsLocked k l h = elim (Bool-cases (k =ₜ key)) [
    | inl e ↦
        subst (λ j. IsLocked key since until (allow now j l).0) (sym ((=ₜ_iff k key).0 e))
          (allow-IsLocked_self l h)
    | inr e ↦ allow-IsLocked_other k l (ground (arith, =ₜ_iff k key)) h
  ]

  apply-IsLocked :
      (op : Op) (l : Limiter)
      → Spares key op
      → IsLocked key since until l
      → IsLocked key since until (apply now op l)
  unfolding apply
  apply-IsLocked (allow_op k) l _ h = allow-IsLocked k l h
  apply-IsLocked (fail_op k) l ne h = fail-IsLocked k l ne h
  apply-IsLocked (reset_op k) l ne h = reset-IsLocked k l ne h

  IsLocked-denied : (l : Limiter) → IsLocked key since until l → (allow now key l).1 ≡ false
  unfolding allow
  IsLocked-denied l h = ground (arith, found-trim_locked l h, h.locked)

-- Each operation runs while the lock lasts, and neither counts a failure on the key nor resets it.
abbrev pub IsDuring : Text → Time → Time → (Time × Op) → Type 0
IsDuring key since until (now, op) = (since ≤ now) × (now ≤ until) × Spares key op

run-IsLocked :
    (key : Text) (since until : Time) (ops : List (Time × Op)) (l : Limiter)
    → All (IsDuring key since until) ops
    → IsLocked key since until l
    → IsLocked key since until (run ops l)
unfolding run
run-IsLocked key since until [] l d h = h
run-IsLocked key since until ((now, op) ∷ ops) l ((late, early, spares), d) h =
    run-IsLocked key since until ops (apply now op l) d
      (apply-IsLocked key since until now late early op l spares h)

abbrev pub entry_at : Time → Text → Limiter → Entry
entry_at now key l = entry_or_zero (get key (trim_locked now l).entries)

-- What a failure leaves in the table.
pub get-fail :
    (key : Text) (now : Time) (l : Limiter)
    → get key (fail now key l).entries
      ≡ some (fail_entry (trim_locked now l) now (entry_at now key l))
unfolding fail
get-fail key now l = get-put_self key _ _

-- The failure that reaches the limit locks the key for a lockout.
fail-IsLocked_self :
    (key : Text) (now : Time) (l : Limiter) (e : Entry)
    → get key (fail now key l).entries ≡ some e
    → l.limit ≤ e.failures
    → IsLocked key now (now + l.lockout) (fail now key l)
fail-IsLocked_self key now l e h lim = record {
  entry = e;
  found = h;
  locked = ground (arith, get-fail key now l, limit-trim_locked l now, lockout-trim_locked l now);
  seen = ground (arith, get-fail key now l);
  bounded = unfold fail in omega (arith, lockout-trim_locked l now);
}

-- From the failure that reaches the limit on, the limiter refuses the key for a whole lockout, whatever
-- is asked of it about this key and done about other keys in the meantime, unless a further failure is
-- counted on the key or the key is reset.
pub lockout_holds :
    (key : Text) (since now : Time) (l : Limiter) (e : Entry) (ops : List (Time × Op))
    → get key (fail since key l).entries ≡ some e
    → l.limit ≤ e.failures
    → since ≤ now
    → now ≤ since + l.lockout
    → All (IsDuring key since (since + l.lockout)) ops
    → (allow now key (run ops (fail since key l))).1 ≡ false
lockout_holds key since now l e ops h lim late early d =
    IsLocked-denied key since (since + l.lockout) now late early (run ops (fail since key l)) (
      run-IsLocked key since (since + l.lockout) ops (fail since key l) d
        (fail-IsLocked_self key since l e h lim))
