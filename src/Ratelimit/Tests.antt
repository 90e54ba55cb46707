-- ===== src/Ratelimit/Tests.antt =====
-- Runs of the limiter, and the theorems at concrete inputs.
use macftpd.Prelude.{◌≡◌, refl, true, false, pos, [], ◌∷◌, arith, ◌*◌, ◌+◌, ltb}
use macftpd.Text.{Text, text_eq, ◌=ₜ◌}
use macftpd.Dict.{get, put}
use macftpd.Clock.{minute, Time}
use macftpd.Ratelimit.{Limiter, new, allow, fail, trim_locked}
use macftpd.Ratelimit.Lockout.{lockout_holds, run, apply, fail_op, allow_op}
use macftpd.Ratelimit.Threshold.{threshold_exact, fails}

abbrev two_tries : Limiter
two_tries = new (pos 2) (pos 0) (pos 0)

abbrev ann : Text
ann = b'a' ∷ []

abbrev bob : Text
bob = b'b' ∷ []

abbrev noon : Time
noon = 720 * minute

-- after one failure
abbrev once : Limiter
once = run (fails ann (noon ∷ [])) two_tries

locked_then_free :
    ((allow (noon + 1) ann once).1 ≡ true)
    × ((allow (noon + 3) ann (fail (noon + 2) ann once)).1 ≡ false)
    × ((allow (noon + 3 + 5 * minute) ann (fail (noon + 2) ann once)).1 ≡ true)
unfolding allow fail run apply trim_locked get put ◌=ₜ◌
locked_then_free = (refl, refl, refl)

-- Another key fails and this one is tried while it is locked.
lockout_holds_example :
    (allow (noon + 4 * minute) ann (
      run
        ((noon + minute, fail_op bob) ∷ (noon + 2 * minute, allow_op ann) ∷ [])
        (fail noon ann (fail noon ann two_tries)))).1
    ≡ false
unfolding fail trim_locked get put ◌=ₜ◌
lockout_holds_example =
    lockout_holds ann noon (noon + 4 * minute) (fail noon ann two_tries) _
      ((noon + minute, fail_op bob) ∷ (noon + 2 * minute, allow_op ann) ∷ []) refl (omega arith)
      (omega arith) (omega arith)
      ((omega arith, omega arith, λ e. ground arith), ((omega arith, omega arith, tt), tt))

threshold_exact_example :
    (allow (noon + 3 * minute) ann (run (fails ann (noon ∷ (noon + minute) ∷ [])) two_tries)).1
    ≡ ltb 2 2
unfolding get
threshold_exact_example =
    threshold_exact ann noon (noon + 3 * minute) ((noon + minute) ∷ []) two_tries refl (omega arith)
      ((omega arith, omega arith), tt) (omega arith) (omega arith)
