-- ===== src/NatPmp/Tests.antt =====
-- A router that grants requests, and the theorems at concrete inputs.
use macftpd.Prelude.{ℕ, ◌≡◌, ◌*◌, ◌/◌, ltb, ◌&&◌, true, [], ◌∷◌, arith, all, pos, if◌then◌else◌}
use macftpd.Clock.{second, minute, hour}
use macftpd.NatPmp.{map_tcp, ok, Result, Mapping, renew_every}
use macftpd.NatPmp.Granted.{grant, map_tcp-grant}
use macftpd.NatPmp.Renewal.{renew_every_exact, keeps_port}

map_tcp-grant_example :
    map_tcp (grant 7) 50000 50001 (90 * second)
    ≡ ok (record { internal_port = 50000; external_port = 50001; lifetime = 90 * second })
map_tcp-grant_example =
    map_tcp-grant 7 50000 50001 (90 * second) (omega arith) (omega arith) (omega arith)
      (omega arith) (omega arith)

abbrev granted : ℕ → Result Mapping
granted port = map_tcp (grant 7) port port hour

renew_every_exact_example : renew_every true granted (50000 ∷ 50001 ∷ []) (pos hour) ≡ (
    if true && all (λ p. keeps_port p (granted p)) (50000 ∷ 50001 ∷ [])
    then (if ltb (hour / 2) (5 * minute) then 5 * minute else hour / 2)
    else 30 * second)
renew_every_exact_example = renew_every_exact true granted (50000 ∷ 50001 ∷ []) (pos hour)
