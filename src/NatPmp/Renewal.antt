-- ===== src/NatPmp/Renewal.antt =====
-- How soon the mappings are renewed.
use macftpd.Prelude.{
  ℕ, ◌+◌, ◌*◌, ◌/◌, ◌≡◌, ◌≤◌, Bool, false, ◌&&◌, ◌||◌, not, List, [], ◌∷◌, arith, all, ltb, length,
  if◌then◌else◌, ◌==◌, ℤ, positive_or, ◌∙◌,
}
use macftpd.Clock.{second, minute, hour}
use macftpd.NatPmp.{Mapping, Result, ok, err, Tally, count_mapping, count_ports, renew_every}

-- the router maps the port, and to the same port outside
abbrev pub keeps_port : ℕ → Result Mapping → Bool
keeps_port port (err e) = false
keeps_port port (ok mapping) = mapping.external_port == port

-- nothing went wrong, and the count reaches a number
abbrev reaches : ℕ → Tally → Bool
reaches n t = not (t.had_failure || ltb t.mapped n)

count_mapping_le :
    (port k : ℕ) (r : Result Mapping) (t : Tally)
    → t.mapped ≤ k
    → (count_mapping port r t).mapped ≤ k + 1
count_mapping_le port k (err e) t h = omega arith
count_mapping_le port k (ok mapping) t h = ground arith

count_mapping_exact :
    (port k : ℕ) (r : Result Mapping) (t : Tally)
    → t.mapped ≤ k
    → (not (count_mapping port r t).had_failure && ((count_mapping port r t).mapped == k + 1))
      ≡ (not t.had_failure && (t.mapped == k) && keeps_port port r)
count_mapping_exact port k (err e) t h = ground arith
count_mapping_exact port k (ok mapping) t h = ground arith

reaches-count_ports :
    (answer : ℕ → Result Mapping) (ports : List ℕ) (k : ℕ) (t : Tally)
    → t.mapped ≤ k
    → reaches (k + length ports) (count_ports answer ports t)
      ≡ (not t.had_failure && (t.mapped == k) && all (λ p. keeps_port p (answer p)) ports)
unfolding count_ports
reaches-count_ports answer [] k t h = ground arith
reaches-count_ports answer (p ∷ ports) k t h =
    let next = count_mapping p (answer p) t in
    let one = count_mapping_exact p k (answer p) t h in
    let more =
      reaches-count_ports answer ports (k + 1) next (count_mapping_le p k (answer p) t h) in
    let same : k + length (p ∷ ports) ≡ k + 1 + length ports = omega arith in
    rw same (more ∙ ground (arith, one))

-- After a round the mappings are renewed as late as their lifetime allows (half of it, and no sooner than
-- five minutes) if the router told its address and maps each port to itself, and else after 30 seconds. A
-- lifetime that is not positive is an hour.
pub renew_every_exact :
    (address : Bool) (answer : ℕ → Result Mapping) (ports : List ℕ) (lifetime : ℤ)
    → renew_every address answer ports lifetime ≡ (
        if address && all (λ p. keeps_port p (answer p)) ports
        then (if ltb (positive_or lifetime hour / 2) (5 * minute)
            then 5 * minute
            else positive_or lifetime hour / 2)
        else 30 * second)
unfolding renew_every
renew_every_exact address answer ports lifetime =
    let start : Tally = record { mapped = 0; mismatched = 0; had_failure = not address } in
    let exact = reaches-count_ports answer ports 0 start (omega arith) in ground (arith, exact)
