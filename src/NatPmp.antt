-- ===== src/NatPmp.antt =====
-- internal/natpmp/natpmp.go: requests to a router to open ports. What the router answers is an argument:
-- `none` if there is no answer in time.
pub mod Granted
pub mod Ports
pub mod Renewal
pub mod Tests
use macftpd.Prelude.{
  ℕ, zero, suc, ◌+◌, ◌-◌, ◌^◌, ◌*◌, ◌/◌, ◌%◌, Bool, true, false, ◌&&◌, ◌||◌, not, Option, none,
  some, List, [], ◌∷◌, ◌++◌, ltb, leb, ◌==◌, if◌then◌else◌, length, ℤ, positive_or,
}
use macftpd.Clock.{Duration, second, minute, hour}

pub record Mapping : Type 0 where
  pub internal_port : ℕ
  pub external_port : ℕ
  pub lifetime : Duration

pub data Error : Type 0 where
  bad_ports unreachable bad_response : Error
  refused : ℕ → Error

pub data Result {ℓ} (A : Type ℓ) : Type ℓ where
  ok : A → Result A
  err : Error → Result A

-- `binary.BigEndian`
abbrev pub put16 : ℕ → List ℕ
put16 n = n / 256 % 256 ∷ n % 256 ∷ []

abbrev pub put32 : ℕ → List ℕ
put32 n = n / 16777216 % 256 ∷ n / 65536 % 256 ∷ n / 256 % 256 ∷ n % 256 ∷ []

abbrev pub read16 : ℕ → ℕ → ℕ
read16 a b = a * 256 + b

abbrev pub read32 : ℕ → ℕ → ℕ → ℕ → ℕ
read32 a b c d = a * 16777216 + b * 65536 + c * 256 + d

-- `PublicAddress`, from the answer
unfoldable pub public_address : Option (List ℕ) → Result (List ℕ)
public_address none = err unreachable
public_address (some (v ∷ op ∷ r0 ∷ r1 ∷ t0 ∷ t1 ∷ t2 ∷ t3 ∷ a ∷ b ∷ c ∷ d ∷ rest)) =
    if not (op == 128)
    then err bad_response
    else if not (read16 r0 r1 == 0)
    then err (refused (read16 r0 r1))
    else ok (a ∷ b ∷ c ∷ d ∷ [])
public_address (some other) = err bad_response

-- the greatest power of two, up to an exponent, that is at most a number
unfoldable pub top_bit : ℕ → ℕ → ℕ
top_bit zero n = 1
top_bit (suc k) n = let rest = top_bit k n in if leb (2 ^ suc k) n then 2 ^ suc k else rest

-- `uint32(lifetime.Seconds())`: the seconds are a float64, whose fraction of 52 bits behind the highest one rounds
-- up to the next second where less than half of a last bit is missing
abbrev pub whole_seconds : Duration → ℕ
whole_seconds lifetime =
    let n = lifetime / second in
    if leb ((second - lifetime % second) * 2 ^ 53) (second * top_bit 33 n) then n + 1 else n

-- the request of `MapTCP`
abbrev pub map_request : ℕ → ℕ → Duration → List ℕ
map_request internal external lifetime =
    0 ∷ 2 ∷ 0 ∷ 0 ∷ put16 internal ++ put16 external ++ put32 (whole_seconds lifetime)

unfoldable pub mapping_of : Option (List ℕ) → Result Mapping
mapping_of none = err unreachable
mapping_of
      (some (v ∷ op ∷ r0 ∷ r1 ∷ t0 ∷ t1 ∷ t2 ∷ t3 ∷ i0 ∷ i1 ∷ e0 ∷ e1 ∷ l0 ∷ l1 ∷ l2 ∷ l3 ∷ rest)) =
    if not (op == 130)
    then err bad_response
    else if not (read16 r0 r1 == 0)
    then err (refused (read16 r0 r1))
    else ok (record {
      internal_port = read16 i0 i1;
      external_port = read16 e0 e1;
      lifetime = read32 l0 l1 l2 l3 * second;
    })
mapping_of (some other) = err bad_response

abbrev is_port : ℕ → Bool
is_port p = ltb 0 p && ltb p 65536

-- `MapTCP`; `round_trip` is what the router answers to a request
unfoldable pub map_tcp : (List ℕ → Option (List ℕ)) → ℕ → ℕ → Duration → Result Mapping
map_tcp round_trip internal external lifetime =
    if not (is_port internal) || not (is_port external)
    then err bad_ports
    else mapping_of (round_trip (map_request internal external lifetime))

-- `DeleteTCP`
unfoldable pub delete_tcp : (List ℕ → Option (List ℕ)) → ℕ → ℕ → Result Mapping
delete_tcp round_trip internal external = map_tcp round_trip internal external 0

-- what one round of `MaintainTCP` has counted
pub record Tally : Type 0 where
  pub mapped : ℕ
  pub mismatched : ℕ
  pub had_failure : Bool

abbrev pub count_mapping : ℕ → Result Mapping → Tally → Tally
count_mapping port (err e) t = record t { had_failure = true }
count_mapping port (ok mapping) t =
    if not (mapping.external_port == port)
    then record t { mismatched = t.mismatched + 1 }
    else record t { mapped = t.mapped + 1 }

-- the loop over the ports; `answer` is what `MapTCP` returns for a port
unfoldable pub count_ports : (ℕ → Result Mapping) → List ℕ → Tally → Tally
count_ports answer [] t = t
count_ports answer (port ∷ ports) t = count_ports answer ports (count_mapping port (answer port) t)

abbrev pub usual_renewal : Duration → Duration
usual_renewal lifetime = if ltb (lifetime / 2) (5 * minute) then 5 * minute else lifetime / 2

-- the pause after a round, `address` being whether the router told its address
unfoldable pub renew_every : Bool → (ℕ → Result Mapping) → List ℕ → ℤ → Duration
renew_every address answer ports lifetime =
    let t =
      count_ports answer ports (record { mapped = 0; mismatched = 0; had_failure = not address }) in
    if t.had_failure || ltb t.mapped (length ports)
    then 30 * second
    else usual_renewal (positive_or lifetime hour)
