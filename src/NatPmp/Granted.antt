-- ===== src/NatPmp/Granted.antt =====
-- A request for a mapping and the answer to it.
use macftpd.Prelude.{
  ℕ, ◌*◌, ◌/◌, ◌%◌, ◌+◌, ◌≤◌, zero, suc, ◌<◌, ◌≡◌, Option, none, some, List, [], ◌∷◌, ◌++◌, arith,
  leb, false, refl, ◌-◌, ◌^◌, if◌then◌else◌, ◌==◌,
}
use macftpd.Clock.{Duration, second}
use macftpd.NatPmp.{ok, map_tcp, mapping_of, put32, read16, read32, top_bit, whole_seconds}

-- A router that grants every request for TCP: it answers with the ports and the lifetime of the request,
-- which it copies byte by byte, and the seconds since it started.
unfoldable pub grant : ℕ → List ℕ → Option (List ℕ)
grant epoch (v ∷ op ∷ x ∷ y ∷ i0 ∷ i1 ∷ e0 ∷ e1 ∷ l0 ∷ l1 ∷ l2 ∷ l3 ∷ []) =
    if op == 2
    then some (0 ∷ 130 ∷ 0 ∷ 0 ∷ put32 epoch ++ i0 ∷ i1 ∷ e0 ∷ e1 ∷ l0 ∷ l1 ∷ l2 ∷ l3 ∷ [])
    else none
grant epoch other = none

read16-put16 : (n : ℕ) → n < 65536 → read16 (n / 256 % 256) (n % 256) ≡ n
read16-put16 n h = omega arith

read32-put32 :
    (n : ℕ)
    → n < 4294967296
    → read32 (n / 16777216 % 256) (n / 65536 % 256) (n / 256 % 256) (n % 256) ≡ n
read32-put32 n h = omega arith

top_bit_le : (k n : ℕ) → top_bit k n ≤ n + 1
unfolding top_bit
top_bit_le zero n = omega arith
top_bit_le (suc k) n = ground (arith, top_bit_le k n)

-- fewer than 2 ^ 23 seconds are not rounded up
whole_seconds_short :
    (lifetime : Duration) → lifetime / second < 8388608 → whole_seconds lifetime ≡ lifetime / second
whole_seconds_short lifetime h =
    let bit = top_bit_le 33 (lifetime / second) in
    let missing : 1 ≤ second - lifetime % second = omega arith in
    let exact : leb ((second - lifetime % second) * 2 ^ 53)
          (second * top_bit 33 (lifetime / second))
        ≡ false =
      ground (arith) in
    rw exact refl

-- A router that grants requests byte by byte gives the ports that were asked for, for the whole seconds of the
-- lifetime that was asked for: for ports from 1 to 65535, and fewer than 2 ^ 23 seconds (97 days).
pub map_tcp-grant :
    (epoch internal external : ℕ) (lifetime : Duration)
    → 0 < internal
    → internal < 65536
    → 0 < external
    → external < 65536
    → lifetime / second < 8388608
    → map_tcp (grant epoch) internal external lifetime
      ≡ ok (record {
        internal_port = internal;
        external_port = external;
        lifetime = lifetime / second * second;
      })
unfolding map_tcp mapping_of grant
map_tcp-grant epoch internal external lifetime hi hj he hf hl =
    rw (whole_seconds_short lifetime hl) (
      ground (
        arith,
        read16-put16 internal hj,
        read16-put16 external hf,
        read32-put32 (lifetime / second) (omega arith),
      ))
