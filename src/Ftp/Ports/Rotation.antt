-- ===== src/Ftp/Ports/Rotation.antt =====
-- The passive port that a session gets, and the ports of a range.
use macftpd.Prelude.{
  ℕ, zero, suc, ◌+◌, ◌≤◌, ◌<◌, ◌%◌, ◌≡◌, refl, Bool, true, false, Option, none, some, List, ◌∷◌,
  arith, length, Bool-cases, inl, inr,
}
use native.Mathlib.Decide.{dec_lt}
use macftpd.Ftp.Ports.{port_range, listen_from, listen_passive, get_or}

-- The ports of a range, one after the other.
pub length-port_range : (rounds start : ℕ) → length (port_range rounds start) ≡ rounds
unfolding port_range
length-port_range zero start = refl
length-port_range (suc rounds) start = omega (arith, length-port_range rounds (start + 1))

-- What a search from round `i` on finds: the first port in turn that can be bound.
record Found (can_listen : ℕ → Bool) (ports : List ℕ) (next i rounds port index : ℕ) : Type 0 where
  turn : ℕ
  late : i ≤ turn
  soon : turn < i + rounds
  here : port ≡ get_or ports ((next + turn) % length ports) 0
  bound : can_listen port ≡ true
  behind : index ≡ ((next + turn) % length ports + 1) % length ports
  first :
      (j : ℕ) → i ≤ j → j < turn → can_listen (get_or ports ((next + j) % length ports) 0) ≡ false

listen_from-Found :
    (can_listen : ℕ → Bool) (ports : List ℕ) (next rounds i port index : ℕ)
    → listen_from can_listen ports next rounds i ≡ some (port, index)
    → Found can_listen ports next i rounds port index
unfolding listen_from
listen_from-Found can_listen ports next zero i port index h = absurd (ground arith)
listen_from-Found can_listen ports next (suc rounds) i port index h =
    elim (Bool-cases (can_listen (get_or ports ((next + i) % length ports) 0))) [
      | inl e ↦ record {
        turn = i;
        late = omega arith;
        soon = omega arith;
        here = ground arith;
        bound = ground arith;
        behind = ground arith;
        first = λ j a b. absurd (omega arith);
      }
      | inr e ↦
          let f =
            listen_from-Found can_listen ports next rounds (i + 1) port index (ground arith) in
          record {
            turn = f.turn;
            late = omega (arith, f.late);
            soon = omega (arith, f.soon);
            here = f.here;
            bound = f.bound;
            behind = f.behind;
            first = λ j a b. elim (dec_lt i j) [
              | yes later ↦ f.first j (omega arith) b
              | no now ↦ let same : j ≡ i = omega arith in rw same e
            ];
          }
    ]

listen_from-none :
    (can_listen : ℕ → Bool) (ports : List ℕ) (next rounds i : ℕ)
    → listen_from can_listen ports next rounds i ≡ none
    → (j : ℕ) → i ≤ j
    → j < i + rounds
    → can_listen (get_or ports ((next + j) % length ports) 0) ≡ false
unfolding listen_from
listen_from-none can_listen ports next zero i h j a b = absurd (omega arith)
listen_from-none can_listen ports next (suc rounds) i h j a b =
    elim (Bool-cases (can_listen (get_or ports ((next + i) % length ports) 0))) [
      | inl e ↦ absurd (ground arith)
      | inr e ↦ elim (dec_lt i j) [
        | yes later ↦
            listen_from-none can_listen ports next rounds (i + 1) (ground arith) j (omega arith)
              (omega arith)
        | no now ↦ let same : j ≡ i = omega arith in rw same e
      ]
    ]

-- With configured ports, a search that succeeds gives a port that could be bound, the first such in turn from the
-- place where the last search stopped, and the next search starts behind it; a search that fails has found
-- every port in turn taken.
pub listen_passive_in_turn :
    (can_listen : ℕ → Bool) (any_port : Option ℕ) (p : ℕ) (ports : List ℕ) (next : ℕ)
    → ((port index : ℕ)
        → listen_passive can_listen any_port (p ∷ ports) next ≡ some (port, index)
        → (turn : ℕ) × (turn < length (p ∷ ports))
          × (port ≡ get_or (p ∷ ports) ((next + turn) % length (p ∷ ports)) 0)
          × (can_listen port ≡ true)
          × (index ≡ ((next + turn) % length (p ∷ ports) + 1) % length (p ∷ ports))
          × ((j : ℕ)
              → j < turn
              → can_listen (get_or (p ∷ ports) ((next + j) % length (p ∷ ports)) 0) ≡ false))
      × (listen_passive can_listen any_port (p ∷ ports) next ≡ none
          → (j : ℕ) → j < length (p ∷ ports)
          → can_listen (get_or (p ∷ ports) ((next + j) % length (p ∷ ports)) 0) ≡ false)
unfolding listen_passive
listen_passive_in_turn can_listen any_port p ports next = (
  λ port index h.
      let f = listen_from-Found can_listen (p ∷ ports) next (length (p ∷ ports)) 0 port index h in
      (f.turn, omega (arith, f.soon), f.here, f.bound, f.behind, λ j b. f.first j (omega arith) b),
  λ h j b.
      listen_from-none can_listen (p ∷ ports) next (length (p ∷ ports)) 0 h j (omega arith)
        (omega arith),
)
