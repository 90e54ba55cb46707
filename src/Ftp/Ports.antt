-- ===== src/Ftp/Ports.antt =====
-- internal/ftpserver/server.go: numbers in commands, and the passive ports.
pub mod Numbers
pub mod Rotation
use macftpd.Prelude.{
  ℕ, zero, suc, ◌+◌, ◌-◌, ◌*◌, ◌/◌, ◌%◌, ◌^◌, Bool, true, false, ◌&&◌, ◌||◌, not, Option, none,
  some, List, [], ◌∷◌, ◌++◌, leb, ltb, length, if◌then◌else◌, ◌==◌, ℤ, pos, negsuc,
}
use macftpd.Text.{Text, cut, contains, trim_space, is_empty, split}

abbrev pub is_digit : ℕ → Bool
is_digit d = leb b'0' d && leb d b'9'

-- a text of digits, behind those that were read
unfoldable pub read_digits : ℕ → Text → Option ℕ
read_digits n [] = some n
read_digits n (d ∷ s) =
    let rest = read_digits (n * 10 + (d - b'0')) s in if is_digit d then rest else none

abbrev read_number : Text → Option ℕ
read_number [] = none
read_number (d ∷ s) = read_digits 0 (d ∷ s)

abbrev in_range : ℕ → Option ℕ → Option ℕ
in_range bound none = none
in_range bound (some n) = if ltb n bound then some n else none

abbrev negative : Option ℕ → Option ℤ
negative none = none
negative (some zero) = some (pos 0)
negative (some (suc n)) = some (negsuc n)

abbrev positive : Option ℕ → Option ℤ
positive none = none
positive (some n) = some (pos n)

-- `strconv.Atoi` and `strconv.ParseInt(s, 10, 64)`
unfoldable pub parse_int : Text → Option ℤ
unfolding read_digits
parse_int [] = none
parse_int (c ∷ s) =
    if c == b'-'
    then negative (in_range (2 ^ 63 + 1) (read_number s))
    else if c == b'+'
    then positive (in_range (2 ^ 63) (read_number s))
    else positive (in_range (2 ^ 63) (read_number (c ∷ s)))

-- `strconv.Itoa`, on fuel that is more than the number, which is more than its digits
unfoldable pub print_from : ℕ → ℕ → Text → Text
print_from zero n digits = digits
print_from (suc fuel) n digits =
    let more = print_from fuel (n / 10) ((b'0' + n % 10) ∷ digits) in
    if ltb n 10 then (b'0' + n) ∷ digits else more

unfoldable pub print_nat : ℕ → Text
unfolding print_from
print_nat n = print_from (suc n) n []

-- `for p := start; p <= end; p++`, by the number of rounds
unfoldable pub port_range : ℕ → ℕ → List ℕ
port_range zero start = []
port_range (suc rounds) start = start ∷ port_range rounds (start + 1)

-- the ports from a first to a last one; an empty range is refused
abbrev pub range_of : Option ℤ → Option ℤ → Option (List ℕ)
range_of (some (pos start)) (some (pos end)) =
    if ltb end start then none else some (port_range (end + 1 - start) start)
range_of _ _ = none

-- The part before the first "-" has no sign, so a first port is not negative; nor is a port alone.
abbrev pub range_parts : Option (Text × Text) → Text → Option (List ℕ)
range_parts none part = none
range_parts (some (a, b)) part = range_of (parse_int (trim_space a)) (parse_int (trim_space b))

abbrev pub single : Option ℤ → Option (List ℕ)
single (some (pos n)) = some (n ∷ [])
single _ = none

unfoldable pub parse_part : Text → Option (List ℕ)
unfolding parse_int port_range
parse_part part =
    if contains b'-' part then range_parts (cut b'-' part) part else single (parse_int part)

abbrev pub append_ports : Option (List ℕ) → Option (List ℕ) → Option (List ℕ)
append_ports (some xs) (some ys) = some (xs ++ ys)
append_ports _ _ = none

unfoldable pub parse_parts : List Text → Option (List ℕ)
unfolding parse_part
parse_parts [] = some []
parse_parts (given ∷ parts) =
    let rest = parse_parts parts in
    let part = trim_space given in
    if is_empty part then rest else append_ports (parse_part part) rest

-- `parsePorts`; an error is `none`
unfoldable pub parse_ports : Text → Option (List ℕ)
unfolding parse_parts
parse_ports given =
    let spec = trim_space given in if is_empty spec then some [] else parse_parts (split b',' spec)

abbrev pub get_or : List ℕ → ℕ → ℕ → ℕ
get_or [] i d = d
get_or (x ∷ xs) zero d = x
get_or (x ∷ xs) (suc i) d = get_or xs i d

-- the loop of `listenPassive`, with the rounds that are left: a port and the index behind it
unfoldable pub listen_from : (ℕ → Bool) → List ℕ → ℕ → ℕ → ℕ → Option (ℕ × ℕ)
listen_from can_listen ports next zero i = none
listen_from can_listen ports next (suc rounds) i =
    let idx = (next + i) % length ports in
    let rest = listen_from can_listen ports next rounds (i + 1) in
    if can_listen (get_or ports idx 0)
    then some (get_or ports idx 0, (idx + 1) % length ports)
    else rest

abbrev unchanged : ℕ → Option ℕ → Option (ℕ × ℕ)
unchanged next none = none
unchanged next (some port) = some (port, next)

-- `listenPassive`: the port that was bound and the index at which the next search starts
unfoldable pub listen_passive : (ℕ → Bool) → Option ℕ → List ℕ → ℕ → Option (ℕ × ℕ)
unfolding listen_from
listen_passive can_listen any_port [] next = unchanged next any_port
listen_passive can_listen any_port (p ∷ ports) next =
    listen_from can_listen (p ∷ ports) next (length (p ∷ ports)) 0
