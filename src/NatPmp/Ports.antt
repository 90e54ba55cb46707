-- ===== src/NatPmp/Ports.antt =====
-- internal/natpmp/natpmp.go: `ParsePorts`, which nothing in the program calls. What is no port or range is
-- passed over.
pub mod Spaces
pub mod Served
use macftpd.Prelude.{
  ℕ, ◌+◌, ◌-◌, Option, none, some, List, [], ◌∷◌, ◌++◌, ltb, if◌then◌else◌, ℤ, pos,
}
use macftpd.Text.{Text, cut, contains, trim_space, is_empty, split}
use macftpd.Ftp.Ports.{parse_int, port_range}

-- a part before the first "-" has no sign, so its number is not negative
abbrev pub range_of : Option ℤ → Option ℤ → List ℕ
range_of (some (pos start)) (some (pos end)) =
    if ltb end start then [] else port_range (end + 1 - start) start
range_of _ _ = []

abbrev pub range_parts : Option (Text × Text) → List ℕ
range_parts none = []
range_parts (some (a, b)) = range_of (parse_int (trim_space a)) (parse_int (trim_space b))

abbrev pub single : Option ℤ → List ℕ
single (some (pos n)) = n ∷ []
single _ = []

abbrev pub parse_part : Text → List ℕ
parse_part part =
    if contains b'-' part then range_parts (cut b'-' part) else single (parse_int part)

abbrev pub parse_given : Text → List ℕ
parse_given part = if is_empty part then [] else parse_part part

unfoldable pub parse_parts : List Text → List ℕ
parse_parts [] = []
parse_parts (given ∷ parts) = parse_given (trim_space given) ++ parse_parts parts

unfoldable pub parse_ports : Text → List ℕ
unfolding parse_parts
parse_ports spec = parse_parts (split b',' spec)
