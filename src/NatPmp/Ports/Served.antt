-- ===== src/NatPmp/Ports/Served.antt =====
-- The two parsers of a specification of ports.
use macftpd.Prelude.{
  ℕ, ◌≡◌, refl, Option, none, some, List, [], ◌∷◌, ◌++◌, inl, inr, ltb, ℤ, pos, negsuc, Bool-cases,
  ap, ◌∙◌, sym, subst,
}
use macftpd.Text.{Text, cut, contains, trim_space, is_empty, split, trim_left, trim_right}
use macftpd.Ftp.Ports
use macftpd.Ftp.Ports.{parse_int, append_ports}
use macftpd.NatPmp.Ports.Spaces.{parse_ports-trim_space, empty_nil}
use macftpd.NatPmp.Ports.{range_of, range_parts, single, parse_part, parse_parts, parse_ports}

-- the ports of the server, if there are any, are those asked for
abbrev Agree : Option (List ℕ) → List ℕ → Type 0
Agree none asked = Unit
Agree (some ports) asked = asked ≡ ports

range_of-Agree : (a b : Option ℤ) → Agree (Ports.range_of a b) (range_of a b)
range_of-Agree none b = tt
range_of-Agree (some (negsuc n)) b = tt
range_of-Agree (some (pos n)) none = tt
range_of-Agree (some (pos n)) (some (negsuc m)) = tt
range_of-Agree (some (pos n)) (some (pos m)) = elim (Bool-cases (ltb m n)) [
  | inl e ↦ rw e tt
  | inr e ↦ rw e refl
]

range_parts-Agree :
    (x : Option (Text × Text)) (part : Text) → Agree (Ports.range_parts x part) (range_parts x)
range_parts-Agree none part = tt
range_parts-Agree (some (a, b)) part =
    range_of-Agree (parse_int (trim_space a)) (parse_int (trim_space b))

single-Agree : (x : Option ℤ) → Agree (Ports.single x) (single x)
single-Agree none = tt
single-Agree (some (pos n)) = refl
single-Agree (some (negsuc n)) = tt

parse_part-Agree : (part : Text) → Agree (Ports.parse_part part) (parse_part part)
unfolding Ports.parse_part
parse_part-Agree part = elim (Bool-cases (contains b'-' part)) [
  | inl e ↦ rw e (range_parts-Agree (cut b'-' part) part)
  | inr e ↦ rw e (single-Agree (parse_int part))
]

append-Agree :
    (x y : Option (List ℕ)) (xs ys : List ℕ)
    → Agree x xs
    → Agree y ys
    → Agree (append_ports x y) (xs ++ ys)
append-Agree none y xs ys h k = tt
append-Agree (some ps) none xs ys h k = tt
append-Agree (some ps) (some qs) xs ys h k = rw (h, k) refl

parse_parts-Agree : (parts : List Text) → Agree (Ports.parse_parts parts) (parse_parts parts)
unfolding Ports.parse_parts parse_parts
parse_parts-Agree [] = refl
parse_parts-Agree (given ∷ parts) = elim (Bool-cases (is_empty (trim_space given))) [
  | inl e ↦ rw e (parse_parts-Agree parts)
  | inr e ↦ rw e (
      append-Agree (Ports.parse_part (trim_space given)) (Ports.parse_parts parts)
        (parse_part (trim_space given)) (parse_parts parts) (parse_part-Agree (trim_space given))
        (parse_parts-Agree parts))
]

-- the ports of one specification
agreed :
    (x : Option (List ℕ)) (asked ports : List ℕ) → Agree x asked → x ≡ some ports → asked ≡ ports
agreed none asked ports h e = absurd (cc)
agreed (some served) asked ports h e = cc

no_ports : parse_ports [] ≡ []
unfolding parse_ports parse_parts split trim_space trim_left trim_right
no_ports = refl

parse_ports-Agree : (spec : Text) → Agree (Ports.parse_ports spec) (parse_ports spec)
unfolding Ports.parse_ports
parse_ports-Agree spec = elim (Bool-cases (is_empty (trim_space spec))) [
  | inl f ↦ rw f (
      sym (parse_ports-trim_space spec) ∙ ap parse_ports (empty_nil (trim_space spec) f) ∙ no_ports)
  | inr f ↦ rw f (
      subst (Agree (Ports.parse_parts (split b',' (trim_space spec)))) (parse_ports-trim_space spec)
        (unfold parse_ports in parse_parts-Agree (split b',' (trim_space spec))))
]

-- A specification that `parsePorts` of the FTP server accepts is read alike by `ParsePorts`.
pub parse_ports_served :
    (spec : Text) (ports : List ℕ) → Ports.parse_ports spec ≡ some ports → parse_ports spec ≡ ports
parse_ports_served spec ports e =
    agreed (Ports.parse_ports spec) (parse_ports spec) ports (parse_ports-Agree spec) e
