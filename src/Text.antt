-- ===== src/Text.antt =====
-- Go strings, as lists of code points (a byte of the source's ASCII texts is one code point), and the
-- functions of Go's `strings` that the program calls.
pub mod Laws
use Prim.Native.Char.{Char, code}
use macftpd.Prelude.{
  ℕ, ◌+◌, ◌-◌, ◌≡◌, refl, ◌↔◌, Bool, true, false, ◌&&◌, ◌||◌, not, Option, none, some, List, [],
  ◌∷◌, ◌++◌, reverse, map, arith, Eq, ==_iff, if◌then◌else◌, ◌==◌, leb, String, ap,
}

abbrev pub Text : Type 0
Text = List ℕ

-- The code points of a literal.
unfoldable pub codes : String → Text
codes String.[] = []
codes (String.◌∷◌ c s) = code c ∷ codes s

infix 50 ◌=ₜ◌
unfoldable pub ◌=ₜ◌ : Text → Text → Bool
[] =ₜ [] = true
(x ∷ xs) =ₜ (y ∷ ys) = (x == y) && (xs =ₜ ys)
_ =ₜ _ = false

pub =ₜ_iff : (s t : Text) → ((s =ₜ t) ≡ true) ↔ (s ≡ t)
unfolding ◌=ₜ◌
=ₜ_iff [] [] = ground arith
=ₜ_iff [] (y ∷ t) = ground arith
=ₜ_iff (x ∷ s) [] = ground arith
=ₜ_iff (x ∷ s) (y ∷ t) = ground (arith, =ₜ_iff s t)

instance abbrev pub text_eq : Eq Text
text_eq = record { beq = ◌=ₜ◌; beq_iff = =ₜ_iff }

-- `s == ""`
abbrev pub is_empty : Text → Bool
is_empty [] = true
is_empty (c ∷ s) = false

-- `unicode.IsSpace`
unfoldable pub is_space : ℕ → Bool
is_space c =
    (leb 9 c && leb c 13)
    || c == 32
    || c == 0x85
    || c == 0xa0
    || c == 0x1680
    || (leb 0x2000 c && leb c 0x200a)
    || c == 0x2028
    || c == 0x2029
    || c == 0x202f
    || c == 0x205f
    || c == 0x3000

-- `strings.TrimLeftFunc` and `strings.TrimRightFunc`
unfoldable pub trim_left : (ℕ → Bool) → Text → Text
trim_left p [] = []
trim_left p (c ∷ s) = if p c then trim_left p s else c ∷ s

-- a character that is trimmed stays if a character behind it stays
unfoldable pub trim_right : (ℕ → Bool) → Text → Text
trim_right p [] = []
trim_right p (c ∷ s) = let rest = trim_right p s in if p c && is_empty rest then [] else c ∷ rest

-- `strings.TrimSpace`
unfoldable pub trim_space : Text → Text
unfolding trim_left trim_right is_space
trim_space s = trim_right is_space (trim_left is_space s)

-- `strings.ToLower` and `strings.ToUpper`, on ASCII letters and the two other letters whose lower case
-- is an ASCII letter (U+0130 and U+212A).
unfoldable pub lower : ℕ → ℕ
lower c =
    if leb 65 c && leb c 90
    then c + 32
    else if c == 0x130
    then 105
    else if c == 0x212a
    then 107
    else c

unfoldable pub to_lower : Text → Text
unfolding lower
to_lower = map lower

unfoldable pub upper : ℕ → ℕ
upper c = if leb 97 c && leb c 122 then c - 32 else c

unfoldable pub to_upper : Text → Text
unfolding upper
to_upper = map upper

unfoldable pub has_prefix : Text → Text → Bool
has_prefix s [] = true
has_prefix [] (p ∷ ps) = false
has_prefix (c ∷ s) (p ∷ ps) = c == p && has_prefix s ps

unfoldable pub has_suffix : Text → Text → Bool
unfolding has_prefix
has_suffix s suffix = has_prefix (reverse s) (reverse suffix)

-- The text after a prefix, if it is one (`strings.CutPrefix`).
unfoldable pub cut_prefix : Text → Text → Option Text
cut_prefix s [] = some s
cut_prefix [] (p ∷ ps) = none
cut_prefix (c ∷ s) (p ∷ ps) = if c == p then cut_prefix s ps else none

abbrev pub or_else {ℓ} : {A : Type ℓ} → Option A → A → A
or_else none d = d
or_else (some a) d = a

-- `strings.TrimPrefix`
unfoldable pub trim_prefix : Text → Text → Text
unfolding cut_prefix
trim_prefix s p = or_else (cut_prefix s p) s

-- a separator starts a new part; any other character joins the part that follows it
abbrev pub cons_head : ℕ → List Text → List Text
cons_head c [] = (c ∷ []) ∷ []
cons_head c (t ∷ ts) = (c ∷ t) ∷ ts

-- `strings.Split` by a separator of one character
unfoldable pub split : ℕ → Text → List Text
split d [] = [] ∷ []
split d (c ∷ s) = let rest = split d s in if c == d then [] ∷ rest else cons_head c rest

-- `strings.Join` with a separator of one character
unfoldable pub join : ℕ → List Text → Text
join d [] = []
join d (t ∷ []) = t
join d (t ∷ u ∷ ts) = t ++ d ∷ join d (u ∷ ts)

-- `strings.ReplaceAll` of one character by another
unfoldable pub replace : ℕ → ℕ → Text → Text
replace a b = map (λ c. if c == a then b else c)

-- `strings.Contains` of one character
unfoldable pub contains : ℕ → Text → Bool
contains d [] = false
contains d (c ∷ s) = c == d || contains d s

-- `strings.Cut` at a character
unfoldable pub cut : ℕ → Text → Option (Text × Text)
cut d [] = none
cut d (c ∷ s) =
    let rest = cut d s in
    if c == d then some ([], s) else elim rest [ none ↦ none | some (a, b) ↦ some (c ∷ a, b) ]

-- `strings.Trim` by a set of characters
unfoldable pub trim : (ℕ → Bool) → Text → Text
unfolding trim_left trim_right
trim p s = trim_right p (trim_left p s)

-- `strings.EqualFold`, on the letters that `to_lower` reads
unfoldable pub equal_fold : Text → Text → Bool
unfolding to_lower ◌=ₜ◌
equal_fold s t = to_lower s =ₜ to_lower t
