-- ===== src/Auth/Names.antt =====
-- internal/auth/auth.go: the names of users and groups.
use macftpd.Prelude.{
  ℕ, ◌≡◌, refl, Bool, true, false, ◌&&◌, ◌||◌, [], ◌∷◌, arith, all, All, length, leb, ◌==◌,
  if◌then◌else◌, ap, Bool-cases, inl, inr, ◌∙◌,
}
use macftpd.Text.{Text, is_space, lower, to_lower, trim_space}
use macftpd.Text.Laws.{trim_space_of_NoneOf, NoneOf}

-- `[a-z0-9]`
unfoldable pub is_alnum : ℕ → Bool
is_alnum c = (leb b'a' c && leb c b'z') || (leb b'0' c && leb c b'9')

-- `[a-z0-9_.-]`
unfoldable pub is_name_char : ℕ → Bool
unfolding is_alnum
is_name_char c = is_alnum c || c == b'_' || c == b'-' || c == b'.'

-- the function of `strings.Map`, which drops what it maps to -1
unfoldable pub keep_name_chars : Text → Text
unfolding is_name_char
keep_name_chars [] = []
keep_name_chars (c ∷ s) = let rest = keep_name_chars s in if is_name_char c then c ∷ rest else rest

unfoldable pub normalize_name : Text → Text
unfolding keep_name_chars trim_space to_lower
normalize_name name = keep_name_chars (trim_space (to_lower name))

-- `^[a-z0-9][a-z0-9_.-]{0,63}$`
unfoldable pub validate_name : Text → Bool
unfolding is_name_char
validate_name [] = false
validate_name (c ∷ s) = is_alnum c && leb (length s) 63 && all is_name_char s

keep_name_chars-All : (s : Text) → All (λ c. is_name_char c ≡ true) (keep_name_chars s)
unfolding keep_name_chars
keep_name_chars-All [] = tt
keep_name_chars-All (c ∷ s) = elim (Bool-cases (is_name_char c)) [
  | inl e ↦ rw e (e, keep_name_chars-All s)
  | inr e ↦ rw e (keep_name_chars-All s)
]

keep_name_chars_of_All : (s : Text) → All (λ c. is_name_char c ≡ true) s → keep_name_chars s ≡ s
unfolding keep_name_chars
keep_name_chars_of_All [] h = refl
keep_name_chars_of_All (c ∷ s) (p, h) = rw p (ap (λ r. c ∷ r) (keep_name_chars_of_All s h))

lower_of_name_char : (c : ℕ) → is_name_char c ≡ true → lower c ≡ c
unfolding is_name_char lower
lower_of_name_char c h = ground arith

is_space_of_name_char : (c : ℕ) → is_name_char c ≡ true → is_space c ≡ false
unfolding is_name_char is_space
is_space_of_name_char c h = ground arith

to_lower_of_All : (s : Text) → All (λ c. is_name_char c ≡ true) s → to_lower s ≡ s
unfolding to_lower
to_lower_of_All [] h = refl
to_lower_of_All (c ∷ s) (p, h) = rw (lower_of_name_char c p) (ap (λ r. c ∷ r) (to_lower_of_All s h))

no_space_of_All : (s : Text) → All (λ c. is_name_char c ≡ true) s → NoneOf is_space s
no_space_of_All [] h = tt
no_space_of_All (c ∷ s) (p, h) = (is_space_of_name_char c p, no_space_of_All s h)

-- A text of name characters is its own normal form.
pub normalize_name_of_All : (s : Text) → All (λ c. is_name_char c ≡ true) s → normalize_name s ≡ s
unfolding normalize_name
normalize_name_of_All s h =
    ap (λ t. keep_name_chars (trim_space t)) (to_lower_of_All s h)
    ∙ ap keep_name_chars (trim_space_of_NoneOf s (no_space_of_All s h))
    ∙ keep_name_chars_of_All s h

pub normalize_name-All : (s : Text) → All (λ c. is_name_char c ≡ true) (normalize_name s)
unfolding normalize_name
normalize_name-All s = keep_name_chars-All (trim_space (to_lower s))

all-All : (p : ℕ → Bool) (s : Text) → all p s ≡ true → All (λ c. p c ≡ true) s
all-All p [] h = tt
all-All p (c ∷ s) h = ground (arith, all-All p s)

All-all : (p : ℕ → Bool) (s : Text) → All (λ c. p c ≡ true) s → all p s ≡ true
All-all p [] h = refl
All-all p (c ∷ s) (q, h) = rw q (All-all p s h)

validate_name-All : (s : Text) → validate_name s ≡ true → All (λ c. is_name_char c ≡ true) s
unfolding validate_name
validate_name-All [] h = tt
validate_name-All (c ∷ s) h =
    (unfold is_name_char in ground arith, all-All is_name_char s (ground arith))

abbrev pub starts_well : Text → Bool
starts_well [] = false
starts_well (c ∷ s) = is_alnum c

validate_name_of_All :
    (s : Text)
    → All (λ c. is_name_char c ≡ true) s
    → validate_name s ≡ (starts_well s && leb (length s) 64)
unfolding validate_name
validate_name_of_All [] h = refl
validate_name_of_All (c ∷ s) (p, h) = rw (All-all is_name_char s h) (ground arith)

-- Normalising a name a second time changes nothing; a name is accepted after normalising exactly if its
-- normal form starts with a letter or a digit and has at most 64 characters; and a name that is
-- accepted as it stands is its own normal form.
pub normalize_name-validate_name :
    (s : Text)
    → (normalize_name (normalize_name s) ≡ normalize_name s)
      × (validate_name (normalize_name s)
          ≡ (starts_well (normalize_name s) && leb (length (normalize_name s)) 64))
      × (validate_name s ≡ true → normalize_name s ≡ s)
normalize_name-validate_name s = (
  normalize_name_of_All (normalize_name s) (normalize_name-All s),
  validate_name_of_All (normalize_name s) (normalize_name-All s),
  λ h. normalize_name_of_All s (validate_name-All s h),
)
