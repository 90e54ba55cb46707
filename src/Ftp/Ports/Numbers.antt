-- ===== src/Ftp/Ports/Numbers.antt =====
-- Numbers that are printed and read.
use macftpd.Prelude.{
  ℕ, zero, suc, ◌+◌, ◌*◌, ◌/◌, ◌%◌, ◌^◌, ◌<◌, ◌≤◌, ◌≡◌, refl, false, some, [], ◌∷◌, arith, ltb, ◌∙◌,
  pos, All, Bool-cases, inl, inr, ap, sym,
}
use macftpd.Text.{Text, trim_space, is_space, is_empty}
use macftpd.Text.Laws.{trim_space_of_NoneOf}
use macftpd.Ftp.Ports.{parse_int, print_from, print_nat, read_digits}

read_digits-digit :
    (acc d : ℕ) (s : Text)
    → d < 10
    → read_digits acc ((b'0' + d) ∷ s) ≡ read_digits (acc * 10 + d) s
unfolding read_digits
read_digits-digit acc d s h = ground arith

read_digits-print_from :
    (fuel n : ℕ) (digits : Text)
    → n < fuel
    → read_digits 0 (print_from fuel n digits) ≡ read_digits n digits
unfolding print_from
read_digits-print_from zero n digits h = elim h [ ]
read_digits-print_from (suc fuel) n digits h = elim (Bool-cases (ltb n 10)) [
  | inl small ↦
      let same : 0 * 10 + n ≡ n = omega arith in
      rw small (read_digits-digit 0 n digits (ground arith) ∙ ap (λ m. read_digits m digits) same)
  | inr large ↦
      let big : 10 ≤ n = ground arith in
      let split : n / 10 * 10 + n % 10 ≡ n = omega arith in
      rw large (
        read_digits-print_from fuel (n / 10) ((b'0' + n % 10) ∷ digits) (omega arith)
        ∙ read_digits-digit (n / 10) (n % 10) digits (omega arith)
        ∙ ap (λ m. read_digits m digits) split)
]

print_from-cons :
    (fuel n : ℕ) (digits : Text)
    → n < fuel
    → (c : ℕ) × (s : Text) × (print_from fuel n digits ≡ c ∷ s) × (b'0' ≤ c)
unfolding print_from
print_from-cons zero n digits h = elim h [ ]
print_from-cons (suc fuel) n digits h = elim (Bool-cases (ltb n 10)) [
  | inl small ↦ (b'0' + n, digits, rw small refl, omega arith)
  | inr large ↦
      let big : 10 ≤ n = ground arith in
      let (c, s, e, d) = print_from-cons fuel (n / 10) ((b'0' + n % 10) ∷ digits) (omega arith) in
      (c, s, rw large e, d)
]

parse_int-digits :
    (c n : ℕ) (s : Text)
    → b'0' ≤ c
    → n < 2 ^ 63
    → read_digits 0 (c ∷ s) ≡ some n
    → parse_int (c ∷ s) ≡ some (pos n)
unfolding parse_int
parse_int-digits c n s d small h = ground (arith, h)

pub parse_int-print_nat : (n : ℕ) → n < 2 ^ 63 → parse_int (print_nat n) ≡ some (pos n)
unfolding print_nat read_digits
parse_int-print_nat n small =
    let (c, s, e, d) = print_from-cons (suc n) n [] (omega arith) in
    rw e (
      parse_int-digits c n s d small
        (ap (λ t. read_digits 0 t) (sym e) ∙ read_digits-print_from (suc n) n [] (omega arith)))

-- what holds of the digits holds of the characters of a number that is printed
print_from-All :
    (P : ℕ → Type 0)
    → ((d : ℕ) → d < 10 → P (b'0' + d))
    → (fuel n : ℕ) (digits : Text) → All P digits
    → All P (print_from fuel n digits)
unfolding print_from
print_from-All P each zero n digits k = k
print_from-All P each (suc fuel) n digits k = elim (Bool-cases (ltb n 10)) [
  | inl small ↦ rw small (each n (ground arith), k)
  | inr large ↦ rw large (
      print_from-All P each fuel (n / 10) ((b'0' + n % 10) ∷ digits)
        (each (n % 10) (omega arith), k))
]

pub print_nat-All :
    (P : ℕ → Type 0) → ((d : ℕ) → d < 10 → P (b'0' + d)) → (n : ℕ) → All P (print_nat n)
unfolding print_nat
print_nat-All P each n = print_from-All P each (suc n) n [] tt

digit_no_space : (d : ℕ) → d < 10 → is_space (b'0' + d) ≡ false
unfolding is_space
digit_no_space d h = ground arith

pub trim_space-print_nat : (n : ℕ) → trim_space (print_nat n) ≡ print_nat n
trim_space-print_nat n =
    trim_space_of_NoneOf (print_nat n) (print_nat-All (λ c. is_space c ≡ false) digit_no_space n)

pub is_empty-print_nat : (n : ℕ) → is_empty (print_nat n) ≡ false
unfolding print_nat
is_empty-print_nat n = let (c, s, e, d) = print_from-cons (suc n) n [] (omega arith) in rw e refl
