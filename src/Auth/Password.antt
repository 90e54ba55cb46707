-- ===== src/Auth/Password.antt =====
-- internal/auth/auth.go: `HashPassword` and `VerifyPassword`. The key derivation of golang.org/x/crypto
-- and Go's base64 encoding are parameters.
use macftpd.Prelude.{
  ℕ, ◌+◌, ◌-◌, ◌*◌, ◌^◌, ◌≡◌, Bool, false, ◌&&◌, not, Option, none, some, List, [], ◌∷◌, arith,
  length, leb, ◌==◌, if◌then◌else◌, ap, ◌∙◌, All,
}
use macftpd.Text.{Text, codes, split, join, ◌=ₜ◌, is_space}
use macftpd.Text.Laws.{Lacks, split-join}

pub record Crypto : Type 0 where
  -- `pbkdf2.Key(password, salt, iterations, length, sha256.New)`
  pub key : Text → Text → ℕ → ℕ → Text
  -- `base64.RawStdEncoding`
  pub encode : Text → Text
  pub decode : Text → Option Text

-- What their documentation says: a key has the length that is asked for, decoding undoes encoding, and
-- the alphabet of base64 has no "$".
pub record IsCrypto (c : Crypto) : Type 0 where
  pub length_key : (p s : Text) (n k : ℕ) → length (c.key p s n k) ≡ k
  pub decode_encode : (s : Text) → c.decode (c.encode s) ≡ some s
  pub plain : (s : Text) → Lacks b'$' (c.encode s)

abbrev is_digit : ℕ → Bool
is_digit d = leb b'0' d && leb d b'9'

-- the digits at the start of a text
unfoldable pub scan_digits : ℕ → Text → ℕ
scan_digits n [] = n
scan_digits n (d ∷ s) =
    let rest = scan_digits (n * 10 + (d - b'0')) s in if is_digit d then rest else n

abbrev starts_with_digit : Text → Bool
starts_with_digit [] = false
starts_with_digit (d ∷ s) = is_digit d

-- A number of more than 63 bits is an error.
unfoldable pub scan_number : Text → Option ℕ
unfolding scan_digits
scan_number s =
    if starts_with_digit s
    then (let n = scan_digits 0 s in if leb (2 ^ 63) n then none else some n)
    else none

-- `fmt.Sscanf(s, "%d", &n)`: blanks, though no line ends, then a sign, then digits; what follows is not
-- read. A number that is not positive is `none`, as an error is: the caller refuses both.
unfoldable pub scan_positive : Text → Option ℕ
unfolding scan_number
scan_positive [] = none
scan_positive (c ∷ s) =
    let rest = scan_positive s in
    if c == 10
    then none
    else if is_space c
    then rest
    else elim (if c == b'+' then scan_number s else scan_number (c ∷ s)) [
      | none ↦ none
      | some n ↦ if leb n 0 then none else some n
    ]

abbrev pub hash_iterations : ℕ
hash_iterations = 210000

abbrev pub hash_key_bytes : ℕ
hash_key_bytes = 32

abbrev scheme : Text
scheme = codes "pbkdf2-sha256"

module _ (c : Crypto) where
  -- with the salt that was read, if it could be
  unfoldable pub hash_password : Option Text → Text → Option Text
  hash_password none password = none
  hash_password (some salt) password = some (
      join b'$' (
        scheme
        ∷ codes "210000"
        ∷ c.encode salt
        ∷ c.encode (c.key password salt hash_iterations hash_key_bytes)
        ∷ []))

  -- the end of `VerifyPassword`
  abbrev compare_key : Text → ℕ → Option Text → Option Text → Bool
  compare_key password iterations none expected = false
  compare_key password iterations (some salt) none = false
  compare_key password iterations (some salt) (some expected) =
      c.key password salt iterations (length expected) =ₜ expected

  abbrev verify_parts : Text → List Text → Bool
  verify_parts password (name ∷ count ∷ salt ∷ key ∷ []) =
      if not (name =ₜ scheme) then false else elim (scan_positive count) [
        | none ↦ false
        | some iterations ↦ compare_key password iterations (c.decode salt) (c.decode key)
      ]
  verify_parts password _ = false

  unfoldable pub verify_password : Text → Text → Bool
  verify_password encoded password = verify_parts password (split b'$' encoded)

  module _ (ok : IsCrypto c) where
    parts_plain :
        (salt key : Text)
        → All (Lacks b'$') (scheme ∷ codes "210000" ∷ c.encode salt ∷ c.encode key ∷ [])
    unfolding codes
    parts_plain salt key = (omega arith, (omega arith, (ok.plain salt, (ok.plain key, tt))))

    verify_stored :
        (salt key password : Text)
        → verify_parts password (scheme ∷ codes "210000" ∷ c.encode salt ∷ c.encode key ∷ [])
          ≡ compare_key password hash_iterations (some salt) (some key)
    unfolding codes ◌=ₜ◌ scan_positive is_space
    verify_stored salt key password = rw (ok.decode_encode salt, ok.decode_encode key)

    -- A hash that was made from a password and a salt, checked against another password, is accepted exactly if
    -- the other password derives the same key with that salt.
    pub verify_password-hash_password :
        (salt password other hash : Text)
        → hash_password (some salt) password ≡ some hash
        → verify_password hash other ≡ (
            c.key other salt hash_iterations hash_key_bytes
            =ₜ c.key password salt hash_iterations hash_key_bytes)
    unfolding hash_password verify_password
    verify_password-hash_password salt password other hash h =
        let k : Text = c.key password salt hash_iterations hash_key_bytes in
        let same : hash ≡ join b'$' (scheme ∷ codes "210000" ∷ c.encode salt ∷ c.encode k ∷ []) =
          cc in
        rw same (
          ap (verify_parts other) (
            split-join b'$' scheme (codes "210000" ∷ c.encode salt ∷ c.encode k ∷ [])
              (parts_plain salt k))
          ∙ verify_stored salt k other
          ∙ rw (ok.length_key password salt hash_iterations hash_key_bytes))
