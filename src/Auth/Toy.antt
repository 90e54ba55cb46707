-- ===== src/Auth/Toy.antt =====
-- A concrete cryptography, at which the theorems about passwords are applied.
use macftpd.Prelude.{ℕ, zero, suc, ◌≡◌, ◌+◌, ◌-◌, refl, some, [], ◌∷◌, arith, length, ap}
use macftpd.Text.{Text}
use macftpd.Text.Laws.{Lacks}
use macftpd.Auth.Password.{Crypto, IsCrypto}

-- A key that is the password, cut or filled up, and an encoding that moves each byte behind "$".
unfoldable pub pad : ℕ → Text → Text
pad zero s = []
pad (suc n) [] = 0 ∷ pad n []
pad (suc n) (x ∷ s) = x ∷ pad n s

unfoldable pub shift : Text → Text
shift [] = []
shift (x ∷ s) = (x + 37) ∷ shift s

unfoldable pub unshift : Text → Text
unshift [] = []
unshift (x ∷ s) = (x - 37) ∷ unshift s

abbrev pub toy : Crypto
toy = record { key = λ p s n k. pad k p; encode = shift; decode = λ s. some (unshift s) }

pub length-pad : (n : ℕ) (s : Text) → length (pad n s) ≡ n
unfolding pad
length-pad zero s = refl
length-pad (suc n) [] = rw (length-pad n []) (omega arith)
length-pad (suc n) (x ∷ s) = rw (length-pad n s) (omega arith)

pub unshift-shift : (s : Text) → unshift (shift s) ≡ s
unfolding unshift shift
unshift-shift [] = refl
unshift-shift (x ∷ s) = rw (unshift-shift s) (ap (λ y. y ∷ s) (omega arith))

pub shift-Lacks : (s : Text) → Lacks b'$' (shift s)
unfolding shift
shift-Lacks [] = ground arith
shift-Lacks (x ∷ s) = let rest = shift-Lacks s in ground arith

abbrev pub toy-IsCrypto : IsCrypto toy
toy-IsCrypto = record {
  length_key = λ p s n k. length-pad k p;
  decode_encode = λ s. ap (λ t. some t) (unshift-shift s);
  plain = shift-Lacks;
}
