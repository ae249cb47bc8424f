-- ===== src/Oidc/Stored.antt =====
-- oidc-provider/app/users.py: what `verify_password` says of a hash that `hash_password` made.
use processguard_ai.Oidc.{
  hex, of_nibble, nibble, is_white, from_hex, cut, hash_password, verify_password,
}
use processguard_ai.Base.{
  ◌%◌, text_eq, ◌/◌, ℕ, ◌<◌, ◌≡◌, refl, false, some, List, [], ◌∷◌, ◌++◌, arith, ◌==◌, All, Text,
}

abbrev pub IsByte : ℕ → Type 0
IsByte b = b < 256

of_nibble-nibble : (d : ℕ) → d < 16 → of_nibble (nibble d) ≡ some d
unfolding of_nibble
of_nibble-nibble d h = ground arith

nibble-ne-white : (d : ℕ) → is_white (nibble d) ≡ false
nibble-ne-white d = ground arith

nibble-ne-dollar : (d : ℕ) → (nibble d == b'$') ≡ false
nibble-ne-dollar d = ground arith

from_hex-hex : (bs : List ℕ) → All IsByte bs → from_hex (hex bs) ≡ some bs
unfolding from_hex hex
from_hex-hex [] h = refl
from_hex-hex (b ∷ bs) h = ground (
  arith,
  nibble-ne-white (b / 16),
  of_nibble-nibble (b / 16),
  of_nibble-nibble (b % 16),
  from_hex-hex bs h.1,
)

-- The hexadecimal part ends at the first `$`.
cut-hex : (bs : List ℕ) (rest : Text) → cut (hex bs ++ (b'$' ∷ rest)) ≡ some (hex bs, rest)
unfolding cut hex
cut-hex [] rest = refl
cut-hex (b ∷ bs) rest =
    ground (arith, nibble-ne-dollar (b / 16), nibble-ne-dollar (b % 16), cut-hex bs rest)

-- A stored hash, whose salt is of bytes, accepts exactly the passwords with the same scrypt digest
-- in hexadecimal: it splits into the scheme, the salt and the digest that were put in.
pub verify_password-hash_password :
    (scrypt : Text → List ℕ → List ℕ) (salt : List ℕ) (password given : Text)
    → All IsByte salt
    → verify_password scrypt given (hash_password scrypt salt password)
      ≡ text_eq (hex (scrypt given salt)) (hex (scrypt password salt))
unfolding verify_password hash_password
verify_password-hash_password scrypt salt password given bytes =
    rw (cut-hex salt (hex (scrypt password salt)), verify_password)
      (rw (from_hex-hex salt bytes, verify_password) refl)
