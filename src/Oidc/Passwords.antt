-- ===== src/Oidc/Passwords.antt =====
-- oidc-provider/app/users.py: `hash_password` and `verify_password`. scrypt is a parameter: the digest
-- of a password under a salt. Bytes are numbers below 256.
use processguard_ai.Base.{
  ◌%◌, ◌/◌, text_eq, ℕ, ◌+◌, ◌-◌, ◌*◌, Bool, false, ◌&&◌, ◌||◌, Option, none, some, List, [], ◌∷◌,
  ◌++◌, ltb, leb, ◌==◌, if◌then◌else◌, Text, codes,
}

-- `bytes.hex()`
abbrev pub nibble : ℕ → ℕ
nibble d = if ltb d 10 then b'0' + d else b'a' + (d - 10)

unfoldable pub hex : List ℕ → Text
hex [] = []
hex (b ∷ bs) = nibble (b / 16) ∷ nibble (b % 16) ∷ hex bs

unfoldable pub of_nibble : ℕ → Option ℕ
of_nibble c =
    if leb b'0' c && leb c b'9'
    then some (c - b'0')
    else if leb b'a' c && leb c b'f'
    then some (c - b'a' + 10)
    else if leb b'A' c && leb c b'F'
    then some (c - b'A' + 10)
    else none

abbrev put_byte : Option ℕ → Option ℕ → Option (List ℕ) → Option (List ℕ)
put_byte (some h) (some l) (some bs) = some ((h * 16 + l) ∷ bs)
put_byte _ _ _ = none

abbrev pub is_white : ℕ → Bool
is_white c = c == 32 || leb 9 c && leb c 13

-- `bytes.fromhex(text)`, which skips white space between bytes; `none` is its ValueError.
unfoldable pub from_hex : Text → Option (List ℕ)
unfolding of_nibble
from_hex [] = some []
from_hex (c ∷ []) = if is_white c then some [] else none
from_hex (c ∷ d ∷ s) =
    let skipped = from_hex (d ∷ s) in
    let read = put_byte (of_nibble c) (of_nibble d) (from_hex s) in
    if is_white c then skipped else read

-- The text before the first `$` and the text behind it.
unfoldable pub cut : Text → Option (Text × Text)
cut [] = none
cut (c ∷ s) =
    let rest : Option (Text × Text) = elim (cut s) [
      | none ↦ none
      | some (before, behind) ↦ some (c ∷ before, behind)
    ] in
    if c == b'$' then some ([], s) else rest

module _ (scrypt : Text → List ℕ → List ℕ) where
  -- The salt is `os.urandom(16)`.
  unfoldable pub hash_password : List ℕ → Text → Text
  hash_password salt password = codes "scrypt$" ++ (hex salt ++ (b'$' ∷ hex (scrypt password salt)))

  abbrev check_digest : Text → Text → Option (List ℕ) → Bool
  check_digest password digest_hex none = false
  check_digest password digest_hex (some salt) = text_eq (hex (scrypt password salt)) digest_hex

  -- `stored.split("$", 2)` gives three parts or raises ValueError on unpacking.
  unfoldable pub verify_password : Text → Text → Bool
  unfolding cut from_hex
  verify_password password stored = elim (cut stored) [
    | none ↦ false
    | some (scheme, rest) ↦ elim (cut rest) [
      | none ↦ false
      | some (salt_hex, digest_hex) ↦
          if text_eq scheme (codes "scrypt")
          then check_digest password digest_hex (from_hex salt_hex)
          else false
    ]
  ]
