-- ===== src/Tests/Signing.antt =====
-- A signer that writes the payload out in full: each claim is a text, each text ends at a mark, and no
-- character is white space. It stands for PyJWT with the provider's key.
use processguard_ai.Oidc.{Jwt, Signs, NotSpace, Payload, access_claims, refresh_claims, is_current}
use processguard_ai.Base.{
  ℕ, ◌+◌, ◌-◌, ◌≡◌, refl, ap, ◌∙◌, ◌≢◌, Option, none, some, List, [], ◌∷◌, arith, ltb,
  if◌then◌else◌, All, Text,
}

nonce_text : Option Text → Text
nonce_text none = []
nonce_text (some t) = 0 ∷ t

text_nonce : Text → Option Text
text_nonce [] = none
text_nonce (c ∷ t) = some t

fields : Payload → List Text
unfolding nonce_text
fields (access_claims c) =
    (0 ∷ c.iat ∷ c.nbf ∷ c.exp ∷ [])
    ∷ c.iss
    ∷ c.aud
    ∷ c.sub
    ∷ c.name
    ∷ c.preferred_username
    ∷ c.email
    ∷ c.site_id
    ∷ c.site_name
    ∷ c.oid
    ∷ nonce_text c.nonce
    ∷ c.roles
fields (refresh_claims c) = (1 ∷ c.iat ∷ c.exp ∷ []) ∷ c.typ ∷ c.iss ∷ c.aud ∷ c.sub ∷ c.jti ∷ []

of_fields : List Text → Option Payload
unfolding text_nonce
of_fields
      ((kind ∷ iat ∷ nbf ∷ exp ∷ [])
        ∷ iss
        ∷ aud
        ∷ sub
        ∷ name
        ∷ user
        ∷ email
        ∷ site
        ∷ site_name
        ∷ oid
        ∷ nonce
        ∷ roles) =
    some (
      access_claims (record {
        iss = iss;
        aud = aud;
        sub = sub;
        name = name;
        preferred_username = user;
        email = email;
        roles = roles;
        site_id = site;
        site_name = site_name;
        iat = iat;
        nbf = nbf;
        exp = exp;
        oid = oid;
        nonce = text_nonce nonce;
      }))
of_fields ((kind ∷ iat ∷ exp ∷ []) ∷ typ ∷ iss ∷ aud ∷ sub ∷ jti ∷ []) = some (
    refresh_claims
      (record { typ = typ; iss = iss; aud = aud; sub = sub; jti = jti; iat = iat; exp = exp }))
of_fields _ = none

text_nonce-nonce_text : (o : Option Text) → text_nonce (nonce_text o) ≡ o
unfolding text_nonce nonce_text
text_nonce-nonce_text none = refl
text_nonce-nonce_text (some t) = refl

of_fields-fields : (p : Payload) → of_fields (fields p) ≡ some p
unfolding of_fields fields
of_fields-fields (access_claims c) = ground (arith, text_nonce-nonce_text c.nonce)
of_fields-fields (refresh_claims c) = refl

-- A character n is written as n + 34, and the end of a text as 33.
write_text : Text → Text → Text
write_text [] rest = 33 ∷ rest
write_text (c ∷ t) rest = (c + 34) ∷ write_text t rest

write : List Text → Text
unfolding write_text
write [] = 33 ∷ []
write (t ∷ ts) = write_text t (write ts)

abbrev cons_first : ℕ → List Text → List Text
cons_first c [] = []
cons_first c (t ∷ ts) = (c ∷ t) ∷ ts

read : Text → List Text
read [] = []
read (c ∷ s) = let rest = read s in if ltb c 34 then [] ∷ rest else cons_first (c - 34) rest

read-write_text : (t rest : Text) → read (write_text t rest) ≡ t ∷ read rest
unfolding read write_text
read-write_text [] rest = refl
read-write_text (c ∷ t) rest = ground (arith, read-write_text t rest)

drop_last : List Text → List Text
drop_last [] = []
drop_last (t ∷ []) = []
drop_last (t ∷ u ∷ ts) = t ∷ drop_last (u ∷ ts)

-- The last mark leaves one empty text.
abbrev with_mark : List Text → List Text
with_mark [] = [] ∷ []
with_mark (t ∷ ts) = t ∷ with_mark ts

read-write : (ts : List Text) → read (write ts) ≡ with_mark ts
unfolding write
read-write [] = unfold read in refl
read-write (t ∷ ts) = read-write_text t (write ts) ∙ ap (◌∷◌ t) (read-write ts)

drop_last-with_mark : (ts : List Text) → drop_last (with_mark ts) ≡ ts
unfolding drop_last
drop_last-with_mark [] = refl
drop_last-with_mark (t ∷ []) = refl
drop_last-with_mark (t ∷ u ∷ ts) = ap (◌∷◌ t) (drop_last-with_mark (u ∷ ts))

decode_plain : Text → Text → ℕ → Option Payload
unfolding drop_last read of_fields
decode_plain s audience now = elim (of_fields (drop_last (read s))) [
  | none ↦ none
  | some p ↦ if is_current audience now p then some p else none
]

unfoldable pub plain : Jwt
unfolding write fields decode_plain
plain = record { encode = λ p. write (fields p); decode = decode_plain }

write_text-NotSpace : (t rest : Text) → All NotSpace rest → All NotSpace (write_text t rest)
unfolding write_text
write_text-NotSpace [] rest h = (refl, h)
write_text-NotSpace (c ∷ t) rest h = (ground arith, write_text-NotSpace t rest h)

write_text_ne : (t rest : Text) → write_text t rest ≢ []
unfolding write_text
write_text_ne [] rest e = cc
write_text_ne (c ∷ t) rest e = cc

write_ne : (ts : List Text) → write ts ≢ []
unfolding write
write_ne [] e = cc
write_ne (t ∷ ts) e = write_text_ne t (write ts) e

write-NotSpace : (ts : List Text) → All NotSpace (write ts)
unfolding write
write-NotSpace [] = (refl, tt)
write-NotSpace (t ∷ ts) = write_text-NotSpace t (write ts) (write-NotSpace ts)

decode_plain-write :
    (p : Payload) (audience : Text) (now : ℕ)
    → decode_plain (write (fields p)) audience now
      ≡ (if is_current audience now p then some p else none)
decode_plain-write p audience now =
    let back : of_fields (drop_last (read (write (fields p)))) ≡ some p =
      rw (read-write (fields p)) (rw (drop_last-with_mark (fields p)) (of_fields-fields p)) in
    unfold decode_plain in rw (back, decode_plain) refl

pub plain-Signs : Signs plain
unfolding plain
plain-Signs = record {
  decode-encode = decode_plain-write;
  encode_ne = λ p. write_ne (fields p);
  encode-NotSpace = λ p. write-NotSpace (fields p);
}
