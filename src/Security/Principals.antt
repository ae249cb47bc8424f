-- ===== src/Security/Principals.antt =====
-- `Principal`: what a validated token says about the caller. The ids in the database are UUIDs, and
-- `uuid_str` is Python's `str` of one.
use processguard_ai.Incident.{Uuid}
use processguard_ai.Base.{
  ◌^◌, ◌%◌, ◌/◌, ℕ, zero, suc, ◌+◌, ◌-◌, List, [], ◌∷◌, ◌++◌, ltb, if◌then◌else◌, Text, codes,
}

-- The `roles` claim: a list, a single text, or absent.
pub data RolesClaim : Type 0 where
  role_list : List Text → RolesClaim
  single_role : Text → RolesClaim
  no_role : RolesClaim

pub record Claims : Type 0 where
  pub iss : Text
  pub site_claim : Text
  pub roles : RolesClaim
  pub preferred_username : Text
  pub name : Text
  pub sub : Text

pub record Principal : Type 0 where
  pub token : Text
  pub payload : Claims

abbrev pub principal_site : Principal → Text
principal_site p = p.payload.site_claim

abbrev first_role : RolesClaim → Text
first_role (role_list []) = []
first_role (role_list (r ∷ rs)) = r
first_role (single_role r) = r
first_role no_role = []

abbrev pub principal_role : Principal → Text
principal_role p = first_role p.payload.roles

abbrev or_text : Text → Text → Text
or_text [] other = other
or_text (c ∷ t) other = c ∷ t

unfoldable pub username : Principal → Text
username p =
    or_text p.payload.preferred_username
      (or_text p.payload.name (or_text p.payload.sub (codes "unknown")))

abbrev hex_digit : ℕ → ℕ
hex_digit d = if ltb d 10 then b'0' + d else b'a' + (d - 10)

abbrev hex_digits : ℕ → ℕ → Text → Text
hex_digits zero n out = out
hex_digits (suc k) n out = hex_digits k (n / 16) (hex_digit (n % 16) ∷ out)

-- 8-4-4-4-12 hexadecimal digits.
unfoldable pub uuid_str : Uuid → Text
uuid_str u =
    let part = λ (width below : ℕ). hex_digits width (u / 16 ^ below) [] in
    part 8 24 ++ b'-' ∷ part 4 20 ++ b'-' ∷ part 4 16 ++ b'-' ∷ part 4 12 ++ b'-' ∷ part 12 0
