-- ===== src/Oidc/Users.antt =====
-- oidc-provider/app/users.py: the seeded identities and their lookup by email.
use Prim.Native.String.{String}
use mathlib.Core.Path.{subst}
use processguard_ai.Base.{
  lstrip, strip, text_eq, lower, ◌≡◌, refl, inl, inr, Option, none, some, List, [], ◌∷◌, arith,
  if◌then◌else◌, Bool-cases, All, Text, codes,
}

pub record User : Type 0 where
  pub email : Text
  pub password : Text
  pub role : Text
  pub site_id : Text
  pub display_name : Text

abbrev pub site_12_id : Text
site_12_id = codes "11111111-1111-1111-1111-111111111111"

abbrev pub site_07_id : Text
site_07_id = codes "22222222-2222-2222-2222-222222222222"

abbrev seeded : String → String → String → Text → String → User
seeded email password role site display = record {
  email = codes email;
  password = codes password;
  role = codes role;
  site_id = site;
  display_name = codes display;
}

unfoldable pub users : List User
users =
    seeded "operator@site12.demo" "operator-pass" "Operator" site_12_id "Site 12 Operator"
    ∷ seeded "maintenance@site12.demo" "maintenance-pass" "MaintenanceEngineer" site_12_id
        "Site 12 Maintenance Engineer"
    ∷ seeded "manager@site12.demo" "manager-pass" "PlantManager" site_12_id "Site 12 Plant Manager"
    ∷ seeded "operator@site07.demo" "operator07-pass" "Operator" site_07_id "Site 07 Operator"
    ∷ []

-- `SITES.get(site_id, "")`
unfoldable pub site_name : Text → Text
site_name site =
    if text_eq site site_12_id
    then codes "Site 12 - Paper Mill Cooling Tower"
    else if text_eq site site_07_id
    then codes "Site 07 - Leather Tannery Effluent Line"
    else []

-- A lookup in `_INDEX`; the emails differ.
unfoldable pub indexed : Text → List User → Option User
indexed key [] = none
indexed key (u ∷ us) = let rest = indexed key us in if text_eq u.email key then some u else rest

unfoldable pub find_user : Text → Option User
unfolding indexed users
find_user email = indexed (lower (strip email)) users

indexed-All {κ} :
    (P : User → Type κ) (key : Text) (us : List User) (u : User)
    → All P us
    → indexed key us ≡ some u
    → P u
unfolding indexed
indexed-All P key [] u all h = cc
indexed-All P key (x ∷ us) u all h = elim (Bool-cases (text_eq x.email key)) [
  | inl here ↦ let same : x ≡ u = ground arith in subst P same all.0
  | inr there ↦ indexed-All P key us u all.1 (rw there at h)
]

pub find_user-All {κ} :
    (P : User → Type κ) (email : Text) (u : User) → All P users → find_user email ≡ some u → P u
unfolding find_user
find_user-All P email u = indexed-All P (lower (strip email)) users u

abbrev IsFound : User → Type 0
IsFound u = find_user u.email ≡ some u

-- A user is found again under the email of the record.
pub find_user_again :
    (email : Text) (u : User) → find_user email ≡ some u → find_user u.email ≡ some u
unfolding find_user users lower strip lstrip
find_user_again email u = find_user-All IsFound email u (refl, (refl, (refl, (refl, tt))))
