-- ===== src/Security/Policy.antt =====
-- `RbacPolicy` and config/rbac-policy.json.
use processguard_ai.Base.{text_eq, ℕ, Bool, List, [], ◌∷◌, if◌then◌else◌, any, Text, codes}

pub record RbacPolicy : Type 0 where
  pub max_approval_level : List (Text × ℕ)
  pub incident_read_roles : List Text
  pub chat_roles : List Text
  pub resolve_roles : List Text
  pub simulator_roles : List Text

abbrev lookup_level : Text → List (Text × ℕ) → ℕ
lookup_level role [] = 0
lookup_level role ((name, level) ∷ rest) =
    if text_eq name role then level else lookup_level role rest

-- `self.max_approval_level.get(role, 0)`
unfoldable pub level_for : RbacPolicy → Text → ℕ
level_for policy role = lookup_level role policy.max_approval_level

abbrev pub has_role : Text → List Text → Bool
has_role role allowed = any (λ r. text_eq r role) allowed

abbrev pub operator : Text
operator = codes "Operator"

abbrev pub maintenance_engineer : Text
maintenance_engineer = codes "MaintenanceEngineer"

abbrev pub plant_manager : Text
plant_manager = codes "PlantManager"

abbrev pub rbac_policy : RbacPolicy
rbac_policy = record {
  max_approval_level = (operator, 0) ∷ (maintenance_engineer, 2) ∷ (plant_manager, 3) ∷ [];
  incident_read_roles = operator ∷ maintenance_engineer ∷ plant_manager ∷ [];
  chat_roles = operator ∷ maintenance_engineer ∷ plant_manager ∷ [];
  resolve_roles = maintenance_engineer ∷ plant_manager ∷ [];
  simulator_roles = maintenance_engineer ∷ plant_manager ∷ [];
}
