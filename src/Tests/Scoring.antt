-- ===== src/Tests/Scoring.antt =====
-- The Risk Agent's scoring and the mapping of actions.
use processguard_ai.Risk.Level.{hitl_level_for_tiers, hitl_level_for-antitone}
use processguard_ai.Risk.Worst.{severity_from-high_iff, SomeReaches, IsThreshold}
use processguard_ai.Tests.Samples.{sensor}
use processguard_ai.Risk.{hitl_thresholds, float_one, severity_from, hitl_level_for}
use processguard_ai.Incident.{low, high, Float}
use processguard_ai.Base.{◌↔◌, ◌≤◌, ◌<◌, ◌≡◌, none, some, [], ◌∷◌, arith, leb, if◌then◌else◌}

-- A division that is exact about reaching 1.0.
abbrev fdiv : Float → Float → Float
fdiv x c = if leb c x then float_one else 0

fdiv_one : (x c : Float) → IsThreshold c → (float_one ≤ fdiv x c) ↔ (c ≤ x)
fdiv_one x c t = (λ h. ground arith, λ h. ground arith)

hitl_level_for-antitone_example :
    hitl_level_for high (some 87) hitl_thresholds ≤ hitl_level_for high (some 40) hitl_thresholds
hitl_level_for-antitone_example = hitl_level_for-antitone high 40 87 hitl_thresholds (omega arith)

hitl_level_for_tiers_example :
    let level = hitl_level_for low (some 70) hitl_thresholds in
    (1 ≤ level)
    × (level ≤ 3)
    × ((level ≡ 1) ↔ ((low ≡ low) × (70 ≤ 70)))
    × ((level ≡ 3) ↔ (70 < 50))
    × (hitl_level_for low none hitl_thresholds ≡ 3)
hitl_level_for_tiers_example = hitl_level_for_tiers low 70

severity_from-high_iff_example :
    (severity_from fdiv hitl_thresholds (sensor ∷ []) ≡ high)
    ↔ SomeReaches hitl_thresholds (sensor ∷ [])
severity_from-high_iff_example =
    severity_from-high_iff fdiv fdiv_one hitl_thresholds (sensor ∷ []) (omega arith) (omega arith)
