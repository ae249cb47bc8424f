-- ===== src/Risk/Level.antt =====
-- What the HITL level promises: it stays within the three tiers, low confidence never lowers it, and
-- only a confident low-severity diagnosis passes without a human.
use processguard_ai.Incident.{high, medium, low, Severity}
use processguard_ai.Risk.Config.{RiskConfig, hitl_thresholds, FloorRule}
use processguard_ai.Risk.Score.{py_max, hitl_level_for, confidence_floor}
use processguard_ai.Base.{
  ◌↔◌, ℕ, ◌≤◌, ◌<◌, ◌≡◌, refl, none, some, List, [], ◌∷◌, arith, ltb, if◌then◌else◌,
}

floor_grows : (conf floor : ℕ) (rules : List FloorRule) → floor ≤ confidence_floor conf floor rules
unfolding confidence_floor
floor_grows conf floor [] = omega arith
floor_grows conf floor (r ∷ rules) = ground (
  arith,
  floor_grows conf (if ltb conf r.below then py_max floor r.minimum_level else floor) rules,
)

floor_antitone :
    (lo hi f g : ℕ) (rules : List FloorRule)
    → lo ≤ hi
    → g ≤ f
    → confidence_floor hi g rules ≤ confidence_floor lo f rules
unfolding confidence_floor
floor_antitone lo hi f g [] h k = k
floor_antitone lo hi f g (r ∷ rules) h k =
    floor_antitone lo hi (if ltb lo r.below then py_max f r.minimum_level else f)
      (if ltb hi r.below then py_max g r.minimum_level else g) rules h (ground arith)

-- Under any configuration, a less confident diagnosis of the same severity is never gated at a lower
-- level.
pub hitl_level_for-antitone :
    (severity : Severity) (lo hi : ℕ) (cfg : RiskConfig)
    → lo ≤ hi
    → hitl_level_for severity (some hi) cfg ≤ hitl_level_for severity (some lo) cfg
unfolding hitl_level_for
hitl_level_for-antitone severity lo hi cfg h =
    ground (arith, floor_antitone lo hi 1 1 cfg.rules h (omega arith))

-- Under the shipped configuration the level is 1, 2 or 3; it is 1 exactly for a low severity with a
-- confidence of at least 70, and 3 exactly for a confidence below 50 or none.
pub hitl_level_for_tiers :
    (severity : Severity) (confidence : ℕ)
    → let level = hitl_level_for severity (some confidence) hitl_thresholds in
      (1 ≤ level)
      × (level ≤ 3)
      × ((level ≡ 1) ↔ ((severity ≡ low) × (70 ≤ confidence)))
      × ((level ≡ 3) ↔ (confidence < 50))
      × (hitl_level_for severity none hitl_thresholds ≡ 3)
unfolding hitl_level_for confidence_floor
hitl_level_for_tiers low c = (ground arith, ground arith, ground arith, ground arith, refl)
hitl_level_for_tiers medium c = (ground arith, ground arith, ground arith, ground arith, refl)
hitl_level_for_tiers high c = (ground arith, ground arith, ground arith, ground arith, refl)
