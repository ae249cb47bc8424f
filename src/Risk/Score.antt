-- ===== src/Risk/Score.antt =====
-- `hitl_level_for` and `_severity_from`.
use processguard_ai.Incident.{low, medium, high, SensorEntry, Float, Severity}
use processguard_ai.Risk.Config.{float_one, RiskConfig, FloorRule}
use processguard_ai.Base.{
  ℕ, Bool, true, false, ◌&&◌, Option, none, some, List, [], ◌∷◌, ltb, leb, if◌then◌else◌,
}

unfoldable pub base_level : RiskConfig → Severity → ℕ
base_level cfg low = cfg.base_low
base_level cfg medium = cfg.base_medium
base_level cfg high = cfg.base_high

-- Python's `max(a, b)`: the first argument unless the second is greater.
abbrev pub py_max : ℕ → ℕ → ℕ
py_max a b = if ltb a b then b else a

-- The loop over `confidence_floor.rules`.
unfoldable pub confidence_floor : ℕ → ℕ → List FloorRule → ℕ
confidence_floor conf floor [] = floor
confidence_floor conf floor (rule ∷ rules) =
    confidence_floor conf (if ltb conf rule.below then py_max floor rule.minimum_level else floor)
      rules

abbrev pub is_high : Severity → Bool
is_high high = true
is_high _ = false

unfoldable pub hitl_level_for : Severity → Option ℕ → RiskConfig → ℕ
unfolding base_level
hitl_level_for severity confidence cfg =
    let conf : ℕ = elim confidence [ none ↦ cfg.default_when_missing | some c ↦ c ] in
    let floor = confidence_floor conf 1 cfg.rules in
    let raised =
      if is_high severity && ltb conf cfg.high_severity_confidence_below
      then py_max floor cfg.safety_minimum_level
      else floor in
    py_max (base_level cfg severity) raised

-- Division of doubles is the machine's: a parameter.
module _ (fdiv : Float → Float → Float) where
  abbrev pub raise_worst : Float → Float → Option Float → Float
  raise_worst worst threshold none = worst
  raise_worst worst threshold (some score) = py_max worst (fdiv score threshold)

  unfoldable pub worst_score : RiskConfig → Float → List SensorEntry → Float
  worst_score cfg worst [] = worst
  worst_score cfg worst (s ∷ sensors) =
      worst_score cfg
        (raise_worst (raise_worst worst cfg.static_margin_high s.static_margin) cfg.drift_z_high
          s.drift_z)
        sensors

  unfoldable pub severity_from : RiskConfig → List SensorEntry → Severity
  severity_from cfg sensors =
      let worst = worst_score cfg 0 sensors in
      if leb float_one worst then high else if leb cfg.medium_fraction worst then medium else low
