-- ===== src/Risk/Config.antt =====
-- agent-service/app/agents/risk/config/hitl_thresholds.json, as `load_hitl_thresholds` returns it.
use processguard_ai.Incident.{Float}
use processguard_ai.Base.{ℕ, List, [], ◌∷◌, Text, codes}

pub record FloorRule : Type 0 where
  pub below : ℕ
  pub minimum_level : ℕ

pub record RiskConfig : Type 0 where
  pub base_low : ℕ
  pub base_medium : ℕ
  pub base_high : ℕ
  pub default_when_missing : ℕ
  pub rules : List FloorRule
  pub high_severity_confidence_below : ℕ
  pub safety_minimum_level : ℕ
  pub static_margin_high : Float
  pub drift_z_high : Float
  pub medium_fraction : Float
  pub amplifiers : List (Text × Text)

-- 1.0, 10.0 and 0.3 as bit patterns.
abbrev pub float_one : Float
float_one = 0x3ff0000000000000

abbrev pub float_ten : Float
float_ten = 0x4024000000000000

abbrev pub float_three_tenths : Float
float_three_tenths = 0x3fd3333333333333

abbrev pub hitl_thresholds : RiskConfig
hitl_thresholds = record {
  base_low = 1;
  base_medium = 2;
  base_high = 2;
  default_when_missing = 0;
  rules = record { below = 50; minimum_level = 3 } ∷ record { below = 70; minimum_level = 2 } ∷ [];
  high_severity_confidence_below = 85;
  safety_minimum_level = 2;
  static_margin_high = float_one;
  drift_z_high = float_ten;
  medium_fraction = float_three_tenths;
  amplifiers =
      (
        codes "equipment damage",
        codes "mechanical degradation signature present (vibration/pump condition)",
      )
      ∷ (codes "production loss", codes "cooling capacity or flow shortfall affects process output")
      ∷ (codes "chemical imbalance", codes "water chemistry outside normal operating band")
      ∷ (codes "unplanned shutdown", codes "failure mode can escalate to loss of the cooling loop")
      ∷ [];
}
