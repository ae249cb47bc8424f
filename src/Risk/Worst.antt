-- ===== src/Risk/Worst.antt =====
-- `_severity_from` against the scores that it reads.
use processguard_ai.Risk.Score.{severity_from, raise_worst, worst_score}
use processguard_ai.Incident.{high, SensorEntry, Float}
use processguard_ai.Risk.Config.{float_one, RiskConfig}
use processguard_ai.Base.{
  ◌↔◌, ◌≤◌, ◌<◌, ◌≡◌, refl, ◌⊎◌, inl, inr, Option, none, some, List, [], ◌∷◌, arith, ltb,
  Bool-cases,
}

-- A threshold is positive and finite.
abbrev pub IsThreshold : Float → Type 0
IsThreshold c = (0 < c) × (c < 0x7ff0000000000000)

-- A score of the sensor reaches its threshold.
abbrev pub Reaches : RiskConfig → SensorEntry → Type 0
Reaches cfg s =
    ((m : Float) × (s.static_margin ≡ some m) × (cfg.static_margin_high ≤ m))
    ⊎ ((z : Float) × (s.drift_z ≡ some z) × (cfg.drift_z_high ≤ z))

abbrev pub SomeReaches : RiskConfig → List SensorEntry → Type 0
SomeReaches cfg [] = ⊥
SomeReaches cfg (s ∷ sensors) = Reaches cfg s ⊎ SomeReaches cfg sensors

module _ (fdiv : Float → Float → Float)
    (fdiv_one : (x c : Float) → IsThreshold c → (float_one ≤ fdiv x c) ↔ (c ≤ x)) where
  -- One optional score against its threshold.
  abbrev Hits : Option Float → Float → Type 0
  Hits score threshold = (x : Float) × (score ≡ some x) × (threshold ≤ x)

  raise_high :
      (worst threshold : Float) (score : Option Float)
      → IsThreshold threshold
      → (float_one ≤ raise_worst fdiv worst threshold score)
        ↔ ((float_one ≤ worst) ⊎ Hits score threshold)
  raise_high worst threshold none t =
      (λ h. inl h, λ e. elim e [ inl w ↦ w | inr (x, none_some, _) ↦ cc ])
  raise_high worst threshold (some x) t =
      let (over, under) = fdiv_one x threshold t in
      (
        λ h. elim (Bool-cases (ltb worst (fdiv x threshold))) [
          | inl up ↦ inr (x, refl, over (rw up at h))
          | inr stays ↦ inl (rw stays at h)
        ],
        λ e. elim e [
          | inl w ↦ ground arith
          | inr (y, same, reached) ↦
              let le : threshold ≤ x = ground arith in ground (arith, under le)
        ],
      )

  worst_high :
      (cfg : RiskConfig) (worst : Float) (sensors : List SensorEntry)
      → IsThreshold cfg.static_margin_high
      → IsThreshold cfg.drift_z_high
      → (float_one ≤ worst_score fdiv cfg worst sensors)
        ↔ ((float_one ≤ worst) ⊎ SomeReaches cfg sensors)
  unfolding worst_score
  worst_high cfg worst [] tm tz = (λ h. inl h, λ e. elim e [ inl w ↦ w | inr x ↦ absurd x ])
  worst_high cfg worst (s ∷ sensors) tm tz =
      let first = raise_worst fdiv worst cfg.static_margin_high s.static_margin in
      let (margin_down, margin_up) = raise_high worst cfg.static_margin_high s.static_margin tm in
      let (z_down, z_up) = raise_high first cfg.drift_z_high s.drift_z tz in
      let (down, up) =
        worst_high cfg
          (raise_worst fdiv (raise_worst fdiv worst cfg.static_margin_high s.static_margin)
            cfg.drift_z_high s.drift_z)
          sensors tm tz in
      (
        λ h. elim (down h) [
          | inr later ↦ inr (inr later)
          | inl now ↦ elim (z_down now) [
            | inr z ↦ inr (inl (inr z))
            | inl m ↦ elim (margin_down m) [ inl w ↦ inl w | inr m' ↦ inr (inl (inl m')) ]
          ]
        ],
        λ e. up (elim e [
          | inl w ↦ inl (z_up (inl (margin_up (inl w))))
          | inr (inl (inl m)) ↦ inl (z_up (inl (margin_up (inr m))))
          | inr (inl (inr z)) ↦ inl (z_up (inr z))
          | inr (inr later) ↦ inr later
        ]),
      )

  -- Where the two thresholds are positive and finite, and a quotient of doubles by such a threshold
  -- reaches 1.0 exactly when its numerator reaches the threshold, an incident is of high severity
  -- exactly when some flagged sensor has a static margin or a drift score that reaches its configured
  -- threshold.
  pub severity_from-high_iff :
      (cfg : RiskConfig) (sensors : List SensorEntry)
      → IsThreshold cfg.static_margin_high
      → IsThreshold cfg.drift_z_high
      → (severity_from fdiv cfg sensors ≡ high) ↔ SomeReaches cfg sensors
  unfolding severity_from
  severity_from-high_iff cfg sensors tm tz =
      let (down, up) = worst_high cfg 0 sensors tm tz in
      (
        λ h. elim (down (ground arith)) [ inl zero_high ↦ absurd (omega arith) | inr r ↦ r ],
        λ r. let reached = up (inr r) in ground arith,
      )
