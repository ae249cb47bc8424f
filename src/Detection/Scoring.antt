-- ===== src/Detection/Scoring.antt =====
-- agents/detection/scoring.py, `compute_baseline` and `score_reading`. A double is its bit pattern, with
-- the sign in bit 63; the comparisons are defined on it, the operations that round are parameters.
use processguard_ai.Incident.{Float, Uuid}
use processguard_ai.Risk.{float_one}
use processguard_ai.Base.{
  ◌%◌, ℕ, Bool, false, not, ◌&&◌, ◌||◌, Option, none, some, List, [], ◌∷◌, ◌++◌, ltb, leb, ◌==◌,
  if◌then◌else◌, Text, codes, Result, ok, err,
}

abbrev sign_bit : ℕ
sign_bit = 0x8000000000000000

-- `abs` of a double.
abbrev pub float_abs : Float → Float
float_abs x = x % sign_bit

abbrev is_negative : Float → Bool
is_negative x = leb sign_bit x

-- The positive infinity is 0x7ff0000000000000.
abbrev is_nan : Float → Bool
is_nan x = ltb 0x7ff0000000000000 (float_abs x)

-- Both zeros are equal, and nothing is less than a NaN or above it.
abbrev ordered_less : Float → Float → Bool
ordered_less a b =
    if is_negative a
    then (if is_negative b
        then ltb (float_abs b) (float_abs a)
        else not (float_abs a == 0 && float_abs b == 0))
    else not (is_negative b) && ltb a b

-- `a < b` of doubles.
unfoldable pub float_ltb : Float → Float → Bool
float_ltb a b = not (is_nan a) && not (is_nan b) && ordered_less a b

-- `a <= b` of doubles.
unfoldable pub float_leb : Float → Float → Bool
float_leb a b = not (is_nan a) && not (is_nan b) && not (ordered_less b a)

-- `max(a, b)` of doubles: the first argument where neither is less.
unfoldable pub float_max : Float → Float → Float
unfolding float_ltb
float_max a b = if float_ltb a b then b else a

-- What the machine and the module `statistics` compute on doubles, `round` to some digits, and the formats `.1%` and `.1f`.
-- `fmean` and `pstdev` can raise.
pub record Doubles : Type 0 where
  pub subtract : Float → Float → Float
  pub multiply : Float → Float → Float
  pub divide : Float → Float → Float
  pub fmean : List Float → Result Float
  pub pstdev : List Float → Result Float
  pub round : ℕ → Float → Float
  pub format_percent : Float → Text
  pub format_fixed : Float → Text

-- `Reading`.
pub record SensorReading : Type 0 where
  pub reading_sensor : Uuid
  pub reading_equipment : Uuid
  pub reading_type : Text
  pub reading_value : Float
  pub reading_unit : Text
  pub reading_at : ℕ
  pub reading_naive : Bool

pub record BaselineStats : Type 0 where
  pub mean : Float
  pub sigma : Float

pub record SensorThresholds : Type 0 where
  pub threshold_min : Float
  pub threshold_max : Float

pub record ScoredReading : Type 0 where
  pub scored_reading : SensorReading
  pub anomalous : Bool
  pub static_anomaly : Bool
  pub drift_anomaly : Bool
  pub scored_margin : Option Float
  pub scored_drift : Option Float
  pub scored_reason : Text

-- `"; ".join(reasons)`
unfoldable pub join_reasons : List Text → Text
join_reasons [] = []
join_reasons (r ∷ []) = r
join_reasons (r ∷ s ∷ rest) = r ++ codes "; " ++ join_reasons (s ∷ rest)

module _ (m : Doubles) where
  -- The double 1e-3 is 0x3f50624dd2f1a9fc.
  unfoldable pub sigma_floor : Float → Float
  unfolding float_max
  sigma_floor mean = m.multiply 0x3f50624dd2f1a9fc (float_max float_one (float_abs mean))

  -- `statistics.pstdev(values)` for two values or more, and 0.0 for one.
  abbrev spread_of : List Float → Result Float
  spread_of [] = ok 0
  spread_of (v ∷ []) = ok 0
  spread_of (v ∷ w ∷ rest) = m.pstdev (v ∷ w ∷ rest)

  unfoldable pub compute_baseline : List Float → Result BaselineStats
  unfolding sigma_floor float_max
  compute_baseline [] = ok (record { mean = 0; sigma = 0 })
  compute_baseline (v ∷ rest) = elim (m.fmean (v ∷ rest)) [
    | err e ↦ err e
    | ok mean ↦ elim (spread_of (v ∷ rest)) [
      | err e ↦ err e
      | ok spread ↦ ok (record { mean = mean; sigma = float_max spread (sigma_floor mean) })
    ]
  ]

  -- The width of the normal band, or the largest of the bounds and 1.0 where there is none.
  unfoldable pub band_of : SensorThresholds → Float
  unfolding float_leb float_max
  band_of t =
      let band = m.subtract t.threshold_max t.threshold_min in
      if float_leb band 0
      then float_max (float_max (float_abs t.threshold_min) (float_abs t.threshold_max)) float_one
      else band

  unfoldable pub overshoot_of : SensorThresholds → Float → Float
  unfolding float_ltb
  overshoot_of t value =
      if float_ltb value t.threshold_min
      then m.subtract t.threshold_min value
      else if float_ltb t.threshold_max value
      then m.subtract value t.threshold_max
      else 0

  -- `overshoot / band` where there is an overshoot.
  unfoldable pub static_margin_of : SensorThresholds → Float → Option Float
  unfolding band_of overshoot_of float_ltb
  static_margin_of t value =
      let overshoot = overshoot_of t value in
      if float_ltb 0 overshoot then some (m.divide overshoot (band_of t)) else none

  unfoldable pub drift_of : BaselineStats → Float → Option Float
  unfolding float_ltb
  drift_of b value =
      if float_ltb 0 b.sigma
      then some (m.divide (float_abs (m.subtract value b.mean)) b.sigma)
      else none

  -- Whether a score is there and above the limit.
  unfoldable pub exceeds : Float → Option Float → Bool
  unfolding float_ltb
  exceeds limit none = false
  exceeds limit (some score) = float_ltb limit score

  abbrev static_reason : Float → Option Float → List Text
  static_reason static_z none = []
  static_reason static_z (some margin) =
      if float_ltb static_z margin
      then (codes "outside normal band by " ++ m.format_percent margin) ∷ []
      else []

  abbrev drift_reason : Float → Option Float → List Text
  drift_reason drift_z none = []
  drift_reason drift_z (some z) =
      if float_ltb drift_z z
      then (codes "drifting from own baseline (" ++ m.format_fixed z ++ codes " sigma)") ∷ []
      else []

  unfoldable pub score_reading :
      SensorReading → SensorThresholds → BaselineStats → Float → Float → ScoredReading
  unfolding static_margin_of drift_of exceeds join_reasons float_ltb
  score_reading r t b static_z drift_z =
      let margin = static_margin_of t r.reading_value in
      let drift = drift_of b r.reading_value in
      record {
        scored_reading = r;
        anomalous = exceeds static_z margin || exceeds drift_z drift;
        static_anomaly = exceeds static_z margin;
        drift_anomaly = exceeds drift_z drift;
        scored_margin = margin;
        scored_drift = drift;
        scored_reason = join_reasons (static_reason static_z margin ++ drift_reason drift_z drift);
      }
