-- ===== src/Tests/Noticing.antt =====
-- The stream of readings: one that is outside its band, and one that cannot be read.
use processguard_ai.Incident.{Float}
use processguard_ai.Security.{uuid_str}
use processguard_ai.Detection.{
  prune_buffer, Doubles, SensorRow, DetectionAgent, DetectionState, Delivery, Decoded,
  BaselineStats, decode, find_sensor, update_baseline, static_margin_of, band_of, overshoot_of,
  float_ltb, float_leb, compute_baseline, sigma_floor, float_max, trim_window, window_of,
  put_window, consume_message, consume_forever,
}
use processguard_ai.Detection.Opens.{HasOpen}
use processguard_ai.Detection.Noticed.{consume_message-opens}
use processguard_ai.Detection.Steady.{consume_forever-IsSteady, IsSteady}
use processguard_ai.Base.{
  text_eq, ℕ, ◌≡◌, refl, true, false, none, some, [], ◌∷◌, arith, ◌==◌, if◌then◌else◌, Text, codes,
  ok,
}

-- The doubles 10.0, 40.0, 50.0, 60.0 and 0.25, and 0.05 and 3.0 for the two limits.
abbrev double_10 : Float
double_10 = 0x4024000000000000

abbrev double_40 : Float
double_40 = 0x4044000000000000

abbrev double_50 : Float
double_50 = 0x4049000000000000

abbrev double_60 : Float
double_60 = 0x404e000000000000

abbrev quarter : Float
quarter = 0x3fd0000000000000

-- The operations, on what the example needs of them.
abbrev few_doubles : Doubles
few_doubles = record {
  subtract = λ a b. if a == double_60 then double_10 else double_40;
  multiply = λ a b. quarter;
  divide = λ a b. quarter;
  fmean = λ values. ok double_60;
  pstdev = λ values. ok 0;
  round = λ digits x. x;
  format_percent = λ x. codes "25.0%";
  format_fixed = λ x. codes "0.2";
}

abbrev thermometer : SensorRow
thermometer = record {
  sensor_key = 7;
  sensor_equipment = 4;
  sensor_kind = codes "temperature";
  sensor_unit = codes "degC";
  sensor_thresholds = record { threshold_min = double_10; threshold_max = double_50 };
}

abbrev detector : DetectionAgent
detector = record {
  parse_float = λ t. if text_eq t (codes "60.0") then some double_60 else none;
  parse_iso = λ t. some (record { instant = 990; naive = false });
  doubles = few_doubles;
  site_of = λ e. 12;
  registry = thermometer ∷ [];
  settings = record {
    static_z = 0x3fa999999999999a;
    drift_z_limit = 0x4008000000000000;
    window_size = 40;
    correlation_window = 60;
    max_gap = 100;
    retry_attempts = 3;
  };
}

abbrev quiet_state : DetectionState
quiet_state = record {
  windows = [];
  buffer = [];
  readings = [];
  acked = [];
  world = record {
    db = record {
      incidents = [];
      history = [];
      approvals = [];
      audit = [];
      actions = [];
      historical = [];
      clock = 1;
      next_uuid = 20;
    };
    net = [];
    bus = [];
    bus_faults = [];
  };
}

-- A delivery of a value, whose first upsert fails.
abbrev delivery : ℕ → Text → Delivery
delivery n value = record {
  message_id = n;
  fields =
      (codes "sensor_id", uuid_str 7)
      ∷ (codes "equipment_id", codes "pump")
      ∷ (codes "sensor_type", codes "temperature")
      ∷ (codes "value", value)
      ∷ (codes "unit", codes "degC")
      ∷ (codes "timestamp", codes "now")
      ∷ [];
  arrives_at = 1000;
  pipeline_fails = false;
  insert_fails = true;
  ack_fails = false;
  upsert_faults = true ∷ [];
}

abbrev read_60 : Decoded
read_60 = record {
  decoded_sensor = uuid_str 7;
  decoded_value = double_60;
  decoded_unit = codes "degC";
  decoded_timestamp = codes "now";
}

abbrev baseline_60 : BaselineStats
baseline_60 = record { mean = double_60; sigma = quarter }

consume_message-opens_example :
    HasOpen 4 (consume_message detector (delivery 1 (codes "60.0")) quiet_state).world.db.incidents
unfolding uuid_str decode find_sensor update_baseline compute_baseline static_margin_of band_of
    overshoot_of float_ltb float_leb sigma_floor float_max trim_window window_of put_window
    prune_buffer
consume_message-opens_example =
    consume_message-opens detector (delivery 1 (codes "60.0")) quiet_state read_60 thermometer
      baseline_60 quarter refl refl refl refl refl (omega arith) (omega arith) (omega arith) refl
      refl

consume_forever-IsSteady_example : IsSteady detector (1 ∷ 2 ∷ 3 ∷ []) (
    consume_forever detector
      (some (delivery 1 (codes "60.0") ∷ delivery 2 (codes "sixty") ∷ [])
        ∷ none
        ∷ some (delivery 3 (codes "60.0") ∷ [])
        ∷ [])
      quiet_state)
consume_forever-IsSteady_example =
    consume_forever-IsSteady detector
      (some (delivery 1 (codes "60.0") ∷ delivery 2 (codes "sixty") ∷ [])
        ∷ none
        ∷ some (delivery 3 (codes "60.0") ∷ [])
        ∷ [])
      [] quiet_state (omega arith) (tt, tt, refl)

-- The doubles -1.0 and 0.5, the zeros, and a NaN.
negative_below : float_ltb 0xbff0000000000000 0x3fe0000000000000 ≡ true
unfolding float_ltb
negative_below = refl

zeros_equal : float_ltb 0x8000000000000000 0 ≡ false
unfolding float_ltb
zeros_equal = refl

nan_unordered : float_leb 0x7ff8000000000000 0x7ff8000000000000 ≡ false
unfolding float_leb
nan_unordered = refl
