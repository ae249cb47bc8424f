-- ===== src/Detection/Agent.antt =====
-- agents/detection/agent.py: the sensor registry, the baselines in Redis, and the state of the agent.
use processguard_ai.World.{World}
use processguard_ai.Incident.{Float, Uuid}
use processguard_ai.Security.{uuid_str}
use processguard_ai.Detection.Correlate.{Observation}
use processguard_ai.Detection.Scoring.{Doubles, SensorThresholds}
use processguard_ai.Base.{
  text_eq, ℕ, Bool, Option, none, some, List, [], ◌∷◌, ltb, ◌==◌, if◌then◌else◌, take, Text,
}

-- A row of `Sensors`, with what the two dictionaries of the agent keep of it.
pub record SensorRow : Type 0 where
  pub sensor_key : Uuid
  pub sensor_equipment : Uuid
  pub sensor_kind : Text
  pub sensor_unit : Text
  pub sensor_thresholds : SensorThresholds

pub record DetectionSettings : Type 0 where
  pub static_z : Float
  pub drift_z_limit : Float
  pub window_size : ℕ
  pub correlation_window : ℕ
  pub max_gap : ℕ
  pub retry_attempts : ℕ

-- The Redis list `baseline:{sensor_id}`, newest first.
pub record Window : Type 0 where
  pub window_key : Text
  pub window_values : List Float
  pub expires_at : ℕ

-- A row of `SensorReadings`.
pub record StoredReading : Type 0 where
  pub stored_sensor : Uuid
  pub stored_value : Float
  pub stored_at : ℕ

-- An entry of the stream.
pub record Delivery : Type 0 where
  pub message_id : ℕ
  pub fields : List (Text × Text)
  pub arrives_at : ℕ
  pub pipeline_fails : Bool
  pub insert_fails : Bool
  pub ack_fails : Bool
  pub upsert_faults : List Bool

pub record DetectionState : Type 0 where
  pub windows : List Window
  pub buffer : List Observation
  pub readings : List StoredReading
  pub acked : List ℕ
  pub world : World

pub record Decoded : Type 0 where
  pub decoded_sensor : Text
  pub decoded_value : Float
  pub decoded_unit : Text
  pub decoded_timestamp : Text

abbrev pub baseline_ttl_seconds : ℕ
baseline_ttl_seconds = 3600

-- Times are microseconds.
abbrev pub micros : ℕ
micros = 1000000

-- A row of the registry by the text of its id, which is the primary key.
unfoldable pub find_sensor : Text → List SensorRow → Option SensorRow
find_sensor t [] = none
find_sensor t (r ∷ rs) =
    let rest = find_sensor t rs in if text_eq (uuid_str r.sensor_key) t then some r else rest

abbrev pub get_field : Text → List (Text × Text) → Option Text
get_field key [] = none
get_field key ((k, v) ∷ rest) = if text_eq k key then some v else get_field key rest

-- What is left of a window at a time: nothing once it has expired.
unfoldable pub window_of : Text → ℕ → List Window → List Float
window_of key now [] = []
window_of key now (w ∷ ws) =
    let rest = window_of key now ws in
    if text_eq w.window_key key
    then (if ltb now w.expires_at then w.window_values else [])
    else rest

unfoldable pub put_window : Window → List Window → List Window
put_window new [] = new ∷ []
put_window new (w ∷ ws) =
    let rest = put_window new ws in
    if text_eq w.window_key new.window_key then new ∷ ws else w ∷ rest

-- `LTRIM key 0 size-1`, where an end of -1 is the last element.
unfoldable pub trim_window : ℕ → List Float → List Float
trim_window size values = if size == 0 then values else take size values

-- A `datetime`: its `timestamp()`, and whether it is without a time zone.
pub record Stamp : Type 0 where
  pub instant : ℕ
  pub naive : Bool

-- The agent: its registry and settings, and what it uses that is not modelled: `float` and
-- `datetime.fromisoformat` of a text, the operations on doubles, and the site of an equipment.
pub record DetectionAgent : Type 0 where
  pub parse_float : Text → Option Float
  pub parse_iso : Text → Option Stamp
  pub doubles : Doubles
  pub site_of : Uuid → Uuid
  pub registry : List SensorRow
  pub settings : DetectionSettings
