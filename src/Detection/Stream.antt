-- ===== src/Detection/Stream.antt =====
-- agents/detection/agent.py: the stream of readings, and what is done with one. The
-- entries that Redis delivers come with the time of their arrival and with what fails on the way.
use processguard_ai.Incident.{Float}
use processguard_ai.Detection.Correlate.{Observation}
use processguard_ai.Detection.Persist.{register_anomaly}
use processguard_ai.Detection.Scoring.{
  SensorReading, BaselineStats, ScoredReading, compute_baseline, score_reading,
}
use processguard_ai.Base.{
  runtime_error, ℕ, ◌+◌, ◌*◌, Bool, true, false, Option, none, some, List, [], ◌∷◌, ◌++◌,
  if◌then◌else◌, Text, codes, Result, ok, err,
}
use processguard_ai.Detection.Agent.{
  SensorRow, Window, Delivery, DetectionState, Decoded, baseline_ttl_seconds, micros, find_sensor,
  Stamp, get_field, window_of, put_window, trim_window, DetectionAgent,
}

module _ (agent : DetectionAgent) where
  -- `_decode`: the six fields must be there, and the value must be a number.
  unfoldable pub decode : List (Text × Text) → Option Decoded
  decode fields = elim (get_field (codes "sensor_id") fields) [
    | none ↦ none
    | some sensor ↦ elim (get_field (codes "equipment_id") fields) [
      | none ↦ none
      | some equipment ↦ elim (get_field (codes "sensor_type") fields) [
        | none ↦ none
        | some kind ↦ elim (get_field (codes "value") fields) [
          | none ↦ none
          | some text ↦ elim (agent.parse_float text) [
            | none ↦ none
            | some value ↦ elim (get_field (codes "unit") fields) [
              | none ↦ none
              | some unit ↦ elim (get_field (codes "timestamp") fields) [
                | none ↦ none
                | some time ↦ some (record {
                  decoded_sensor = sensor;
                  decoded_value = value;
                  decoded_unit = unit;
                  decoded_timestamp = time;
                })
              ]
            ]
          ]
        ]
      ]
    ]
  ]

  -- `_parse_ts`
  abbrev pub parse_ts : Text → ℕ → Stamp
  parse_ts text now = elim (agent.parse_iso text) [
    | none ↦ record { instant = now; naive = false }
    | some t ↦ t
  ]

  abbrev pub reading_of : SensorRow → Decoded → ℕ → SensorReading
  reading_of row d now = record {
    reading_sensor = row.sensor_key;
    reading_equipment = row.sensor_equipment;
    reading_type = row.sensor_kind;
    reading_value = d.decoded_value;
    reading_unit = d.decoded_unit;
    reading_at = (parse_ts d.decoded_timestamp now).instant;
    reading_naive = (parse_ts d.decoded_timestamp now).naive;
  }

  -- `_update_baseline`. The list is changed before the baseline is computed, which can raise.
  unfoldable pub update_baseline :
      Text → Float → ℕ → Bool → DetectionState → Result BaselineStats × DetectionState
  unfolding window_of put_window trim_window compute_baseline
  update_baseline sensor value now true s = (err runtime_error, s)
  update_baseline sensor value now false s =
      let values =
        trim_window agent.settings.window_size (value ∷ window_of sensor now s.windows) in
      let window : Window = record {
        window_key = sensor;
        window_values = values;
        expires_at = now + baseline_ttl_seconds * micros;
      } in
      (compute_baseline agent.doubles values, record s { windows = put_window window s.windows })

  -- `_persist_reading`, whose failure is logged.
  unfoldable pub persist_reading : SensorReading → Bool → DetectionState → DetectionState
  persist_reading r true s = s
  persist_reading r false s = record s {
    readings =
        s.readings
        ++ record {
          stored_sensor = r.reading_sensor;
          stored_value = r.reading_value;
          stored_at = r.reading_at;
        }
          ∷ [];
  }

  abbrev pub observation_of : ScoredReading → SensorRow → Observation
  observation_of scored row = record {
    observed_equipment = row.sensor_equipment;
    observed_sensor = scored.scored_reading.reading_sensor;
    observed_type = row.sensor_kind;
    observed_at = scored.scored_reading.reading_at;
    observed_naive = scored.scored_reading.reading_naive;
    observed_reason = scored.scored_reason;
    observed_margin = scored.scored_margin;
    observed_drift = scored.scored_drift;
  }

  -- `_register_anomaly`, on the state of the agent.
  abbrev pub register :
      Observation → List Bool → DetectionState → Result (Unit {0}) × DetectionState
  register o faults s =
      let (out, buffer, world) =
        register_anomaly agent.doubles.divide agent.doubles.round agent.settings.retry_attempts
          faults agent.site_of agent.settings.correlation_window agent.settings.max_gap o
          (s.buffer, s.world) in
      (out, record s { buffer = buffer; world = world })

  unfoldable pub score_and_register :
      SensorRow
      → SensorReading
      → BaselineStats
      → Delivery
      → DetectionState
      → Result (Unit {0}) × DetectionState
  unfolding score_reading persist_reading register_anomaly
  score_and_register row r baseline delivery s =
      let stored = persist_reading r delivery.insert_fails s in
      let scored =
        score_reading agent.doubles r row.sensor_thresholds baseline agent.settings.static_z
          agent.settings.drift_z_limit in
      if scored.anomalous
      then register (observation_of scored row) delivery.upsert_faults stored
      else (ok tt, stored)

  -- `_process_reading`
  unfoldable pub process_reading : Delivery → DetectionState → Result (Unit {0}) × DetectionState
  unfolding decode find_sensor update_baseline score_and_register
  process_reading delivery s = elim (decode delivery.fields) [
    | none ↦ (ok tt, s)
    | some d ↦ elim (find_sensor d.decoded_sensor agent.registry) [
      | none ↦ (ok tt, s)
      | some row ↦
          let now = delivery.arrives_at in
          let (out, after) =
            update_baseline d.decoded_sensor d.decoded_value now delivery.pipeline_fails s in
          elim out [
            | err e ↦ (err e, after)
            | ok baseline ↦ score_and_register row (reading_of row d now) baseline delivery after
          ]
    ]
  ]

  abbrev pub arrive : ℕ → DetectionState → DetectionState
  arrive now s = record s { world = record s.world { db = record s.world.db { clock = now } } }

  -- One message of `consume_forever`: whatever its processing raises is logged, and it is acknowledged.
  unfoldable pub consume_message : Delivery → DetectionState → DetectionState
  unfolding process_reading
  consume_message delivery s =
      let after = (process_reading delivery (arrive delivery.arrives_at s)).1 in
      if delivery.ack_fails
      then after
      else record after { acked = after.acked ++ delivery.message_id ∷ [] }

  unfoldable pub consume_messages : List Delivery → DetectionState → DetectionState
  unfolding consume_message
  consume_messages [] s = s
  consume_messages (d ∷ ds) s = consume_messages ds (consume_message d s)

  -- `consume_forever`, for what the reads of the stream return while the agent runs: entries, or an
  -- exception, behind which the agent reads again.
  unfoldable pub consume_forever : List (Option (List Delivery)) → DetectionState → DetectionState
  unfolding consume_messages
  consume_forever [] s = s
  consume_forever (none ∷ rest) s = consume_forever rest s
  consume_forever (some ds ∷ rest) s = consume_forever rest (consume_messages ds s)
