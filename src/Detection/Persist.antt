-- ===== src/Detection/Persist.antt =====
-- agents/detection/agent.py: the buffer, the incident of a correlated anomaly, and the upsert. What a
-- database error does to an attempt is a list of faults, as for the bus.
use processguard_ai.World.{anomaly_detected, publish_safely, World}
use processguard_ai.Db.{uuid_text, set_incident, Db}
use processguard_ai.Risk.{float_three_tenths, float_one, float_ten}
use processguard_ai.Detection.Correlate.{correlate_anomalies, CorrelatedAnomaly, Observation}
use processguard_ai.Incident.{
  opened, low, medium, high, resolved, Severity, SensorEntry, status_eq, Incident, Uuid, Float,
}
use processguard_ai.Detection.Scoring.{float_max, float_leb}
use processguard_ai.Base.{
  type_error, any, runtime_error, ℕ, zero, suc, ◌+◌, ◌*◌, Bool, true, not, ◌&&◌, Option, none, some,
  List, [], ◌∷◌, ◌++◌, map, ltb, ◌==◌, if◌then◌else◌, keep, Result, ok, err,
}

-- `_prune_buffer`: strictly younger than three times the gap.
unfoldable pub prune_buffer : ℕ → ℕ → List Observation → List Observation
prune_buffer max_gap now buffer = keep (λ o. ltb now (o.observed_at + max_gap * 3)) buffer

-- `freshest`, a dict by sensor: a later entry for a sensor takes the place of the earlier one.
unfoldable pub keep_freshest : Observation → List Observation → List Observation
keep_freshest o [] = o ∷ []
keep_freshest o (x ∷ xs) =
    let rest = keep_freshest o xs in
    if x.observed_sensor == o.observed_sensor
    then (if ltb x.observed_at o.observed_at then o ∷ xs else x ∷ xs)
    else x ∷ rest

unfoldable pub freshest_of : List Observation → List Observation → List Observation
freshest_of [] kept = kept
freshest_of (o ∷ os) kept = freshest_of os (keep_freshest o kept)

-- SELECT … WHERE "EquipmentId" = $1 AND "Status" <> 'resolved' ORDER BY "DetectedAt" DESC LIMIT 1
abbrev pub is_open_for : Uuid → Incident → Bool
is_open_for e i = i.equipment_id == e && not (status_eq i.status resolved)

abbrev later : Incident → Option Incident → Incident
later i none = i
later i (some best) = if ltb i.detected_at best.detected_at then best else i

unfoldable pub open_incident : Uuid → List Incident → Option Incident
open_incident e [] = none
open_incident e (i ∷ is) =
    let rest = open_incident e is in if is_open_for e i then some (later i rest) else rest

abbrev new_incident : Uuid → Uuid → Uuid → Severity → List SensorEntry → ℕ → Incident
new_incident u site e severity summary now = record {
  id = u;
  site_id = site;
  equipment_id = e;
  status = opened;
  severity = severity;
  detected_at = now;
  anomaly_summary = some summary;
  evidence = none;
  root_cause_hypothesis = none;
  confidence = none;
  cited_evidence = none;
  risk_severity = none;
  consequences = none;
  hitl_level = none;
  required_approval_level = none;
  recommended_actions = none;
  rationale = none;
  tool_call_log = none;
  risk_assessed_at = none;
  recommended_at = none;
  action_executed_at = none;
  resolved_at = none;
  updated_at = now;
  estimated_cost = none;
}

-- One attempt of `_upsert_incident`: the transaction. `site_of` is the equipment's site.
unfoldable pub upsert_once : (Uuid → Uuid) → Uuid → Severity → List SensorEntry → Db → Uuid × Db
upsert_once site_of e severity summary db = elim (open_incident e db.incidents) [
  | some i ↦ (
    i.id,
    set_incident i.id
        (λ r. record r {
          anomaly_summary = some summary;
          severity = severity;
          updated_at = db.clock;
        })
        db,
  )
  | none ↦ (
    db.next_uuid,
    record db {
      incidents =
          db.incidents ++ new_incident db.next_uuid (site_of e) e severity summary db.clock ∷ [];
      next_uuid = suc db.next_uuid;
    },
  )
]

-- `_upsert_incident`: up to `attempts` tries; a failed transaction leaves no trace.
unfoldable pub upsert_incident :
    ℕ → List Bool → (Uuid → Uuid) → Uuid → Severity → List SensorEntry → Db → Result Uuid × Db
upsert_incident zero faults site_of e severity summary db = (err runtime_error, db)
upsert_incident (suc left) (true ∷ faults) site_of e severity summary db =
    upsert_incident left faults site_of e severity summary db
upsert_incident (suc left) _ site_of e severity summary db =
    let (u, after) = upsert_once site_of e severity summary db in (ok u, after)

-- What follows the upsert: the event (`_publish_event`), or the dead letter, which is a line in the log.
abbrev pub announce : Result Uuid → World → World
announce (err e) w = w
announce (ok u) w = publish_safely (anomaly_detected (uuid_text u)) w

-- Division and rounding of doubles are the machine's: parameters.
module _ (fdiv : Float → Float → Float) (round : ℕ → Float → Float) where
  abbrev sensor_payload : Observation → SensorEntry
  sensor_payload o = record {
    sensor_id = o.observed_sensor;
    sensor_type = o.observed_type;
    reason = o.observed_reason;
    static_margin = elim o.observed_margin [ none ↦ none | some m ↦ some (round 4 m) ];
    drift_z = elim o.observed_drift [ none ↦ none | some z ↦ some (round 2 z) ];
  }

  abbrev raise : Float → Float → Option Float → Float
  raise worst divisor none = worst
  raise worst divisor (some score) = float_max worst (fdiv score divisor)

  unfoldable pub worst_of : Float → Float → List (Option Float) → Float
  unfolding float_max
  worst_of divisor worst [] = worst
  worst_of divisor worst (s ∷ scores) = worst_of divisor (raise worst divisor s) scores

  -- The double 0.5 is 0x3fe0000000000000.
  unfoldable pub severity_from_score : List (Option Float) → List (Option Float) → Severity
  unfolding worst_of float_leb
  severity_from_score margins drifts =
      let worst = worst_of float_ten (worst_of 0x3fe0000000000000 0 margins) drifts in
      if float_leb float_one worst
      then high
      else if float_leb float_three_tenths worst
      then medium
      else low

  -- `_persist_incident`
  unfoldable pub persist_incident :
      ℕ → List Bool → (Uuid → Uuid) → CorrelatedAnomaly → World → World
  unfolding severity_from_score freshest_of upsert_incident upsert_once
  persist_incident attempts faults site_of a w =
      let freshest = freshest_of a.sensors [] in
      let severity =
        severity_from_score (map (λ o. o.observed_margin) freshest)
          (map (λ o. o.observed_drift) freshest) in
      let (out, db) =
        upsert_incident attempts faults site_of a.anomaly_equipment severity
          (map (λ o. sensor_payload o) freshest) w.db in
      announce out (record w { db = db })

  unfoldable pub persist_for :
      ℕ → List Bool → (Uuid → Uuid) → Uuid → List CorrelatedAnomaly → World → World
  persist_for attempts faults site_of e [] w = w
  persist_for attempts faults site_of e (a ∷ rest) w =
      let next = persist_incident attempts faults site_of a w in
      persist_for attempts faults site_of e rest (if a.anomaly_equipment == e then next else w)

  -- `_register_anomaly`, for an observation: the buffer and the world behind it.
  unfoldable pub register_anomaly :
      ℕ
      → List Bool
      → (Uuid → Uuid)
      → ℕ
      → ℕ
      → Observation
      → List Observation × World
      → Result (Unit {0}) × List Observation × World
  unfolding prune_buffer correlate_anomalies
  register_anomaly attempts faults site_of window max_gap o (buffer, w) =
      let pruned = prune_buffer max_gap w.db.clock (buffer ++ o ∷ []) in
      if any (λ x. x.observed_naive) pruned then (err type_error, pruned, w) else (
        ok tt,
        pruned,
        persist_for attempts faults site_of o.observed_equipment
            (correlate_anomalies pruned window max_gap w.db.clock) w,
      )
