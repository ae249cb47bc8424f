-- ===== src/Detection/Noticed.antt =====
-- A reading outside its band is noticed.
use processguard_ai.Db.{Db}
use processguard_ai.World.{World}
use processguard_ai.Incident.{Float, Uuid, Severity, SensorEntry}
use mathlib.Core.Path.{subst}
use processguard_ai.Detection.Correlate.{Observation, CorrelatedAnomaly}
use processguard_ai.Detection.Coverage.{correlate_anomalies-is_about, is_about}
use processguard_ai.Detection.Persist.{
  register_anomaly, persist_for, persist_incident, upsert_incident, prune_buffer,
}
use processguard_ai.Detection.Scoring.{
  SensorReading, static_margin_of, score_reading, exceeds, float_ltb, BaselineStats,
}
use processguard_ai.Detection.Agent.{
  DetectionAgent, DetectionState, SensorRow, Decoded, Delivery, find_sensor,
}
use processguard_ai.Detection.Stream.{
  arrive, reading_of, parse_ts, register, observation_of, update_baseline, persist_reading,
  score_and_register, process_reading, consume_message, decode,
}
use processguard_ai.Detection.Kept.{persist_for-keeps, settled}
use processguard_ai.Base.{
  if_ind, ℕ, ◌+◌, ◌*◌, ◌≤◌, ◌<◌, ◌≡◌, refl, ap, inl, inr, Bool, true, false, some, List, [], ◌∷◌,
  ◌++◌, arith, ltb, ◌==◌, Bool-cases, length, keep, any, Text, ok,
}
use processguard_ai.Detection.Opens.{HasOpen, upsert_incident-HasOpen, upsert_incident-opens}

module _ (agent : DetectionAgent) where
  abbrev IsReachable : List Bool → Type 0
  IsReachable faults = length (keep (λ fault. fault) faults) < agent.settings.retry_attempts

  -- What upserts keep, `persist_for` keeps.
  upserts_keep :
      (e : Uuid) (faults : List Bool) (a : Uuid) (severity : Severity) (summary : List SensorEntry)
      (db : Db)
      → HasOpen e db.incidents
      → HasOpen e
          (upsert_incident agent.settings.retry_attempts faults agent.site_of a severity summary
            db).1.incidents
  upserts_keep e faults a severity summary db h =
      upsert_incident-HasOpen agent.site_of e agent.settings.retry_attempts faults a severity
        summary db h

  persist_incident-opens :
      (faults : List Bool) (a : CorrelatedAnomaly) (w : World)
      → IsReachable faults
      → HasOpen a.anomaly_equipment
          (persist_incident agent.doubles.divide agent.doubles.round agent.settings.retry_attempts
            faults agent.site_of a w).db.incidents
  unfolding persist_incident
  persist_incident-opens faults a w few =
      settled (HasOpen a.anomaly_equipment) agent.settings.retry_attempts agent.site_of
        (upserts_keep a.anomaly_equipment) agent.doubles.divide agent.doubles.round _ _
        (upsert_incident-opens agent.site_of agent.settings.retry_attempts faults
          a.anomaly_equipment _ _ w.db few)

  persist_for-opens :
      (faults : List Bool) (e : Uuid) (reports : List CorrelatedAnomaly) (w : World)
      → IsReachable faults
      → any (is_about e) reports ≡ true
      → HasOpen e
          (persist_for agent.doubles.divide agent.doubles.round agent.settings.retry_attempts faults
            agent.site_of e reports w).db.incidents
  unfolding persist_for
  persist_for-opens faults e [] w few h = absurd (ground arith)
  persist_for-opens faults e (a ∷ rest) w few h = elim (Bool-cases (a.anomaly_equipment == e)) [
    | inl here ↦
        let same : a.anomaly_equipment ≡ e = ground arith in
        rw (here, persist_for)
          (persist_for-keeps (HasOpen e) agent.settings.retry_attempts agent.site_of
            (upserts_keep e) agent.doubles.divide agent.doubles.round faults e rest _
            (subst
              (λ x.
                HasOpen x
                  (persist_incident agent.doubles.divide agent.doubles.round
                    agent.settings.retry_attempts faults agent.site_of a w).db.incidents)
              same (persist_incident-opens faults a w few)))
    | inr other ↦ rw (other, persist_for) (persist_for-opens faults e rest w few (rw other at h))
  ]

  keep-append :
      (p : Observation → Bool) (xs : List Observation) (o : Observation)
      → p o ≡ true
      → keep p (xs ++ o ∷ []) ≡ keep p xs ++ o ∷ []
  keep-append p [] o h = rw h refl
  keep-append p (x ∷ xs) o h = elim (Bool-cases (p x)) [
    | inl stays ↦ rw stays (ap (◌∷◌ x) (keep-append p xs o h))
    | inr leaves ↦ rw leaves (keep-append p xs o h)
  ]

  any-append :
      (p : Observation → Bool) (xs : List Observation) (o : Observation)
      → any p xs ≡ false
      → p o ≡ false
      → any p (xs ++ o ∷ []) ≡ false
  any-append p [] o none_in h = ground arith
  any-append p (x ∷ xs) o none_in h = elim (Bool-cases (p x)) [
    | inl here ↦ absurd (ground arith)
    | inr other ↦ rw other (any-append p xs o (rw other at none_in) h)
  ]

  -- No observation that the buffer keeps at this time is without a time zone.
  abbrev AwareBuffer : DetectionState → Type 0
  AwareBuffer s =
      any (λ x. x.observed_naive) (prune_buffer agent.settings.max_gap s.world.db.clock s.buffer)
      ≡ false

  -- A fresh observation leads to an unresolved incident of its equipment.
  register-opens :
      (o : Observation) (faults : List Bool) (s : DetectionState)
      → IsReachable faults
      → 0 < agent.settings.max_gap
      → s.world.db.clock ≤ o.observed_at + agent.settings.max_gap
      → AwareBuffer s
      → o.observed_naive ≡ false
      → HasOpen o.observed_equipment (register agent o faults s).1.world.db.incidents
  unfolding register_anomaly prune_buffer
  register-opens o faults s few some_gap fresh others_aware aware =
      let young : ltb s.world.db.clock (o.observed_at + agent.settings.max_gap * 3) ≡ true =
        ground arith in
      let is_young : Observation → Bool =
        λ x. ltb s.world.db.clock (x.observed_at + agent.settings.max_gap * 3) in
      let all_aware : any (λ x. x.observed_naive) (keep is_young (s.buffer ++ o ∷ [])) ≡ false =
        rw (keep-append is_young s.buffer o young)
          (any-append (λ x. x.observed_naive) (keep is_young s.buffer) o others_aware aware) in
      rw (all_aware, register_anomaly)
        (persist_for-opens faults o.observed_equipment _ s.world few (
          rw (keep-append is_young s.buffer o young) (
            correlate_anomalies-is_about (keep is_young s.buffer) [] o
              agent.settings.correlation_window agent.settings.max_gap s.world.db.clock fresh)))

  persist_reading-world :
      (r : SensorReading) (fails : Bool) (s : DetectionState)
      → (persist_reading agent r fails s).world ≡ s.world
  unfolding persist_reading
  persist_reading-world r true s = refl
  persist_reading-world r false s = refl

  persist_reading-aware :
      (r : SensorReading) (fails : Bool) (s : DetectionState)
      → AwareBuffer s
      → AwareBuffer (persist_reading agent r fails s)
  unfolding persist_reading
  persist_reading-aware r true s h = h
  persist_reading-aware r false s h = h

  score_and_register-opens :
      (row : SensorRow) (r : SensorReading) (b : BaselineStats) (d : Delivery) (s : DetectionState)
      (margin : Float)
      → static_margin_of agent.doubles row.sensor_thresholds r.reading_value ≡ some margin
      → float_ltb agent.settings.static_z margin ≡ true
      → IsReachable d.upsert_faults
      → 0 < agent.settings.max_gap
      → s.world.db.clock ≤ r.reading_at + agent.settings.max_gap
      → AwareBuffer s
      → r.reading_naive ≡ false
      → HasOpen row.sensor_equipment (score_and_register agent row r b d s).1.world.db.incidents
  unfolding score_and_register score_reading exceeds
  score_and_register-opens row r b d s margin outside far few some_gap fresh others_aware aware =
      let stored = persist_reading agent r d.insert_fails s in
      let scored =
        score_reading agent.doubles r row.sensor_thresholds b agent.settings.static_z
          agent.settings.drift_z_limit in
      let noticed : scored.anomalous ≡ true = rw outside (rw far refl) in
      rw (noticed, score_and_register)
        (register-opens (observation_of agent scored row) d.upsert_faults stored few some_gap
          (rw (persist_reading-world r d.insert_fails s) fresh)
          (persist_reading-aware r d.insert_fails s others_aware) aware)

  update_baseline-aware :
      (sensor : Text) (value : Float) (now : ℕ) (fails : Bool) (s : DetectionState)
      → AwareBuffer s
      → AwareBuffer (update_baseline agent sensor value now fails s).1
  unfolding update_baseline
  update_baseline-aware sensor value now true s h = h
  update_baseline-aware sensor value now false s h = h

  update_baseline-world :
      (sensor : Text) (value : Float) (now : ℕ) (fails : Bool) (s : DetectionState)
      → (update_baseline agent sensor value now fails s).1.world ≡ s.world
  unfolding update_baseline
  update_baseline-world sensor value now true s = refl
  update_baseline-world sensor value now false s = refl

  -- A reading outside its band opens an incident: an entry that can be read, of a known sensor, whose
  -- value is outside the sensor's band by more than `static_z` and whose time is at most `max_gap` before
  -- its arrival, leaves an unresolved incident of the sensor's equipment, whether or not the bus, the
  -- insert of the reading or the acknowledgement works. This is if the baseline can be updated, fewer
  -- upserts fail than are tried, and neither the entry's time nor that of an observation that the
  -- buffer still keeps at its arrival is without a time zone.
  pub consume_message-opens :
      (d : Delivery) (s : DetectionState) (x : Decoded) (row : SensorRow) (b : BaselineStats)
      (margin : Float)
      → decode agent d.fields ≡ some x
      → find_sensor x.decoded_sensor agent.registry ≡ some row
      → (update_baseline agent x.decoded_sensor x.decoded_value d.arrives_at d.pipeline_fails
          (arrive agent d.arrives_at s)).0
        ≡ ok b
      → static_margin_of agent.doubles row.sensor_thresholds x.decoded_value ≡ some margin
      → float_ltb agent.settings.static_z margin ≡ true
      → length (keep (λ fault. fault) d.upsert_faults) < agent.settings.retry_attempts
      → 0 < agent.settings.max_gap
      → d.arrives_at
        ≤ (parse_ts agent x.decoded_timestamp d.arrives_at).instant + agent.settings.max_gap
      → (parse_ts agent x.decoded_timestamp d.arrives_at).naive ≡ false
      → any (λ o. o.observed_naive) (prune_buffer agent.settings.max_gap d.arrives_at s.buffer)
        ≡ false
      → HasOpen row.sensor_equipment (consume_message agent d s).world.db.incidents
  unfolding consume_message process_reading
  consume_message-opens d s x row b margin read known based outside far few some_gap fresh aware
        others_aware =
      let at_arrival = arrive agent d.arrives_at s in
      let after =
        (update_baseline agent x.decoded_sensor x.decoded_value d.arrives_at d.pipeline_fails
          at_arrival).1 in
      let scored =
        score_and_register-opens row (reading_of agent row x d.arrives_at) b d after margin outside
          far few some_gap
          (rw
            (update_baseline-world x.decoded_sensor x.decoded_value d.arrives_at d.pipeline_fails
              at_arrival)
            fresh)
          (update_baseline-aware x.decoded_sensor x.decoded_value d.arrives_at d.pipeline_fails
            at_arrival others_aware)
          aware in
      let opens : HasOpen row.sensor_equipment
          (process_reading agent d at_arrival).1.world.db.incidents =
        rw (read, process_reading) (rw known (rw based scored)) in
      if_ind (λ (t : DetectionState). HasOpen row.sensor_equipment t.world.db.incidents) d.ack_fails
        (process_reading agent d at_arrival).1 _ opens opens
