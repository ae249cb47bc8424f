-- ===== src/Detection/Kept.antt =====
-- What upserts keep, the handling of an anomaly keeps.
-- acknowledgement of each message.
use processguard_ai.Db.{Db, uuid_text}
use processguard_ai.World.{anomaly_detected, publish_safely, World, Event, publish_safely-keeps}
use processguard_ai.Incident.{Float, Uuid, Incident, Severity, SensorEntry}
use mathlib.Core.Path.{subst}
use processguard_ai.Detection.Correlate.{Observation, CorrelatedAnomaly}
use processguard_ai.Detection.Persist.{
  announce, register_anomaly, persist_for, persist_incident, upsert_incident,
}
use processguard_ai.Base.{if_ind, ℕ, sym, Bool, List, [], ◌∷◌, ◌==◌, Result, ok, err}

-- A property of the incidents that upserts keep, the agent keeps.
module _ (P : List Incident → Type 0) (attempts : ℕ) (site_of : Uuid → Uuid)
    (kept : (faults : List Bool) (e : Uuid) (severity : Severity) (summary : List SensorEntry)
        (db : Db)
      → P db.incidents
      → P (upsert_incident attempts faults site_of e severity summary db).1.incidents)
    (fdiv : Float → Float → Float) (round : ℕ → Float → Float) where
  announced : (e : Event) (w : World) → P w.db.incidents → P (publish_safely e w).db.incidents
  announced e w h = subst (λ (x : Db). P x.incidents) (sym ((publish_safely-keeps e w).0)) h

  pub settled : (out : Result Uuid) (w : World) → P w.db.incidents → P (announce out w).db.incidents
  settled (err e) w h = h
  settled (ok u) w h = announced (anomaly_detected (uuid_text u)) w h

  persist_incident-keeps :
      (faults : List Bool) (a : CorrelatedAnomaly) (w : World)
      → P w.db.incidents
      → P (persist_incident fdiv round attempts faults site_of a w).db.incidents
  unfolding persist_incident
  persist_incident-keeps faults a w h = settled _ _ (kept faults a.anomaly_equipment _ _ w.db h)

  pub persist_for-keeps :
      (faults : List Bool) (e : Uuid) (reports : List CorrelatedAnomaly) (w : World)
      → P w.db.incidents
      → P (persist_for fdiv round attempts faults site_of e reports w).db.incidents
  unfolding persist_for
  persist_for-keeps faults e [] w h = h
  persist_for-keeps faults e (a ∷ rest) w h = persist_for-keeps faults e rest _ (
      if_ind (λ (x : World). P x.db.incidents) (a.anomaly_equipment == e) _ w
        (persist_incident-keeps faults a w h) h)

  pub register_anomaly-keeps :
      (faults : List Bool) (window gap : ℕ) (o : Observation) (s : List Observation × World)
      → P s.1.db.incidents
      → P (register_anomaly fdiv round attempts faults site_of window gap o s).2.db.incidents
  unfolding register_anomaly
  register_anomaly-keeps faults window gap o (buffer, w) h =
      let kept = persist_for-keeps faults o.observed_equipment _ w h in
      if_ind (λ (x : Result (Unit {0}) × List Observation × World). P x.2.db.incidents) _ _ _ h kept
