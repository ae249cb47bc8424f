-- ===== src/Tests/Detecting.antt =====
-- Detection, retrieval, the bus and the simulator.
use processguard_ai.Detection.Coverage.{correlate_anomalies-is_about, is_about}
use processguard_ai.Retrieval.{Score, search, RetrievedChunk, Document}
use processguard_ai.Detection.Single.{upsert_incident-IsSingle, IsSingle}
use processguard_ai.Tests.Samples.{plant, sensor}
use processguard_ai.Retrieval.Answers.{search-IsAnswer, IsAnswer}
use processguard_ai.Detection.Reports.{
  correlate_anomalies-IsCorrelated, DistinctReports, IsCorrelated,
}
use processguard_ai.Risk.{float_one, float_ten}
use processguard_ai.Incident.{Uuid, Status, Severity}
use processguard_ai.Detection.{
  CorrelatedAnomaly, active, extend_clusters, clusters_of, insert_observation, sort_observations,
  correlate_groups, add_observation, group_observations, correlate_anomalies, upsert_incident,
  Observation,
}
use processguard_ai.Simulator.{normal, Simulator}
use processguard_ai.Base.{
  arith, any, false, strip, ℕ, ◌<◌, ◌≡◌, refl, ◌⊎◌, Bool, true, none, some, List, [], ◌∷◌, map,
  length, keep, is_empty, All, Text, codes, ok,
}

abbrev seen_at : ℕ → Observation
seen_at t = record {
  observed_equipment = 4;
  observed_sensor = 7;
  observed_type = codes "ph";
  observed_at = t;
  observed_naive = false;
  observed_reason = [];
  observed_margin = some float_ten;
  observed_drift = none;
}

correlate_anomalies-IsCorrelated_example :
    let reports = correlate_anomalies (seen_at 9 ∷ seen_at 3 ∷ seen_at 100 ∷ []) 10 60 120 in
    All (IsCorrelated 10 60 120) reports × DistinctReports reports
correlate_anomalies-IsCorrelated_example =
    correlate_anomalies-IsCorrelated (seen_at 9 ∷ seen_at 3 ∷ seen_at 100 ∷ []) 10 60 120

-- One chain of the two old observations, and the fresh one that is reported.
correlate_reports :
    map
      (λ (a : CorrelatedAnomaly). length a.sensors)
      (correlate_anomalies (seen_at 9 ∷ seen_at 3 ∷ seen_at 100 ∷ []) 10 60 120)
    ≡ 1 ∷ []
unfolding correlate_anomalies group_observations add_observation correlate_groups sort_observations
    insert_observation clusters_of extend_clusters active
correlate_reports = refl

upsert_incident-IsSingle_example :
    let (out, after) =
      upsert_incident 3
        (true ∷ [])
        (λ e. 12)
        4
        Severity.high
        (sensor ∷ [])
        (plant Status.resolved) in
    IsSingle after.incidents
    × (length (keep (λ (fault : Bool). fault) (true ∷ [])) < 3 → (u : Uuid) × (out ≡ ok u))
upsert_incident-IsSingle_example =
    upsert_incident-IsSingle 3 (true ∷ []) (λ e. 12) 4 Severity.high (sensor ∷ [])
      (plant Status.resolved) (tt, tt)

abbrev sop : Document
sop = record {
  doc_id = codes "SOP-1";
  title = [];
  section = codes "a";
  content = [];
  metadata = [];
}

-- Two sections of one document, best first.
abbrev rank : Text → List Document → List (Document × Score)
rank query documents =
    (sop, record { exact = float_ten; rounded = float_ten })
    ∷ (sop, record { exact = float_one; rounded = float_one })
    ∷ []

search-IsAnswer_example :
    (results : List RetrievedChunk) × (search rank
        (record { documents = some (sop ∷ sop ∷ []) })
        (codes "pump")
        5
      ≡ ok results)
    × ((is_empty (strip (codes "pump")) ≡ true) × (results ≡ [])
        ⊎ IsAnswer 5 (rank (codes "pump") (sop ∷ sop ∷ [])) results)
search-IsAnswer_example = search-IsAnswer rank (sop ∷ sop ∷ []) (codes "pump") 5

abbrev idle : Simulator
idle = record { control = none; mode = normal; scenario_started_at = none; sensor_count = 5 }

correlate_anomalies-is_about_example :
    any (is_about 4) (correlate_anomalies (seen_at 9 ∷ seen_at 100 ∷ seen_at 3 ∷ []) 10 60 120)
    ≡ true
correlate_anomalies-is_about_example =
    correlate_anomalies-is_about (seen_at 9 ∷ []) (seen_at 3 ∷ []) (seen_at 100) 10 60 120
      (omega arith)
