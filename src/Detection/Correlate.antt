-- ===== src/Detection/Correlate.antt =====
-- agents/detection/scoring.py, `correlate_anomalies`. Times are microseconds.
use processguard_ai.Incident.{Float, Uuid}
use mathlib.Core.List.{reverse}
use processguard_ai.Base.{
  Bool, ℕ, ◌-◌, Option, none, some, List, [], ◌∷◌, ◌++◌, leb, ◌==◌, if◌then◌else◌, Text,
}

-- The measured value and its unit, which nothing here reads, are left out.
pub record Observation : Type 0 where
  pub observed_equipment : Uuid
  pub observed_sensor : Uuid
  pub observed_type : Text
  pub observed_at : ℕ
  pub observed_naive : Bool
  pub observed_reason : Text
  pub observed_margin : Option Float
  pub observed_drift : Option Float

pub record Group : Type 0 where
  pub group_equipment : Uuid
  pub members : List Observation

pub record CorrelatedAnomaly : Type 0 where
  pub anomaly_equipment : Uuid
  pub sensors : List Observation

-- `by_equipment.setdefault(obs.equipment_id, []).append(obs)`
unfoldable pub add_observation : Observation → List Group → List Group
add_observation o [] = record { group_equipment = o.observed_equipment; members = o ∷ [] } ∷ []
add_observation o (g ∷ gs) =
    let rest = add_observation o gs in
    if g.group_equipment == o.observed_equipment
    then record g { members = g.members ++ o ∷ [] } ∷ gs
    else g ∷ rest

unfoldable pub group_observations : List Observation → List Group → List Group
group_observations [] gs = gs
group_observations (o ∷ os) gs = group_observations os (add_observation o gs)

-- `sorted(obs_list, key=lambda o: o.observed_at)`, which is stable.
unfoldable pub insert_observation : Observation → List Observation → List Observation
insert_observation o [] = o ∷ []
insert_observation o (x ∷ xs) =
    let rest = insert_observation o xs in
    if leb o.observed_at x.observed_at then o ∷ x ∷ xs else x ∷ rest

unfoldable pub sort_observations : List Observation → List Observation
sort_observations [] = []
sort_observations (o ∷ os) = insert_observation o (sort_observations os)

-- The loop over the sorted observations. Clusters, and what is in them, are kept last first here.
unfoldable pub extend_clusters : ℕ → Observation → List (List Observation) → List (List Observation)
extend_clusters window o ((last ∷ cluster) ∷ older) =
    if leb (o.observed_at - last.observed_at) window
    then (o ∷ last ∷ cluster) ∷ older
    else (o ∷ []) ∷ (last ∷ cluster) ∷ older
extend_clusters window o clusters = (o ∷ []) ∷ clusters

unfoldable pub clusters_of :
    ℕ → List Observation → List (List Observation) → List (List Observation)
clusters_of window [] clusters = clusters
clusters_of window (o ∷ os) clusters = clusters_of window os (extend_clusters window o clusters)

-- `clusters[-1]`, if its newest observation is not stale.
unfoldable pub active : ℕ → ℕ → Uuid → List (List Observation) → Option CorrelatedAnomaly
active max_gap now equipment ((last ∷ cluster) ∷ older) =
    if leb (now - last.observed_at) max_gap
    then some (record { anomaly_equipment = equipment; sensors = reverse (last ∷ cluster) })
    else none
active max_gap now equipment clusters = none

abbrev pub cons_some : {A : Type 0} → Option A → List A → List A
cons_some none xs = xs
cons_some (some x) xs = x ∷ xs

unfoldable pub correlate_groups : ℕ → ℕ → ℕ → List Group → List CorrelatedAnomaly
unfolding active clusters_of sort_observations
correlate_groups window max_gap now [] = []
correlate_groups window max_gap now (g ∷ gs) =
    cons_some
      (active max_gap now g.group_equipment (clusters_of window (sort_observations g.members) []))
      (correlate_groups window max_gap now gs)

-- For observations that all have a time zone; `register_anomaly` has what happens where one is without.
unfoldable pub correlate_anomalies : List Observation → ℕ → ℕ → ℕ → List CorrelatedAnomaly
unfolding correlate_groups group_observations
correlate_anomalies observations window max_gap now =
    correlate_groups window max_gap now (group_observations observations [])
