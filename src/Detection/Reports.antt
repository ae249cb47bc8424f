-- ===== src/Detection/Reports.antt =====
-- What the correlation reports.
use processguard_ai.Detection.Chains.{
  sort_observations-Sorted, sort_observations-All, clusters_of-IsChain, IsChain, Linked,
}
use processguard_ai.Detection.Grouping.{
  group_observations-Distinct, group_observations-IsGroup, Distinct, Fresh, IsGroup,
}
use processguard_ai.Incident.{Uuid}
use processguard_ai.Detection.Correlate.{
  cons_some, sort_observations, group_observations, clusters_of, Observation, CorrelatedAnomaly,
  correlate_anomalies, active, correlate_groups, Group,
}
use mathlib.Core.List.{reverse}
use processguard_ai.Base.{
  ℕ, ◌+◌, ◌-◌, ◌≤◌, ◌≡◌, refl, sym, ◌∙◌, ◌≢◌, inl, inr, Option, none, some, List, [], ◌∷◌, arith,
  leb, Bool-cases, All,
}

-- What is reported: the observations of one equipment, newest `last`, each at most the window after
-- the one before it, and the newest one at most `max_gap` old.
pub record IsCorrelated (window max_gap now : ℕ) (a : CorrelatedAnomaly) : Type 0 where
  pub last : Observation
  pub before : List Observation
  pub reported : a.sensors ≡ reverse (last ∷ before)
  pub linked : Linked window (last ∷ before)
  pub one_equipment :
      All (λ (o : Observation). o.observed_equipment ≡ a.anomaly_equipment) (last ∷ before)
  pub fresh : now ≤ last.observed_at + max_gap

abbrev IsReported : ℕ → ℕ → ℕ → Uuid → Option CorrelatedAnomaly → Type 0
IsReported window max_gap now equipment none = Unit
IsReported window max_gap now equipment (some a) =
    IsCorrelated window max_gap now a × (a.anomaly_equipment ≡ equipment)

active-IsReported :
    (window max_gap now : ℕ) (e : Uuid) (clusters : List (List Observation))
    → IsChain (λ (o : Observation). o.observed_equipment ≡ e) window clusters []
    → IsReported window max_gap now e (active max_gap now e clusters)
unfolding active
active-IsReported window max_gap now e [] h = tt
active-IsReported window max_gap now e ([] ∷ older) h = tt
active-IsReported window max_gap now e ((last ∷ cluster) ∷ older) (linked, held, below) =
    elim (Bool-cases (leb (now - last.observed_at) max_gap)) [
      | inl young ↦
          rw (young, active)
            (
              record {
                last = last;
                before = cluster;
                reported = refl;
                linked = linked;
                one_equipment = held;
                fresh = ground arith;
              },
              refl,
            )
      | inr old ↦ rw (old, active) tt
    ]

-- No two reports are about one equipment.
abbrev pub DistinctReports : List CorrelatedAnomaly → Type 0
DistinctReports [] = Unit
DistinctReports (a ∷ reports) =
    All (λ (b : CorrelatedAnomaly). b.anomaly_equipment ≢ a.anomaly_equipment) reports
    × DistinctReports reports

group-IsReported :
    (window max_gap now : ℕ) (g : Group)
    → IsGroup g
    → IsReported window max_gap now g.group_equipment
        (active max_gap now g.group_equipment (clusters_of window (sort_observations g.members) []))
group-IsReported window max_gap now g h = active-IsReported window max_gap now g.group_equipment _ (
    clusters_of-IsChain (λ (o : Observation). o.observed_equipment ≡ g.group_equipment) window
      (sort_observations g.members) []
      (sort_observations-All (λ (o : Observation). o.observed_equipment ≡ g.group_equipment)
        g.members h)
      (sort_observations-Sorted g.members) tt)

cons_some-IsCorrelated :
    (window max_gap now : ℕ) (e : Uuid) (report : Option CorrelatedAnomaly)
    (reports : List CorrelatedAnomaly)
    → IsReported window max_gap now e report
    → All (IsCorrelated window max_gap now) reports
    → All (IsCorrelated window max_gap now) (cons_some report reports)
cons_some-IsCorrelated window max_gap now e none reports h hs = hs
cons_some-IsCorrelated window max_gap now e (some a) reports h hs = (h.0, hs)

-- The reports of groups of other equipments are about other equipments.
abbrev Apart : Uuid → List CorrelatedAnomaly → Type 0
Apart e = All (λ (a : CorrelatedAnomaly). a.anomaly_equipment ≢ e)

cons_some-Apart :
    (window max_gap now : ℕ) (e d : Uuid) (report : Option CorrelatedAnomaly)
    (reports : List CorrelatedAnomaly)
    → IsReported window max_gap now d report
    → d ≢ e
    → Apart e reports
    → Apart e (cons_some report reports)
cons_some-Apart window max_gap now e d none reports h n hs = hs
cons_some-Apart window max_gap now e d (some a) reports h n hs = (λ same. n (sym h.1 ∙ same), hs)

cons_some-DistinctReports :
    (window max_gap now : ℕ) (e : Uuid) (report : Option CorrelatedAnomaly)
    (reports : List CorrelatedAnomaly)
    → IsReported window max_gap now e report
    → Apart e reports
    → DistinctReports reports
    → DistinctReports (cons_some report reports)
cons_some-DistinctReports window max_gap now e none reports h apart hs = hs
cons_some-DistinctReports window max_gap now e (some a) reports h apart hs = (rw h.1 apart, hs)

module _ (window max_gap now : ℕ) where
  correlate_groups-IsCorrelated :
      (gs : List Group)
      → All IsGroup gs
      → All (IsCorrelated window max_gap now) (correlate_groups window max_gap now gs)
  unfolding correlate_groups
  correlate_groups-IsCorrelated [] h = tt
  correlate_groups-IsCorrelated (g ∷ gs) h =
      cons_some-IsCorrelated window max_gap now g.group_equipment _ _
        (group-IsReported window max_gap now g h.0) (correlate_groups-IsCorrelated gs h.1)

  correlate_groups-Apart :
      (e : Uuid) (gs : List Group)
      → All IsGroup gs
      → Fresh e gs
      → Apart e (correlate_groups window max_gap now gs)
  unfolding correlate_groups
  correlate_groups-Apart e [] h n = tt
  correlate_groups-Apart e (g ∷ gs) h n =
      cons_some-Apart window max_gap now e g.group_equipment _ _
        (group-IsReported window max_gap now g h.0) n.0 (correlate_groups-Apart e gs h.1 n.1)

  correlate_groups-DistinctReports :
      (gs : List Group)
      → All IsGroup gs
      → Distinct gs
      → DistinctReports (correlate_groups window max_gap now gs)
  unfolding correlate_groups
  correlate_groups-DistinctReports [] h d = tt
  correlate_groups-DistinctReports (g ∷ gs) h d =
      cons_some-DistinctReports window max_gap now g.group_equipment _ _
        (group-IsReported window max_gap now g h.0)
        (correlate_groups-Apart g.group_equipment gs h.1 d.0)
        (correlate_groups-DistinctReports gs h.1 d.1)

-- The correlation reports an equipment at most once, and each report holds observations of its
-- equipment alone, in order of time, each at most the window after the one before, the newest of them
-- at most `max_gap` old.
pub correlate_anomalies-IsCorrelated :
    (observations : List Observation) (window max_gap now : ℕ)
    → let reports = correlate_anomalies observations window max_gap now in
      All (IsCorrelated window max_gap now) reports × DistinctReports reports
unfolding correlate_anomalies
correlate_anomalies-IsCorrelated observations window max_gap now =
    let groups = group_observations-IsGroup observations [] tt in
    (
      correlate_groups-IsCorrelated window max_gap now (group_observations observations []) groups,
      correlate_groups-DistinctReports window max_gap now (group_observations observations [])
          groups (group_observations-Distinct observations [] tt),
    )
