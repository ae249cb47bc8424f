-- ===== src/Detection/Grouping.antt =====
-- The groups by equipment.
use processguard_ai.Incident.{Uuid}
use processguard_ai.Detection.Correlate.{Observation, group_observations, add_observation, Group}
use processguard_ai.Base.{
  All-append, if_ind, ◌≡◌, refl, ◌≢◌, inl, inr, List, [], ◌∷◌, arith, ◌==◌, Bool-cases, All,
}

-- No two groups are of one equipment.
abbrev pub Fresh : Uuid → List Group → Type 0
Fresh e gs = All (λ (g : Group). g.group_equipment ≢ e) gs

abbrev pub Distinct : List Group → Type 0
Distinct [] = Unit
Distinct (g ∷ gs) = Fresh g.group_equipment gs × Distinct gs

abbrev pub IsGroup : Group → Type 0
IsGroup g = All (λ (o : Observation). o.observed_equipment ≡ g.group_equipment) g.members

add_observation-Fresh :
    (e : Uuid) (o : Observation) (gs : List Group)
    → o.observed_equipment ≢ e
    → Fresh e gs
    → Fresh e (add_observation o gs)
unfolding add_observation
add_observation-Fresh e o [] n h = (n, tt)
add_observation-Fresh e o (g ∷ gs) n h =
    if_ind (Fresh e) (g.group_equipment == o.observed_equipment) _ _ h
      (h.0, add_observation-Fresh e o gs n h.1)

add_observation-Distinct :
    (o : Observation) (gs : List Group) → Distinct gs → Distinct (add_observation o gs)
unfolding add_observation
add_observation-Distinct o [] h = (tt, tt)
add_observation-Distinct o (g ∷ gs) h =
    elim (Bool-cases (g.group_equipment == o.observed_equipment)) [
      | inl same ↦ rw (same, add_observation) h
      | inr other ↦
          rw (other, add_observation)
            (
              add_observation-Fresh g.group_equipment o gs (λ e. ground arith) h.0,
              add_observation-Distinct o gs h.1,
            )
    ]

add_observation-IsGroup :
    (o : Observation) (gs : List Group) → All IsGroup gs → All IsGroup (add_observation o gs)
unfolding add_observation
add_observation-IsGroup o [] h = ((refl, tt), tt)
add_observation-IsGroup o (g ∷ gs) h =
    elim (Bool-cases (g.group_equipment == o.observed_equipment)) [
      | inl same ↦
          rw (same, add_observation)
            (
              All-append (λ (x : Observation). x.observed_equipment ≡ g.group_equipment) g.members _
                  h.0 (ground arith, tt),
              h.1,
            )
      | inr other ↦ rw (other, add_observation) (h.0, add_observation-IsGroup o gs h.1)
    ]

pub group_observations-Distinct :
    (os : List Observation) (gs : List Group) → Distinct gs → Distinct (group_observations os gs)
unfolding group_observations
group_observations-Distinct [] gs h = h
group_observations-Distinct (o ∷ os) gs h =
    group_observations-Distinct os (add_observation o gs) (add_observation-Distinct o gs h)

pub group_observations-IsGroup :
    (os : List Observation) (gs : List Group)
    → All IsGroup gs
    → All IsGroup (group_observations os gs)
unfolding group_observations
group_observations-IsGroup [] gs h = h
group_observations-IsGroup (o ∷ os) gs h =
    group_observations-IsGroup os (add_observation o gs) (add_observation-IsGroup o gs h)
