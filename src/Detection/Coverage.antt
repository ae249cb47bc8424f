-- ===== src/Detection/Coverage.antt =====
-- A fresh anomaly is never left out of the correlation.
use processguard_ai.Detection.Chains.{Sorted, sort_observations-Sorted}
use processguard_ai.Incident.{Uuid}
use processguard_ai.Detection.Correlate.{
  cons_some, extend_clusters, CorrelatedAnomaly, active, correlate_groups, clusters_of,
  correlate_anomalies, Group, sort_observations, Observation, insert_observation,
  group_observations, add_observation,
}
use processguard_ai.Base.{
  All-imp, if_ind, ℕ, ◌+◌, ◌-◌, ◌≤◌, ◌≡◌, refl, ap, ◌∙◌, inl, inr, Bool, true, ◌&&◌, ◌||◌, Option,
  none, some, List, [], ◌∷◌, ◌++◌, arith, leb, ◌==◌, Bool-cases, any, All,
}

abbrev is_late : ℕ → Observation → Bool
is_late n o = leb n o.observed_at

-- There is a group of the equipment with an observation at `n` or later.
abbrev holds : Uuid → ℕ → List Group → Bool
holds e n gs = any (λ (g : Group). g.group_equipment == e && any (is_late n) g.members) gs

pub any-append :
    {A : Type 0} (p : A → Bool) (xs ys : List A) → any p (xs ++ ys) ≡ (any p xs || any p ys)
any-append p [] ys = refl
any-append p (x ∷ xs) ys = ground (arith, any-append p xs ys)

holds-add_observation :
    (o : Observation) (gs : List Group)
    → holds o.observed_equipment o.observed_at (add_observation o gs) ≡ true
unfolding add_observation
holds-add_observation o [] = ground arith
holds-add_observation o (g ∷ gs) = elim (Bool-cases (g.group_equipment == o.observed_equipment)) [
  | inl same ↦
      rw (same, add_observation)
        (ground (arith, same, any-append (is_late o.observed_at) g.members (o ∷ [])))
  | inr other ↦ rw (other, add_observation) (ground (arith, holds-add_observation o gs))
]

add_observation-holds :
    (e n : ℕ) (o : Observation) (gs : List Group)
    → holds e n gs ≡ true
    → holds e n (add_observation o gs) ≡ true
unfolding add_observation
add_observation-holds e n o [] h = absurd (ground arith)
add_observation-holds e n o (g ∷ gs) h =
    elim (Bool-cases (g.group_equipment == o.observed_equipment)) [
      | inl same ↦
          rw (same, add_observation) (ground (arith, h, any-append (is_late n) g.members (o ∷ [])))
      | inr other ↦
          rw (other, add_observation)
            (elim (Bool-cases (holds e n gs)) [
              | inl rest ↦ ground (arith, add_observation-holds e n o gs rest)
              | inr none_there ↦ ground (arith, h, none_there)
            ])
    ]

group_observations-holds :
    (e n : ℕ) (os : List Observation) (gs : List Group)
    → holds e n gs ≡ true
    → holds e n (group_observations os gs) ≡ true
unfolding group_observations
group_observations-holds e n [] gs h = h
group_observations-holds e n (o ∷ os) gs h =
    group_observations-holds e n os (add_observation o gs) (add_observation-holds e n o gs h)

-- Each observation is in its group.
holds-group_observations :
    (before after : List Observation) (o : Observation) (gs : List Group)
    → holds o.observed_equipment o.observed_at (group_observations (before ++ o ∷ after) gs) ≡ true
unfolding group_observations
holds-group_observations [] after o gs =
    group_observations-holds o.observed_equipment o.observed_at after (add_observation o gs)
      (holds-add_observation o gs)
holds-group_observations (x ∷ before) after o gs =
    holds-group_observations before after o (add_observation x gs)

any-insert_observation :
    (p : Observation → Bool) (o : Observation) (os : List Observation)
    → any p (insert_observation o os) ≡ (p o || any p os)
unfolding insert_observation
any-insert_observation p o [] = refl
any-insert_observation p o (x ∷ xs) =
    if_ind (λ (r : List Observation). any p r ≡ (p o || (p x || any p xs)))
      (leb o.observed_at x.observed_at) _ _ refl (ground (arith, any-insert_observation p o xs))

any-sort_observations :
    (p : Observation → Bool) (os : List Observation) → any p (sort_observations os) ≡ any p os
unfolding sort_observations
any-sort_observations p [] = refl
any-sort_observations p (o ∷ os) =
    any-insert_observation p o (sort_observations os)
    ∙ ap (λ (b : Bool). p o || b) (any-sort_observations p os)

-- The newest cluster ends at `n` or later.
abbrev EndsLate : ℕ → List (List Observation) → Type 0
EndsLate n [] = ⊥
EndsLate n ([] ∷ older) = ⊥
EndsLate n ((last ∷ cluster) ∷ older) = n ≤ last.observed_at

extend_clusters-EndsLate :
    (window n : ℕ) (o : Observation) (clusters : List (List Observation))
    → n ≤ o.observed_at
    → EndsLate n (extend_clusters window o clusters)
unfolding extend_clusters
extend_clusters-EndsLate window n o [] h = h
extend_clusters-EndsLate window n o ([] ∷ older) h = h
extend_clusters-EndsLate window n o ((last ∷ cluster) ∷ older) h =
    if_ind (EndsLate n) (leb (o.observed_at - last.observed_at) window) _ _ h h

clusters_of-keeps :
    (window n : ℕ) (os : List Observation) (clusters : List (List Observation))
    → All (λ (y : Observation). n ≤ y.observed_at) os
    → EndsLate n clusters
    → EndsLate n (clusters_of window os clusters)
unfolding clusters_of
clusters_of-keeps window n [] clusters later h = h
clusters_of-keeps window n (o ∷ os) clusters later h =
    clusters_of-keeps window n os (extend_clusters window o clusters) later.1
      (extend_clusters-EndsLate window n o clusters later.0)

clusters_of-EndsLate :
    (window n : ℕ) (os : List Observation) (clusters : List (List Observation))
    → Sorted os
    → any (is_late n) os ≡ true
    → EndsLate n (clusters_of window os clusters)
unfolding clusters_of
clusters_of-EndsLate window n [] clusters s h = absurd (ground arith)
clusters_of-EndsLate window n (o ∷ os) clusters s h = elim (Bool-cases (is_late n o)) [
  | inl late ↦
      let first : n ≤ o.observed_at = ground arith in
      clusters_of-keeps window n os (extend_clusters window o clusters)
        (All-imp _ _ (λ y b. omega (arith, first, b)) os s.0)
        (extend_clusters-EndsLate window n o clusters first)
  | inr early ↦
      clusters_of-EndsLate window n os (extend_clusters window o clusters) s.1
        (ground (arith, h, early))
]

abbrev pub is_about : Uuid → CorrelatedAnomaly → Bool
is_about e a = a.anomaly_equipment == e

module _ (window max_gap now n : ℕ) (fresh : now ≤ n + max_gap) where
  active-EndsLate :
      (e : Uuid) (clusters : List (List Observation)) (reports : List CorrelatedAnomaly)
      → EndsLate n clusters
      → any (is_about e) (cons_some (active max_gap now e clusters) reports) ≡ true
  unfolding active
  active-EndsLate e [] reports h = absurd h
  active-EndsLate e ([] ∷ older) reports h = absurd h
  active-EndsLate e ((last ∷ cluster) ∷ older) reports h =
      let young : leb (now - last.observed_at) max_gap ≡ true = ground (arith, h, fresh) in
      rw (young, active) (ground arith)

  any-cons_some :
      (e : Uuid) (report : Option CorrelatedAnomaly) (reports : List CorrelatedAnomaly)
      → any (is_about e) reports ≡ true
      → any (is_about e) (cons_some report reports) ≡ true
  any-cons_some e none reports h = h
  any-cons_some e (some a) reports h = ground (arith, h)

  correlate_groups-holds :
      (e : Uuid) (gs : List Group)
      → holds e n gs ≡ true
      → any (is_about e) (correlate_groups window max_gap now gs) ≡ true
  unfolding correlate_groups
  correlate_groups-holds e [] h = absurd (ground arith)
  correlate_groups-holds e (g ∷ gs) h =
      elim (Bool-cases (g.group_equipment == e && any (is_late n) g.members)) [
        | inl here ↦
            let same : g.group_equipment ≡ e = ground arith in
            let late : any (is_late n) (sort_observations g.members) ≡ true =
              any-sort_observations (is_late n) g.members ∙ ground arith in
            rw⁻¹ same (
              active-EndsLate g.group_equipment
                (clusters_of window (sort_observations g.members) [])
                (correlate_groups window max_gap now gs)
                (clusters_of-EndsLate window n (sort_observations g.members) []
                  (sort_observations-Sorted g.members) late))
        | inr elsewhere ↦
            any-cons_some e _ _ (correlate_groups-holds e gs (ground (arith, h, elsewhere)))
      ]

-- An anomalous observation that is at most `max_gap` old is never lost: whatever other observations with a
-- time zone are in the buffer, and in whatever order, some report is about its equipment.
pub correlate_anomalies-is_about :
    (before after : List Observation) (o : Observation) (window max_gap now : ℕ)
    → now ≤ o.observed_at + max_gap
    → any
        (is_about o.observed_equipment)
        (correlate_anomalies (before ++ o ∷ after) window max_gap now)
      ≡ true
unfolding correlate_anomalies
correlate_anomalies-is_about before after o window max_gap now fresh =
    correlate_groups-holds window max_gap now o.observed_at fresh o.observed_equipment
      (group_observations (before ++ o ∷ after) []) (holds-group_observations before after o [])
