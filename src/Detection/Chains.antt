-- ===== src/Detection/Chains.antt =====
-- The clusters of sorted observations are linked.
use processguard_ai.Detection.Correlate.{
  clusters_of, extend_clusters, sort_observations, insert_observation, Observation,
}
use processguard_ai.Base.{
  if_ind, All-imp, ℕ, ◌+◌, ◌-◌, ◌≤◌, inl, inr, List, [], ◌∷◌, arith, leb, Bool-cases, All,
}

-- Observations, last first, each at most the window after the one before it.
abbrev pub Linked : ℕ → List Observation → Type 0
Linked window [] = Unit
Linked window (o ∷ []) = Unit
Linked window (o ∷ before ∷ rest) =
    (before.observed_at ≤ o.observed_at)
    × (o.observed_at ≤ before.observed_at + window)
    × Linked window (before ∷ rest)

abbrev pub Sorted : List Observation → Type 0
Sorted [] = Unit
Sorted (o ∷ os) = All (λ (y : Observation). o.observed_at ≤ y.observed_at) os × Sorted os

module _ (P : Observation → Type 0) where
  insert_observation-All :
      (o : Observation) (os : List Observation) → P o → All P os → All P (insert_observation o os)
  unfolding insert_observation
  insert_observation-All o [] p h = (p, tt)
  insert_observation-All o (x ∷ xs) p h =
      if_ind (All P) (leb o.observed_at x.observed_at) _ _ (p, h)
        (h.0, insert_observation-All o xs p h.1)

  pub sort_observations-All : (os : List Observation) → All P os → All P (sort_observations os)
  unfolding sort_observations
  sort_observations-All [] h = tt
  sort_observations-All (o ∷ os) h =
      insert_observation-All o (sort_observations os) h.0 (sort_observations-All os h.1)

insert_observation-Sorted :
    (o : Observation) (os : List Observation) → Sorted os → Sorted (insert_observation o os)
unfolding insert_observation
insert_observation-Sorted o [] h = (tt, tt)
insert_observation-Sorted o (x ∷ xs) h = elim (Bool-cases (leb o.observed_at x.observed_at)) [
  | inl le ↦
      let first : o.observed_at ≤ x.observed_at = ground arith in
      rw (le, insert_observation) ((first, All-imp _ _ (λ y b. omega (arith, first, b)) xs h.0), h)
  | inr gt ↦
      rw (gt, insert_observation)
        (
          insert_observation-All (λ (y : Observation). x.observed_at ≤ y.observed_at) o xs
              (ground arith) h.0,
          insert_observation-Sorted o xs h.1,
        )
]

pub sort_observations-Sorted : (os : List Observation) → Sorted (sort_observations os)
unfolding sort_observations
sort_observations-Sorted [] = tt
sort_observations-Sorted (o ∷ os) =
    insert_observation-Sorted o (sort_observations os) (sort_observations-Sorted os)

-- The newest cluster is linked, holds what `P` holds of, and ends no later than what is to come.
abbrev pub IsChain :
    (Observation → Type 0) → ℕ → List (List Observation) → List Observation → Type 0
IsChain P window [] os = Unit
IsChain P window ([] ∷ older) os = Unit
IsChain P window ((last ∷ cluster) ∷ older) os =
    Linked window (last ∷ cluster)
    × All P (last ∷ cluster)
    × All (λ (y : Observation). last.observed_at ≤ y.observed_at) os

module _ (P : Observation → Type 0) (window : ℕ) where
  extend_clusters-IsChain :
      (o : Observation) (os : List Observation) (clusters : List (List Observation))
      → P o
      → Sorted (o ∷ os)
      → IsChain P window clusters (o ∷ os)
      → IsChain P window (extend_clusters window o clusters) os
  unfolding extend_clusters
  extend_clusters-IsChain o os [] p s h = (tt, (p, tt), s.0)
  extend_clusters-IsChain o os ([] ∷ older) p s h = (tt, (p, tt), s.0)
  extend_clusters-IsChain o os ((last ∷ cluster) ∷ older) p s (linked, held, below) =
      elim (Bool-cases (leb (o.observed_at - last.observed_at) window)) [
        | inl near ↦
            let after : last.observed_at ≤ o.observed_at = below.0 in
            let close : o.observed_at ≤ last.observed_at + window = ground arith in
            rw (near, extend_clusters) ((after, close, linked), (p, held), s.0)
        | inr far ↦ rw (far, extend_clusters) (tt, (p, tt), s.0)
      ]

  pub clusters_of-IsChain :
      (os : List Observation) (clusters : List (List Observation))
      → All P os
      → Sorted os
      → IsChain P window clusters os
      → IsChain P window (clusters_of window os clusters) []
  unfolding clusters_of
  clusters_of-IsChain [] clusters p s h = h
  clusters_of-IsChain (o ∷ os) clusters p s h =
      clusters_of-IsChain os (extend_clusters window o clusters) p.1 s.1
        (extend_clusters-IsChain o os clusters p.0 s h)
