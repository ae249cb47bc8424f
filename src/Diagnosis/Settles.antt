-- ===== src/Diagnosis/Settles.antt =====
-- The waits of the Root-Cause Agent end, and end early when what they wait for is there.
use processguard_ai.Incident.{SensorEntry}
use processguard_ai.Db.{DiagnosisState}
use processguard_ai.Diagnosis.Waits.{
  Reads, or_state, wait_signature, wait_evidence, signature, evidence_of_state, settle_state,
  prepare, Prepared,
}
use processguard_ai.Base.{
  if_ind, ltb, List, ℕ, zero, suc, ◌+◌, ◌≤◌, ◌<◌, ◌≡◌, refl, ap, ◌∙◌, inl, inr, true, false, Option,
  some, List, arith, leb, Bool-cases, Option-cases, is_some,
}

wait_signature-le :
    (left k : ℕ) (read : Reads) (s : DiagnosisState) → (wait_signature left k read s).1 ≤ k + left
unfolding wait_signature
wait_signature-le zero k read s = omega arith
wait_signature-le (suc left) k read s =
    let s' = or_state (read k) s in ground (arith, wait_signature-le left (suc k) read s')

wait_evidence-le :
    (left k : ℕ) (read : Reads) (s : DiagnosisState) → (wait_evidence left k read s).1 ≤ k + left
unfolding wait_evidence
wait_evidence-le zero k read s = omega arith
wait_evidence-le (suc left) k read s =
    let s' = or_state (read k) s in ground (arith, wait_evidence-le left (suc k) read s')

-- The read that is `j` reads away shows five sensors.
wait_signature-ready :
    (left k j : ℕ) (read : Reads) (s seen : DiagnosisState)
    → j < left
    → read (k + j) ≡ some seen
    → 5 ≤ seen.sensor_count
    → (5 ≤ (wait_signature left k read s).0.sensor_count)
      × ((wait_signature left k read s).1 ≤ k + j + 1)
unfolding wait_signature
wait_signature-ready zero k j read s seen lt e h = absurd (omega arith)
wait_signature-ready (suc left) k zero read s seen lt e h =
    let same : k ≡ k + 0 = omega arith in
    let here : read k ≡ some seen = ap read same ∙ e in rw here (ground arith)
wait_signature-ready (suc left) k (suc j) read s seen lt e h =
    let s' = or_state (read k) s in
    let same : suc k + j ≡ k + suc j = omega arith in
    let further =
      wait_signature-ready left (suc k) j read s' seen (omega arith) (ap read same ∙ e) h in
    elim (Bool-cases (leb 5 s'.sensor_count)) [
      | inl ready ↦ rw ready (ground arith, omega arith)
      | inr partial ↦ rw partial (further.0, omega (arith, further.1))
    ]

wait_evidence-ready :
    (left k j : ℕ) (read : Reads) (s seen : DiagnosisState)
    → j < left
    → read (k + j) ≡ some seen
    → is_some seen.evidence ≡ true
    → (is_some (wait_evidence left k read s).0 ≡ true)
      × ((wait_evidence left k read s).1 ≤ k + j + 1)
unfolding wait_evidence
wait_evidence-ready zero k j read s seen lt e h = absurd (omega arith)
wait_evidence-ready (suc left) k zero read s seen lt e h =
    let same : k ≡ k + 0 = omega arith in
    let here : read k ≡ some seen = ap read same ∙ e in rw (here, wait_evidence) (ground arith)
wait_evidence-ready (suc left) k (suc j) read s seen lt e h =
    let s' = or_state (read k) s in
    let same : suc k + j ≡ k + suc j = omega arith in
    let further =
      wait_evidence-ready left (suc k) j read s' seen (omega arith) (ap read same ∙ e) h in
    elim (Option-cases s'.evidence) [
      | inl absent ↦ rw (absent, wait_evidence) (further.0, omega (arith, further.1))
      | inr (v, there) ↦ rw (there, wait_evidence) (refl, omega arith)
    ]

signature-le : (k : ℕ) (read : Reads) (s : DiagnosisState) → (signature k read s).1 ≤ k + 8
unfolding signature
signature-le k read s = ground (arith, wait_signature-le 8 k read s)

evidence_of_state-le :
    (k : ℕ) (read : Reads) (s : DiagnosisState) → (evidence_of_state k read s).1 ≤ k + 5
unfolding evidence_of_state
evidence_of_state-le k read s = ground (arith, wait_evidence-le 5 k read s)

signature-ready :
    (k j : ℕ) (read : Reads) (s seen : DiagnosisState)
    → j < 8
    → read (k + j) ≡ some seen
    → 5 ≤ seen.sensor_count
    → 5 ≤ (signature k read s).0.sensor_count
unfolding signature
signature-ready k j read s seen lt e h = ground (arith, wait_signature-ready 8 k j read s seen)

evidence_of_state-ready :
    (k j : ℕ) (read : Reads) (s seen : DiagnosisState)
    → j < 5
    → read (k + j) ≡ some seen
    → is_some seen.evidence ≡ true
    → is_some (evidence_of_state k read s).0 ≡ true
unfolding evidence_of_state
evidence_of_state-ready k j read s seen lt e h =
    ground (arith, wait_evidence-ready 5 k j read s seen)

-- The state is what one of the reads showed.
abbrev pub IsRead : Reads → DiagnosisState → Type 0
IsRead read s = (k : ℕ) × (read k ≡ some s)

or_state-IsRead :
    (k : ℕ) (read : Reads) (s : DiagnosisState) → IsRead read s → IsRead read (or_state (read k) s)
or_state-IsRead k read s h = elim (Option-cases (read k)) [
  | inl missing ↦ rw missing h
  | inr (seen, shown) ↦ rw shown (k, shown)
]

wait_signature-IsRead :
    (left k : ℕ) (read : Reads) (s : DiagnosisState)
    → IsRead read s
    → IsRead read (wait_signature left k read s).0
unfolding wait_signature
wait_signature-IsRead zero k read s h = h
wait_signature-IsRead (suc left) k read s h =
    let s' = or_state (read k) s in
    let here : IsRead read s' = or_state-IsRead k read s h in
    if_ind (λ (x : DiagnosisState × ℕ). IsRead read x.0) (leb 5 s'.sensor_count) (s', suc k)
      (wait_signature left (suc k) read s') here (wait_signature-IsRead left (suc k) read s' here)

signature-IsRead :
    (k : ℕ) (read : Reads) (s : DiagnosisState) → IsRead read s → IsRead read (signature k read s).0
unfolding signature
signature-IsRead k read s h =
    if_ind (λ (x : DiagnosisState × ℕ). IsRead read x.0) (ltb s.sensor_count 5)
      (wait_signature 8 k read s) (s, k) (wait_signature-IsRead 8 k read s h) h

-- The waits before a diagnosis end whatever the reads show: an incident that is there and not yet
-- diagnosed is prepared after at most 14 reads, from the state that one of them showed and from the
-- sensors of that state's summary, if it has one, even where the event carried another. If one of the first eight reads of the wait for the
-- signature shows five sensors, the prompt is built from a state with at least five; and if one of the
-- five reads after the first 9 shows evidence while that wait took all its reads, or one of the five
-- behind an earlier end, the prompt has evidence.
pub prepare_settles :
    (read : Reads) (given : Option (List SensorEntry)) (s : DiagnosisState)
    → read 0 ≡ some s
    → is_some s.root_cause_hypothesis ≡ false
    → (p : Prepared) × (prepare read given ≡ some p)
      × (p.reads ≤ 14)
      × IsRead read p.state
      × ((stored : List SensorEntry) → p.state.anomaly_summary ≡ some stored → p.sensors ≡ stored)
      × ((j : ℕ) (seen : DiagnosisState)
          → j < 8
          → read (1 + j) ≡ some seen
          → 5 ≤ seen.sensor_count
          → 5 ≤ p.state.sensor_count)
      × ((j : ℕ) (seen : DiagnosisState)
          → j < 5
          → read ((signature 1 read s).1 + j) ≡ some seen
          → is_some seen.evidence ≡ true
          → is_some p.evidence ≡ true)
unfolding prepare settle_state
prepare_settles read given s first fresh =
    let (mature, k) = signature 1 read s in
    (
      settle_state read given s,
      rw (first, prepare) (rw fresh refl),
      omega (arith, signature-le 1 read s, evidence_of_state-le k read mature),
      signature-IsRead 1 read s (0, first),
      (λ stored e. rw e refl),
      (λ j seen lt e h. signature-ready 1 j read s seen lt e h),
      (λ j seen lt e h. evidence_of_state-ready k j read mature seen lt e h),
    )
