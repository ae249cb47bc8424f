-- ===== src/Diagnosis/Waits.antt =====
-- `RootCauseAgent.handle` up to the prompt, and `_handle_event`. The reads of the incident in the order
-- in which they are made are a parameter: between two of them the other agents may write.
use processguard_ai.Incident.{SensorEntry}
use processguard_ai.World.{World}
use processguard_ai.Db.{DiagnosisState, IdText, id_eq}
use processguard_ai.Diagnosis.Citations.{Evidence, Reading, CitedPoint, Parsed}
use processguard_ai.Diagnosis.Diagnose.{diagnose}
use processguard_ai.Base.{
  ℕ, zero, suc, Bool, Option, none, some, List, [], ◌∷◌, ltb, leb, if◌then◌else◌, is_some, any,
  Text, Result, ok,
}

abbrev pub Reads : Type 0
Reads = ℕ → Option DiagnosisState

-- `await get_incident_diagnosis_state(incident_id) or state`
abbrev pub or_state : Option DiagnosisState → DiagnosisState → DiagnosisState
or_state none s = s
or_state (some new) s = new

-- `for _ in range(FULL_SIGNATURE_WAIT_ATTEMPTS)`: the state, and the number of the next read.
unfoldable pub wait_signature : ℕ → ℕ → Reads → DiagnosisState → DiagnosisState × ℕ
wait_signature zero k read s = (s, k)
wait_signature (suc left) k read s =
    let s' = or_state (read k) s in
    let more = wait_signature left (suc k) read s' in
    if leb 5 s'.sensor_count then (s', suc k) else more

-- `for _ in range(EVIDENCE_WAIT_ATTEMPTS)`
unfoldable pub wait_evidence : ℕ → ℕ → Reads → DiagnosisState → Option Text × ℕ
wait_evidence zero k read s = (none, k)
wait_evidence (suc left) k read s =
    let s' = or_state (read k) s in
    let more = wait_evidence left (suc k) read s' in
    elim s'.evidence [ none ↦ more | some e ↦ (some e, suc k) ]

abbrev pub full_signature_wait_attempts : ℕ
full_signature_wait_attempts = 8

abbrev pub evidence_wait_attempts : ℕ
evidence_wait_attempts = 5

-- What the prompt is built from, and how often the incident was read.
pub record Prepared : Type 0 where
  pub state : DiagnosisState
  pub sensors : List SensorEntry
  pub evidence : Option Text
  pub reads : ℕ

abbrev or_sensors : Option (List SensorEntry) → Option (List SensorEntry) → List SensorEntry
or_sensors (some stored) given = stored
or_sensors none (some carried) = carried
or_sensors none none = []

unfoldable pub signature : ℕ → Reads → DiagnosisState → DiagnosisState × ℕ
unfolding wait_signature
signature k read s =
    if ltb s.sensor_count 5 then wait_signature full_signature_wait_attempts k read s else (s, k)

unfoldable pub evidence_of_state : ℕ → Reads → DiagnosisState → Option Text × ℕ
unfolding wait_evidence
evidence_of_state k read s = elim s.evidence [
  | none ↦ wait_evidence evidence_wait_attempts k read s
  | some e ↦ (some e, k)
]

unfoldable pub settle_state : Reads → Option (List SensorEntry) → DiagnosisState → Prepared
unfolding signature evidence_of_state
settle_state read given s =
    let (mature, k) = signature 1 read s in
    let (evidence, next) = evidence_of_state k read mature in
    record {
      state = mature;
      sensors = or_sensors mature.anomaly_summary given;
      evidence = evidence;
      reads = next;
    }

-- `none`: no such incident, or it is diagnosed.
unfoldable pub prepare : Reads → Option (List SensorEntry) → Option Prepared
unfolding settle_state
prepare read given = elim (read 0) [
  | none ↦ none
  | some s ↦ if is_some s.root_cause_hypothesis then none else some (settle_state read given s)
]

module _ (attempts : ℕ) (dumps : List CitedPoint → Text) (cost : ℕ → ℕ)
    (cited : List SensorEntry → Option Text → Evidence) (ask : Prepared → ℕ → Result Reading) where
  -- The world is the one behind the waits.
  unfoldable pub handle_diagnosis :
      Reads → IdText → Option (List SensorEntry) → World → Result (Option Parsed) × World
  unfolding prepare
  handle_diagnosis read t given w = elim (prepare read given) [
    | none ↦ (ok none, w)
    | some p ↦ diagnose attempts dumps (ask p) cost t (cited p.sensors p.evidence) w
  ]

-- `_in_progress`, and the calls of `handle_diagnosis` that have begun and not ended.
pub record Agent : Type 0 where
  pub in_progress : List IdText
  pub running : List IdText

abbrev pub is_in : IdText → List IdText → Bool
is_in t ts = any (λ u. id_eq u t) ts

-- `_handle_event` up to its first wait, and from the end of `handle_diagnosis` on, in its `finally`.
unfoldable pub begin : Option IdText → Agent → Agent
begin none a = a
begin (some t) a =
    if is_in t a.in_progress
    then a
    else record { in_progress = t ∷ a.in_progress; running = t ∷ a.running }

unfoldable pub without : IdText → List IdText → List IdText
without t [] = []
without t (u ∷ us) = let rest = without t us in if id_eq u t then rest else u ∷ rest

unfoldable pub finish : IdText → Agent → Agent
unfolding without
finish t a = record { in_progress = without t a.in_progress; running = without t a.running }
