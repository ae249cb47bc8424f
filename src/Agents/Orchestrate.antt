-- ===== src/Agents/Orchestrate.antt =====
-- `OrchestratorAgent`: a stage's completion triggers the next, and the last applies the HITL gate.
use processguard_ai.Agents.Assess.{RiskOutcome}
use processguard_ai.Agents.Recommend.{RecommendOutcome, routed_status}
use processguard_ai.Incident.{orchestrator, status_eq, Status}
use processguard_ai.World.{
  unknown_stage, root_cause_stage, risk_stage, recommendation_stage, stage_completed, publish,
  World, Stage,
}
use processguard_ai.Db.{transition_incident, get_incident_for_decision, id_eq, IdText, DecisionView}
use processguard_ai.Base.{
  Bool, not, Option, none, some, List, ◌∷◌, if◌then◌else◌, or_nonzero, keep, any, Result, ok, err,
}

-- The agents as the orchestrator calls them.
pub record Workers : Type 0 where
  pub risk : IdText → World → Result RiskOutcome × World
  pub recommendation : IdText → World → Result RecommendOutcome × World

-- The incidents for which a pass is running.
pub record Orchestrator : Type 0 where
  pub in_flight : List IdText

abbrev pub is_in_flight : IdText → List IdText → Bool
is_in_flight t ts = any (λ u. id_eq u t) ts

unfoldable pub trigger_risk : Workers → IdText → World → Result (Unit {0}) × World
trigger_risk workers t w =
    let (out, w2) = workers.risk t w in
    elim out [ err e ↦ (err e, w2) | ok r ↦ publish (stage_completed risk_stage t) w2 ]

unfoldable pub trigger_recommendation : Workers → IdText → World → Result (Unit {0}) × World
trigger_recommendation workers t w =
    let (out, w2) = workers.recommendation t w in
    elim out [ err e ↦ (err e, w2) | ok r ↦ publish (stage_completed recommendation_stage t) w2 ]

-- `expected = "auto_informed" if level <= 1 else "awaiting_approval"`
unfoldable pub expected_status : DecisionView → Status
expected_status view = routed_status (or_nonzero view.required_approval_level 2)

unfoldable pub apply_hitl_gate : IdText → World → World
apply_hitl_gate t w = elim (get_incident_for_decision t w.db) [
  | none ↦ w
  | some view ↦
      let expected = expected_status view in
      if status_eq view.status expected
      then w
      else record w { db = (transition_incident t expected orchestrator w.db).1 }
]

unfoldable pub run_stage : Workers → Stage → IdText → World → World
run_stage workers root_cause_stage t w = (trigger_risk workers t w).1
run_stage workers risk_stage t w = (trigger_recommendation workers t w).1
run_stage workers recommendation_stage t w = apply_hitl_gate t w
run_stage workers unknown_stage t w = w

-- `self._in_flight.add(incident_id)` and `.discard(incident_id)`.
unfoldable pub add_in_flight : IdText → Orchestrator → Orchestrator
add_in_flight t o = record o { in_flight = t ∷ o.in_flight }

unfoldable pub discard_in_flight : IdText → Orchestrator → Orchestrator
discard_in_flight t o = record o { in_flight = keep (λ u. not (id_eq u t)) o.in_flight }

-- `_on_stage_completed`. An exception of the stage is logged, and `finally` discards the id all the
-- same. `none` is a payload without an incident id.
unfoldable pub on_stage_completed :
    Workers → Stage → Option IdText → Orchestrator → World → Orchestrator × World
on_stage_completed workers stage none o w = (o, w)
on_stage_completed workers stage (some t) o w =
    if is_in_flight t o.in_flight
    then (o, w)
    else (discard_in_flight t (add_in_flight t o), run_stage workers stage t w)
