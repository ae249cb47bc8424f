-- ===== src/Tests/Piping.antt =====
-- The pipeline: planner, orchestrator, gate and poll.
use processguard_ai.Agents.Routing.{Raises}
use processguard_ai.Agents.Priorities.{
  HasBadReorder, parse_recommendation-HasPriorities, HasPriorities,
}
use processguard_ai.Agents.Pipeline.{recommendation_handle-risk_handle}
use processguard_ai.Risk.{hitl_thresholds}
use processguard_ai.Agents.Gate.{apply_hitl_gate-status, StatusFor}
use processguard_ai.Db.Once.{apply_writes-count}
use processguard_ai.Tests.Samples.{inspect, plant, incident, world, flaky}
use processguard_ai.Incident.{
  risk_assessed, Status, investigating, Float, action_taken, needs_human_review,
}
use processguard_ai.Action.{check_resolutions}
use processguard_ai.Db.Log.{loop_ended, apply_writes}
use processguard_ai.Action.Polling.{check_resolutions-count_writes, count_writes}
use processguard_ai.Db.{
  DiagnosisState, decision_view, uuid_text, DecisionView, get_incident_for_decision,
  count_loop_closed,
}
use processguard_ai.Agents.{
  Recommendation, upper, item_of, splitlines, parse_line, Reorder, parse_lines,
  parse_recommendation, RiskOutcome, recommendation_handle, risk_handle, apply_hitl_gate, run_tools,
  planner_rounds, Model, planner_loop,
}
use processguard_ai.Base.{
  ◌⊎◌, err, Result, Error, ℕ, lstrip, strip, Option, ok, ◌≤◌, ◌≡◌, refl, true, none, some, [], ◌∷◌,
  arith, length, Text, codes,
}

apply_hitl_gate-status_example :
    (s : Status) × (get_incident_for_decision
        (uuid_text 1)
        (apply_hitl_gate (uuid_text 1) (world needs_human_review)).db
      ≡ some (record (decision_view (incident needs_human_review)) { status = s }))
    × StatusFor (decision_view (incident needs_human_review)).required_approval_level s
unfolding get_incident_for_decision
apply_hitl_gate-status_example =
    apply_hitl_gate-status 1 (world needs_human_review)
      (decision_view (incident needs_human_review)) refl

-- A plan that costs something.
abbrev plan_one : DiagnosisState → DecisionView → Result (Text × Text × ℕ)
plan_one state view = ok (codes "{}", codes "[]", 3)

abbrev parse_one : Text → Result Recommendation
parse_one t = ok (record { actions = inspect ∷ []; rationale = codes "wear" })

-- A model that never stops asking for a tool.
abbrev stubborn : Model
stubborn offered messages = record {
  content = [];
  tool_calls = record { tool = codes "check_sop"; arguments = [] } ∷ [];
}

length-planner_loop : length (planner_loop stubborn (λ name arguments. [])).1 ≡ 4
unfolding planner_loop planner_rounds run_tools
length-planner_loop = refl

check_resolutions-count_writes_example :
    count_writes (check_resolutions flaky 4 [] (world action_taken)).net ≡ 0
check_resolutions-count_writes_example =
    check_resolutions-count_writes flaky 4 [] (world action_taken)

apply_writes-count_example :
    count_loop_closed 1
      (apply_writes
        (loop_ended (uuid_text 1) (record {
          equipment = none;
          root_cause = [];
          action_taken = [];
          action_worked = true;
          resolution = [];
        })
          ∷ [])
        (plant action_taken)).audit
    ≤ 1
unfolding count_loop_closed
apply_writes-count_example =
    apply_writes-count 1
      (loop_ended (uuid_text 1) (record {
        equipment = none;
        root_cause = [];
        action_taken = [];
        action_worked = true;
        resolution = [];
      })
        ∷ [])
      (plant action_taken) (omega arith)

abbrev divide : Float → Float → Float
divide a b = a

recommendation_handle-risk_handle_example :
    let (out, assessed) =
      risk_handle divide hitl_thresholds (uuid_text 1) [] (world investigating) in
    let (answer, after) = recommendation_handle 3 plan_one parse_one (uuid_text 1) assessed in
    (r : RiskOutcome) × (final : DecisionView) × (out ≡ ok r)
    × (get_incident_for_decision (uuid_text 1) after.db ≡ some final)
    × (((e : Error) × (answer ≡ err e)
          × Raises plan_one parse_one e
          × (final.status ≡ risk_assessed))
        ⊎ (StatusFor (some r.hitl_level) final.status
            × (apply_hitl_gate (uuid_text 1) after ≡ after)))
unfolding get_incident_for_decision
recommendation_handle-risk_handle_example =
    recommendation_handle-risk_handle 2 plan_one parse_one divide hitl_thresholds 1 []
      (world investigating) (decision_view (incident investigating)) refl

-- No product line is read, and no double is written.
abbrev no_reorder : Text → Result (Option Reorder)
no_reorder t = ok none

abbrev no_format : Float → Text
no_format x = []

abbrev final_text : Text
final_text = codes "1. Inspect the bearing\n- Flush\nRATIONALE: wear\n"

parse_recommendation-HasPriorities_example :
    ((e : Error) × (parse_recommendation no_reorder no_format final_text ≡ err e)
      × HasBadReorder no_reorder e (splitlines final_text))
    ⊎ ((parsed : Recommendation) × (parse_recommendation no_reorder no_format final_text
          ≡ ok parsed)
        × HasPriorities 1 parsed.actions
        × (1 ≤ length parsed.actions))
parse_recommendation-HasPriorities_example =
    parse_recommendation-HasPriorities no_reorder no_format final_text

length-parse_recommendation :
    (elim (parse_recommendation no_reorder no_format final_text) [
      | err e ↦ 0
      | ok parsed ↦ length parsed.actions
    ])
    ≡ 2
unfolding parse_recommendation parse_lines parse_line splitlines item_of upper strip lstrip
length-parse_recommendation = refl
