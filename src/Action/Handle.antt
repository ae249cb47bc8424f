-- ===== src/Action/Handle.antt =====
-- `handle` and `_on_incident_approved`.
use processguard_ai.Mapping.{has_operations, map_recommendation_to_cmms}
use processguard_ai.World.{action_failed_event, action_completed, publish_safely, World}
use processguard_ai.Action.Execute.{run_operations, Execution, Failure, Progress}
use processguard_ai.Cmms.{Server}
use processguard_ai.Incident.{action_failed, approved, action_taken, status_eq, Status, ActionItem}
use processguard_ai.Db.{
  get_incident_for_decision, save_action_result, get_executed_action_kinds, DecisionView, IdText,
}
use processguard_ai.Base.{
  ℕ, Bool, true, false, Option, none, some, List, [], if◌then◌else◌, is_empty, Text,
}

-- The payload of pgai.incident_approved.
pub record Approval : Type 0 where
  pub incident_id : IdText
  pub decided_by : Text
  pub decided_at : ℕ

-- What `handle` returns.
pub data Summary : Type 0 where
  not_found : Summary
  refused_status : Status → Summary
  reconciled nothing_to_do : Summary
  partly_failed : List Failure → Summary
  all_executed : List Execution → Summary

abbrev pub actions_or_empty : Option (List ActionItem) → List ActionItem
actions_or_empty none = []
actions_or_empty (some actions) = actions

unfoldable pub save_result : IdText → Status → Bool → World → World
save_result t s executions w = record w { db = (save_action_result t s executions w.db).1 }

-- The end of `handle`, behind the loop.
unfoldable pub conclude : IdText → Progress → World → Summary × World
conclude t p w =
    if is_empty p.failures
    then (
      all_executed p.executions,
      publish_safely (action_completed t) (save_result t action_taken true w),
    )
    else (
      partly_failed p.failures,
      publish_safely (action_failed_event t) (save_result t action_failed false w),
    )

module _ (server : Server) (attempts : ℕ) where
  unfoldable pub execute_mapping : IdText → DecisionView → World → Summary × World
  unfolding conclude
  execute_mapping t view w =
      let mapping = map_recommendation_to_cmms (actions_or_empty view.recommended_actions) in
      let start : Progress = record { executions = []; failures = [] } in
      let (p, w2) =
        run_operations server attempts t (some view.equipment_id) mapping.operations start w in
      let run = conclude t p w2 in
      if has_operations mapping
      then run
      else (nothing_to_do, publish_safely (action_completed t) (save_result t action_taken false w))

  -- Behind the status check: the idempotency guard, then the execution.
  unfoldable pub handle_approved : IdText → DecisionView → World → Summary × World
  unfolding execute_mapping
  handle_approved t view w =
      let run = execute_mapping t view w in
      if is_empty (get_executed_action_kinds t w.db)
      then run
      else (reconciled, save_result t action_taken false w)

  unfoldable pub handle : Approval → World → Summary × World
  unfolding handle_approved
  handle a w = elim (get_incident_for_decision a.incident_id w.db) [
    | none ↦ (not_found, w)
    | some view ↦
        let acted = handle_approved a.incident_id view w in
        if status_eq view.status approved then acted else (refused_status view.status, w)
  ]
