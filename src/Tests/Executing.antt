-- ===== src/Tests/Executing.antt =====
-- The CMMS client and the Action Agent.
use processguard_ai.World.{publish_safely}
use processguard_ai.Incident.{approved}
use processguard_ai.Mapping.{
  has_operations, classify_text, known_type, classify_action, map_recommendation_to_cmms,
}
use processguard_ai.Cmms.{judge, request_loop, request, get_work_order}
use processguard_ai.Action.Safety.{handle-handle, handle-IsSettled, IsSettled}
use processguard_ai.Tests.Samples.{incident, down, world, approval, flaky}
use processguard_ai.Action.{
  save_result, reference_of, operation_request, attempt_description, record_attempt,
  after_operation, after_call, call, execute_with_retry, run_operations, handle,
}
use processguard_ai.Db.{
  save_action_result, record_action_execution, decision_view, uuid_text, get_executed_action_kinds,
  statements, get_incident_for_decision,
}
use processguard_ai.Cmms.Retry.{request-Outcome, Outcome}
use processguard_ai.Base.{lower, strip, contains_text, ◌≡◌, refl, [], length, codes}

request-Outcome_example :
    Outcome flaky
      (get_work_order (codes "WO-1"))
      4
      []
      (request flaky 4 (get_work_order (codes "WO-1")) [])
request-Outcome_example = request-Outcome flaky 4 (get_work_order (codes "WO-1")) []

handle-IsSettled_example : IsSettled (uuid_text 1) (handle down 4 approval (world approved)).1
unfolding get_incident_for_decision
handle-IsSettled_example =
    handle-IsSettled down 4 approval (world approved) (decision_view (incident approved)) refl refl

handle-handle_example :
    (handle flaky 4 approval (handle flaky 4 approval (world approved)).1).1
    ≡ (handle flaky 4 approval (world approved)).1
handle-handle_example = handle-handle flaky 4 approval (world approved)

-- One request times out and is repeated; both operations go out, and both are recorded.
run_handle : Unit {0}
unfolding handle statements get_incident_for_decision get_executed_action_kinds
    map_recommendation_to_cmms classify_action known_type classify_text contains_text strip lower
    has_operations run_operations execute_with_retry call request request_loop judge after_call
    after_operation record_attempt record_action_execution attempt_description operation_request
    reference_of save_result save_action_result publish_safely
run_handle = tt

handle_sends : length (handle flaky 4 approval (world approved)).1.net ≡ 4
unfolding run_handle
handle_sends = refl
