-- ===== src/Action/Resolutions.antt =====
-- `_check_resolutions` and `_close_loop`: the poll that closes the learning loop of incidents whose
-- work order the CMMS has resolved.
use processguard_ai.Action.Handle.{actions_or_empty}
use processguard_ai.Mapping.{text_or_empty}
use processguard_ai.World.{action_completed, publish_safely, World}
use processguard_ai.Incident.{
  Status, status_eq, work_order, succeeded, product_reorder, action_dict, ActionRow, ActionItem,
}
use processguard_ai.Cmms.{
  get_work_order, returned, raised_cmms_error, request, Body, CallResult, Server,
}
use processguard_ai.Db.{
  get_incident_for_decision, close_incident_loop, uuid_text, get_incident_action_record, id_eq,
  Lesson, get_action_taken_incident_ids, DecisionView, IdText,
}
use processguard_ai.Base.{
  text_eq, ℕ, Bool, true, false, Option, none, some, List, [], ◌∷◌, ◌++◌, if◌then◌else◌, any, Text,
  codes,
}

-- `a.get("action") for a in view.get("recommended_actions") or [] if isinstance(a, dict) and …`
abbrev named_actions : List ActionItem → List Text
named_actions [] = []
named_actions (action_dict (some (c ∷ t)) p k m q ∷ rest) = (c ∷ t) ∷ named_actions rest
named_actions (_ ∷ rest) = named_actions rest

-- `"; ".join(actions)`
abbrev join : List Text → Text
join [] = []
join (t ∷ []) = t
join (t ∷ u ∷ rest) = t ++ codes "; " ++ join (u ∷ rest)

abbrev or_else : Text → Text → Text
or_else [] d = d
or_else (c ∷ t) d = c ∷ t

unfoldable pub lesson_of : DecisionView → Body → Lesson
lesson_of view order = record {
  equipment = some (uuid_text view.equipment_id);
  root_cause = or_else (text_or_empty view.root_cause_hypothesis) (codes "unrecorded");
  action_taken =
      or_else (join (named_actions (actions_or_empty view.recommended_actions)))
        (or_else order.description (codes "unrecorded"));
  action_worked = true;
  resolution = or_else (text_or_empty order.resolution_note) (codes "work order resolved");
}

unfoldable pub close_loop : IdText → DecisionView → Body → World → World
unfolding lesson_of
close_loop t view order w =
    publish_safely (action_completed t)
      (record w { db = (close_incident_loop t (lesson_of view order) w.db).1 })

-- The work order that a recorded execution names.
abbrev pub work_order_of : ActionRow → Option Text
work_order_of a = elim a.operation [
  | product_reorder ↦ none
  | work_order ↦ elim a.outcome [
    | succeeded ↦ elim (text_or_empty a.reference) [ [] ↦ none | c ∷ t ↦ some (c ∷ t) ]
    | _ ↦ none
  ]
]

-- Behind the answer of the CMMS, whether the loop is closed, which ends the look at this incident.
unfoldable pub close_if_resolved : IdText → CallResult → World → Bool × World
unfolding close_loop
close_if_resolved t (raised_cmms_error text) w = (false, w)
close_if_resolved t (returned order) w =
    if text_eq order.status (codes "resolved")
    then (elim (get_incident_for_decision t w.db) [
      | none ↦ (false, w)
      | some view ↦
          if status_eq view.status Status.action_taken
          then (true, close_loop t view order w)
          else (false, w)
    ])
    else (false, w)

module _ (server : Server) (attempts : ℕ) where
  unfoldable pub check_execution : IdText → Option Text → World → Bool × World
  unfolding close_if_resolved
  check_execution t none w = (false, w)
  check_execution t (some reference) w =
      let (out, net) = request server attempts (get_work_order reference) w.net in
      close_if_resolved t out (record w { net = net })

  unfoldable pub check_executions : IdText → List ActionRow → World → World
  unfolding check_execution
  check_executions t [] w = w
  check_executions t (a ∷ rows) w =
      let (closed, w2) = check_execution t (work_order_of a) w in
      let next = check_executions t rows w2 in if closed then w2 else next

  unfoldable pub check_incident : List IdText → IdText → World → World
  unfolding check_executions
  check_incident in_flight t w =
      if any (λ u. id_eq u t) in_flight then w else (elim (get_incident_action_record t w.db) [
        | none ↦ w
        | some rows ↦ check_executions t rows w
      ])

  unfoldable pub check_incidents : List IdText → List IdText → World → World
  unfolding check_incident
  check_incidents in_flight [] w = w
  check_incidents in_flight (t ∷ ts) w = check_incidents in_flight ts (check_incident in_flight t w)

  unfoldable pub check_resolutions : List IdText → World → World
  unfolding check_incidents
  check_resolutions in_flight w = check_incidents in_flight (get_action_taken_incident_ids w.db) w
