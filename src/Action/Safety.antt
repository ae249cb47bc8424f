-- ===== src/Action/Safety.antt =====
-- What the Action Agent never does.
use processguard_ai.Db.Lookup.{
  decision_same, decision-save_action_result, incidents-record_action_execution,
}
use processguard_ai.Mapping.{has_operations, map_recommendation_to_cmms, CmmsOperation}
use processguard_ai.Action.Execute.{
  cmms_failure, call, executed, run_operations, Attempt, execute_with_retry, Progress,
  after_operation, after_call, record_attempt,
}
use processguard_ai.Incident.{
  status_eq_refl, status_eq_sound, status_eq, failed, succeeded, pending, ActionOutcome,
  action_failed, Status, Uuid, action_taken, status_eq-ne, approved,
}
use processguard_ai.Db.{get_executed_action_kinds, IdText, get_incident_for_decision, DecisionView}
use processguard_ai.World.{publish_safely, Event, publish_safely-keeps, World}
use processguard_ai.Action.Handle.{
  actions_or_empty, Summary, execute_mapping, handle_approved, conclude, save_result, Approval,
  handle,
}
use processguard_ai.Cmms.{raised_cmms_error, returned, CallResult, Server}
use processguard_ai.Base.{
  some-injective, if_ind, ℕ, ◌≡◌, refl, sym, ap, ◌∙◌, ◌≢◌, ◌⊎◌, inl, inr, Bool, true, false, Option,
  none, some, List, [], ◌∷◌, arith, Bool-cases, Option-cases, is_empty, Text,
}

module _ (server : Server) (attempts : ℕ) where
  -- Unless the incident exists and its status is `approved`, handling the event leaves the database,
  -- the wire and the bus as they were.
  handle-unapproved :
      (a : Approval) (w : World)
      → ((view : DecisionView)
          → get_incident_for_decision a.incident_id w.db ≡ some view
          → view.status ≢ approved)
      → (handle server attempts a w).1 ≡ w
  unfolding handle
  handle-unapproved a w h = elim (Option-cases (get_incident_for_decision a.incident_id w.db)) [
    | inl e ↦ rw (e, handle) refl
    | inr (view, e) ↦ rw (e, handle) (rw (status_eq-ne view.status approved (h view e)) refl)
  ]

incidents-record_attempt :
    (t : IdText) (op : CmmsOperation) (o : ActionOutcome) (r : Option Text) (w : World)
    → (record_attempt t op o r w).db.incidents ≡ w.db.incidents
unfolding record_attempt
incidents-record_attempt t op o r w = incidents-record_action_execution t op.kind _ o r w.db

incidents-after_call :
    (t : IdText) (op : CmmsOperation) (out : CallResult) (w : World)
    → (after_call t op out w).1.db.incidents ≡ w.db.incidents
unfolding after_call
incidents-after_call t op (returned b) w = incidents-record_attempt t op succeeded _ w
incidents-after_call t op (raised_cmms_error e) w = refl

incidents-after_operation :
    (t : IdText) (op : CmmsOperation) (out : Attempt) (p : Progress) (w : World)
    → (after_operation t op out p w).1.db.incidents ≡ w.db.incidents
unfolding after_operation
incidents-after_operation t op (executed x) p w = refl
incidents-after_operation t op (cmms_failure e) p w = incidents-record_attempt t op failed none w

module _ (server : Server) (attempts : ℕ) (t : IdText) (equipment : Option Uuid) where
  incidents-execute :
      (op : CmmsOperation) (w : World)
      → (execute_with_retry server attempts t op equipment w).1.db.incidents ≡ w.db.incidents
  unfolding execute_with_retry call
  incidents-execute op w =
      incidents-after_call t op _ _ ∙ incidents-record_attempt t op pending none w

  incidents-run_operations :
      (ops : List CmmsOperation) (p : Progress) (w : World)
      → (run_operations server attempts t equipment ops p w).1.db.incidents ≡ w.db.incidents
  unfolding run_operations
  incidents-run_operations [] p w = refl
  incidents-run_operations (op ∷ ops) p w =
      let (out, w2) = execute_with_retry server attempts t op equipment w in
      let (p3, w3) = after_operation t op out p w2 in
      incidents-run_operations ops p3 w3
      ∙ incidents-after_operation t op out p w2
      ∙ incidents-execute op w

-- The incident is there, and its status is one of those that `handle` ends with.
abbrev pub IsSettled : IdText → World → Type 0
IsSettled t w =
    (view : DecisionView) × (get_incident_for_decision t w.db ≡ some view)
    × ((view.status ≡ action_taken) ⊎ (view.status ≡ action_failed))

settle :
    (t : IdText) (s : Status) (executions : Bool) (w : World) (view : DecisionView)
    → get_incident_for_decision t w.db ≡ some view
    → (s ≡ action_taken) ⊎ (s ≡ action_failed)
    → IsSettled t (save_result t s executions w)
unfolding save_result
settle t s executions w view e ends =
    let (view', found, moved) = decision-save_action_result t s executions w.db view e in
    (view', found, ground arith)

publish-IsSettled :
    (t : IdText) (e : Event) (w : World) → IsSettled t w → IsSettled t (publish_safely e w)
publish-IsSettled t e w h = rw (publish_safely-keeps e w).0 h

conclude-IsSettled :
    (t : IdText) (p : Progress) (w : World) (view : DecisionView)
    → get_incident_for_decision t w.db ≡ some view
    → IsSettled t (conclude t p w).1
unfolding conclude
conclude-IsSettled t p w view e =
    if_ind (λ (x : Summary × World). IsSettled t x.1) (is_empty p.failures) _ _
      (publish-IsSettled t _ _ (settle t action_taken true w view e (inl refl)))
      (publish-IsSettled t _ _ (settle t action_failed false w view e (inr refl)))

module _ (server : Server) (attempts : ℕ) where
  handle_approved-IsSettled :
      (t : IdText) (view : DecisionView) (w : World)
      → get_incident_for_decision t w.db ≡ some view
      → IsSettled t (handle_approved server attempts t view w).1
  unfolding handle_approved execute_mapping
  handle_approved-IsSettled t view w e =
      let ops =
        (map_recommendation_to_cmms (actions_or_empty view.recommended_actions)).operations in
      let start : Progress = record { executions = []; failures = [] } in
      let (p, w2) = run_operations server attempts t (some view.equipment_id) ops start w in
      let kept = incidents-run_operations server attempts t (some view.equipment_id) ops start w in
      if_ind (λ (x : Summary × World). IsSettled t x.1)
        (is_empty (get_executed_action_kinds t w.db)) _ _
        (if_ind (λ (x : Summary × World). IsSettled t x.1) (has_operations _) _ _
          (conclude-IsSettled t p w2 view (decision_same t w.db w2.db kept ∙ e))
          (publish-IsSettled t _ _ (settle t action_taken false w view e (inl refl))))
        (settle t action_taken false w view e (inl refl))

  -- For an approved incident the run ends with the incident in `action_taken` or `action_failed`,
  -- whatever the CMMS answers and whether or not the bus works.
  pub handle-IsSettled :
      (a : Approval) (w : World) (view : DecisionView)
      → get_incident_for_decision a.incident_id w.db ≡ some view
      → view.status ≡ approved
      → IsSettled a.incident_id (handle server attempts a w).1
  unfolding handle
  handle-IsSettled a w view e s =
      rw (e, handle) (rw s (handle_approved-IsSettled a.incident_id view w e))

  settled_ne_approved :
      (t : IdText) (w : World) (view : DecisionView)
      → IsSettled t w
      → get_incident_for_decision t w.db ≡ some view
      → view.status ≢ approved
  settled_ne_approved t w view (settled, found, ended) e =
      let same : settled ≡ view = some-injective settled view (sym found ∙ e) in
      rw (← same) (ground arith)

  -- Delivering the same approval again changes nothing: no row, no request, no event.
  pub handle-handle :
      (a : Approval) (w : World)
      → (handle server attempts a (handle server attempts a w).1).1 ≡ (handle server attempts a w).1
  handle-handle a w = elim (Option-cases (get_incident_for_decision a.incident_id w.db)) [
    | inl missing ↦
        ap (λ (x : World). (handle server attempts a x).1)
          (handle-unapproved server attempts a w (λ view e. absurd (cc missing)))
    | inr (view, e) ↦ elim (Bool-cases (status_eq view.status approved)) [
      | inl go ↦ handle-unapproved server attempts a (handle server attempts a w).1 (λ view' e'.
          settled_ne_approved a.incident_id (handle server attempts a w).1 view'
            (handle-IsSettled a w view e (status_eq_sound view.status approved go)) e')
      | inr stop ↦
          ap (λ (x : World). (handle server attempts a x).1)
            (handle-unapproved server attempts a w (λ view' e' s.
              let same : view ≡ view' = some-injective view view' (sym e ∙ e') in
              let is_approved : view.status ≡ approved = rw same s in
              cc (
                stop,
                status_eq_refl approved,
                ap (λ (x : Status). status_eq x approved) is_approved,
              )))
    ]
  ]
