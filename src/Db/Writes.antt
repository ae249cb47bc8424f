-- ===== src/Db/Writes.antt =====
-- The writes of the pipeline: what the agents and the API do to the store. Each takes the id as text
-- first; a ValueError of `_parse_uuid` is caught where the source catches it, and is raised otherwise.
use processguard_ai.Base.{
  ℕ, suc, ◌+◌, Text, Bool, true, false, Option, none, some, List, [], ◌∷◌, ◌++◌, ◌&&◌, Result, ok,
  err, value_error, if◌then◌else◌, ◌==◌,
}
use processguard_ai.Incident.{
  Consequence, Severity, ActionItem, Status, risk_assessed, recommended, resolved, action_taken,
  status_eq, Actor, root_cause_agent, risk_agent, recommendation_agent, hitl_gate, action_agent,
  user, hitl_decision, ApprovalRow, incident_resolved, action_executed, loop_closed, AuditKind,
  AuditRow, CmmsKind, ActionOutcome, LearnedRow,
}
use processguard_ai.Db.Store.{
  uuid_text, malformed, on_row, Db, IdText, parse_uuid, set_incident, insert_history, insert_audit,
}

unfoldable pub save_incident_evidence : IdText → Text → Db → Result Bool × Db
save_incident_evidence t evidence = on_row t (err value_error) false λ u i db.
    (true, set_incident u (λ r. record r { evidence = some evidence; updated_at = db.clock }) db)

unfoldable pub save_root_cause : IdText → Text → ℕ → Text → Status → Db → Result Bool × Db
save_root_cause t hypothesis confidence cited status = on_row t (err value_error) false λ u i db. (
  true,
  insert_history u none status root_cause_agent (
      set_incident u
        (λ r. record r {
          root_cause_hypothesis = some hypothesis;
          confidence = some confidence;
          cited_evidence = some cited;
          status = status;
          updated_at = db.clock;
        })
        db),
)

unfoldable pub add_incident_cost : IdText → ℕ → Db → Result Bool × Db
add_incident_cost t cost = on_row t (err value_error) false λ u i db. (
  true,
  set_incident u
      (λ r. record r {
        estimated_cost = some (elim r.estimated_cost [ none ↦ cost | some c ↦ c + cost ]);
        updated_at = db.clock;
      })
      db,
)

-- One row of the history, which does not move the status; no module of the service calls it.
unfoldable pub record_state_transition :
    IdText → Option Status → Status → Actor → Db → Result (Unit {0}) × Db
record_state_transition (malformed x) from to who db = (err value_error, db)
record_state_transition (uuid_text u) from to who db = (ok tt, insert_history u from to who db)

unfoldable pub transition_incident : IdText → Status → Actor → Db → Result Bool × Db
transition_incident t to who = on_row t (err value_error) false λ u i db. (
  true,
  insert_history u none to who
      (set_incident u (λ r. record r { status = to; updated_at = db.clock }) db),
)

unfoldable pub save_risk_assessment :
    IdText → Severity → List Consequence → ℕ → ℕ → Db → Result Bool × Db
save_risk_assessment t severity consequences hitl required =
    on_row t (err value_error) false λ u i db. (
      true,
      insert_history u none risk_assessed risk_agent (
          set_incident u
            (λ r. record r {
              risk_severity = some severity;
              consequences = some consequences;
              hitl_level = some hitl;
              required_approval_level = some required;
              risk_assessed_at = some db.clock;
              status = risk_assessed;
              updated_at = db.clock;
            })
            db),
    )

-- Stage 1 lands on `recommended`, stage 2 is the HITL routing.
unfoldable pub save_recommendation :
    IdText → List ActionItem → Text → Text → Status → Db → Result Bool × Db
save_recommendation t actions rationale tool_log next = on_row t (err value_error) false λ u i db.
    let stage1 = insert_history u none recommended recommendation_agent (
      set_incident u
        (λ r. record r {
          recommended_actions = some actions;
          rationale = some rationale;
          tool_call_log = some tool_log;
          recommended_at = some db.clock;
          status = recommended;
          updated_at = db.clock;
        })
        db) in
    (
      true,
      insert_history u (some recommended) next hitl_gate
          (set_incident u (λ r. record r { status = next; updated_at = db.clock }) stage1),
    )

-- The decision timestamp, or NULL if the incident does not exist.
unfoldable pub record_approval :
    IdText → Status → Text → Option ℕ → Option Text → Db → Result (Option ℕ) × Db
record_approval t decision by level justification = on_row t (err value_error) none λ u i db.
    let moved =
      insert_history u none decision (user by)
        (set_incident u (λ r. record r { status = decision; updated_at = db.clock }) db) in
    let approval : ApprovalRow = record {
      incident = u;
      decision = decision;
      decided_by = by;
      decided_at = db.clock;
      approved_level = level;
      justification = justification;
    } in
    let signed = record moved { approvals = moved.approvals ++ approval ∷ [] } in
    (
      some db.clock,
      insert_audit
          (record {
            kind = hitl_decision decision;
            incident = u;
            actor = user by;
            logged_at = db.clock;
          })
          signed,
    )

-- One row for each attempt of a CMMS operation. A malformed id is dropped in silence.
unfoldable pub record_action_execution :
    IdText → CmmsKind → Text → ActionOutcome → Option Text → Db → Db
record_action_execution t kind description outcome reference db = elim (parse_uuid t) [
  | none ↦ db
  | some u ↦ record db {
    actions =
        db.actions
        ++ record {
          incident = u;
          operation = kind;
          description = description;
          reference = reference;
          outcome = outcome;
          attempted_at = db.clock;
        }
          ∷ [];
  }
]

-- `executions` says whether the caller passed the list of executions.
unfoldable pub save_action_result : IdText → Status → Bool → Db → Result Bool × Db
save_action_result t status executions = on_row t (ok false) false λ u i db.
    let moved =
      insert_history u none status action_agent
        (set_incident u (λ r. record r { status = status; updated_at = db.clock }) db) in
    let stamped =
      insert_audit
        (record {
          kind = action_executed;
          incident = u;
          actor = action_agent;
          logged_at = db.clock;
        })
        (set_incident u (λ r. record r { action_executed_at = some db.clock }) moved) in
    (true, if status_eq status action_taken && executions then stamped else moved)

-- The resolution time, or NULL if the incident does not exist.
unfoldable pub resolve_incident_manually : IdText → Text → Db → Result (Option ℕ) × Db
resolve_incident_manually t by = on_row t (ok none) none λ u i db. (
  some db.clock,
  insert_audit
      (record { kind = incident_resolved; incident = u; actor = user by; logged_at = db.clock })
      (insert_history u none resolved (user by) (
        set_incident u
          (λ r. record r { status = resolved; resolved_at = some db.clock; updated_at = db.clock })
          db)),
)

abbrev is_loop_closed : AuditKind → Bool
is_loop_closed loop_closed = true
is_loop_closed _ = false

-- SELECT COUNT(*) FROM "AuditLog" WHERE "IncidentId" = $1 AND "Action" = 'loop_closed'
unfoldable pub count_loop_closed : ℕ → List AuditRow → ℕ
count_loop_closed u [] = 0
count_loop_closed u (a ∷ rest_rows) =
    let rest = count_loop_closed u rest_rows in
    if a.incident == u && is_loop_closed a.kind then suc rest else rest

-- What the Action Agent learned from a resolved work order.
pub record Lesson : Type 0 where
  pub equipment : Option IdText
  pub root_cause : Text
  pub action_taken : Text
  pub action_worked : Bool
  pub resolution : Text

abbrev learned_row : Lesson → ℕ → ℕ → LearnedRow
learned_row l u now = record {
  id = u;
  equipment = elim l.equipment [ none ↦ none | some e ↦ parse_uuid e ];
  root_cause = l.root_cause;
  action_taken = l.action_taken;
  action_worked = l.action_worked;
  resolution = l.resolution;
  occurred_at = now;
}

-- The id of the learned row, or NULL if the incident does not exist or its loop is closed already.
unfoldable pub close_incident_loop : IdText → Lesson → Db → Result (Option ℕ) × Db
unfolding count_loop_closed
close_incident_loop t lesson = on_row t (ok none) none λ u i db.
    let closed =
      insert_audit
        (record { kind = loop_closed; incident = u; actor = action_agent; logged_at = db.clock })
        (insert_history u none resolved action_agent (
          set_incident u
            (λ r. record r {
              status = resolved;
              resolved_at = some db.clock;
              updated_at = db.clock;
            })
            db)) in
    let learned = record closed {
      historical = closed.historical ++ learned_row lesson closed.next_uuid db.clock ∷ [];
      next_uuid = suc closed.next_uuid;
    } in
    if count_loop_closed u db.audit == 0 then (some closed.next_uuid, learned) else (none, db)

unfoldable pub record_learned_incident : Lesson → Db → ℕ × Db
record_learned_incident lesson db = (
  db.next_uuid,
  record db {
    historical = db.historical ++ learned_row lesson db.next_uuid db.clock ∷ [];
    next_uuid = suc db.next_uuid;
  },
)
