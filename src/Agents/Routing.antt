-- ===== src/Agents/Routing.antt =====
-- How the agents of the pipeline fit together: what the Recommendation Agent routes to, the gate
-- confirms.
use processguard_ai.World.{publish, publish-keeps, recommendation_stage, stage_completed, World}
use processguard_ai.Agents.Recommend.{
  write_up, hitl_note, routed_status, recommend, Recommendation, spend, persist_with_retry,
}
use processguard_ai.Agents.Orchestrate.{expected_status, apply_hitl_gate}
use processguard_ai.Db.Lookup.{find-update}
use processguard_ai.Incident.{status_eq_refl, recommended, Incident, Status, ActionItem, Uuid}
use processguard_ai.Db.{
  IdText, DiagnosisState, add_incident_cost, on_row, decision_view, update_incident, find_incident,
  uuid_text, DecisionView, Db, statements, save_recommendation, get_incident_for_decision,
}
use processguard_ai.Base.{
  ◌⊎◌, err, Error, Result, Result-cases, if_ind, some-injective, ℕ, suc, ◌+◌, ◌≡◌, refl, ap, inl,
  inr, true, none, some, List, ◌++◌, arith, ltb, Option-cases, or_nonzero, Text, codes, ok,
}

-- The decision view behind a recommendation.
pub decision-save_recommendation :
    (u : Uuid) (actions : List ActionItem) (why log : Text) (next : Status) (db : Db)
    (view : DecisionView)
    → get_incident_for_decision (uuid_text u) db ≡ some view
    → let (out, after) = save_recommendation (uuid_text u) actions why log next db in
      (out ≡ ok true)
      × (get_incident_for_decision (uuid_text u) after
          ≡ some (record view { status = next; recommended_actions = some actions }))
unfolding get_incident_for_decision save_recommendation statements
decision-save_recommendation u actions why log next db view e =
    elim (Option-cases (find_incident u db.incidents)) [
      | inl missing ↦ absurd (ground arith)
      | inr (i, found) ↦
          let stage1 : Incident → Incident = λ r. record r {
            recommended_actions = some actions;
            rationale = some why;
            tool_call_log = some log;
            recommended_at = some db.clock;
            status = recommended;
            updated_at = db.clock;
          } in
          let stage2 : Incident → Incident =
            λ r. record r { status = next; updated_at = db.clock } in
          let once = find-update u stage1 (λ r. refl) db.incidents i found in
          let twice =
            find-update u stage2 (λ r. refl) (update_incident u stage1 db.incidents) (stage1 i)
              once in
          let seen : decision_view i ≡ view =
            some-injective _ view (rw (found, get_incident_for_decision) at e) in
          rw (found, on_row)
            (
              refl,
              rw (twice, get_incident_for_decision)
                  (ap
                    (λ (v : DecisionView).
                      some (record v { status = next; recommended_actions = some actions }))
                    seen),
            )
    ]

decision-add_incident_cost :
    (u : Uuid) (cost : ℕ) (db : Db) (view : DecisionView)
    → get_incident_for_decision (uuid_text u) db ≡ some view
    → get_incident_for_decision (uuid_text u) (add_incident_cost (uuid_text u) cost db).1
      ≡ some view
unfolding get_incident_for_decision add_incident_cost statements
decision-add_incident_cost u cost db view e = elim (Option-cases (find_incident u db.incidents)) [
  | inl missing ↦ absurd (ground arith)
  | inr (i, found) ↦
      let seen : decision_view i ≡ view =
        some-injective _ view (rw (found, get_incident_for_decision) at e) in
      let paid : Incident → Incident = λ r. record r {
        estimated_cost = some (elim r.estimated_cost [ none ↦ cost | some c ↦ c + cost ]);
        updated_at = db.clock;
      } in
      let once = find-update u paid (λ r. refl) db.incidents i found in
      rw (found, on_row)
        (rw (once, get_incident_for_decision) (ap (λ (v : DecisionView). some v) seen))
]

pub decision-spend :
    (u : Uuid) (cost : ℕ) (w : World) (view : DecisionView)
    → get_incident_for_decision (uuid_text u) w.db ≡ some view
    → get_incident_for_decision (uuid_text u) (spend (uuid_text u) cost w).db ≡ some view
unfolding spend
decision-spend u cost w view e =
    if_ind (λ (x : World). get_incident_for_decision (uuid_text u) x.db ≡ some view) (ltb 0 cost) _
      _ (decision-add_incident_cost u cost w.db view e) e

-- The first attempt of the bounded write goes through.
persist_with_retry-decision :
    (left u : ℕ) (actions : List ActionItem) (why log : Text) (next : Status) (w : World)
    (view : DecisionView)
    → get_incident_for_decision (uuid_text u) w.db ≡ some view
    → let (out, after) = persist_with_retry (suc left) (uuid_text u) actions why log next w in
      (out ≡ ok tt)
      × (get_incident_for_decision (uuid_text u) after.db
          ≡ some (record view { status = next; recommended_actions = some actions }))
unfolding persist_with_retry
persist_with_retry-decision left u actions why log next w view e =
    let (done, seen) = decision-save_recommendation u actions why log next w.db view e in
    rw (done, persist_with_retry) (refl, seen)

-- A gate that finds the status it asks for does nothing.
pub apply_hitl_gate-same :
    (t : IdText) (w : World) (view : DecisionView)
    → get_incident_for_decision t w.db ≡ some view
    → view.status ≡ expected_status view
    → apply_hitl_gate t w ≡ w
unfolding apply_hitl_gate expected_status
apply_hitl_gate-same t w view e same =
    rw (e, apply_hitl_gate) (rw same (rw (status_eq_refl (expected_status view)) refl))

-- The planner raised this, or the reading of what it said did.
abbrev pub Raises :
    (DiagnosisState → DecisionView → Result (Text × Text × ℕ))
    → (Text → Result Recommendation)
    → Error
    → Type 0
Raises plan parse e =
    (state : DiagnosisState) × (view : DecisionView) × ((plan state view ≡ err e)
      ⊎ ((said : Text × Text × ℕ) × (plan state view ≡ ok said) × (parse said.0 ≡ err e)))

module _ (left : ℕ) (plan : DiagnosisState → DecisionView → Result (Text × Text × ℕ))
    (parse : Text → Result Recommendation) where
  write_up-decision :
      (u : Uuid) (view : DecisionView) (log : Text) (parsed : Recommendation) (w : World)
      → get_incident_for_decision (uuid_text u) w.db ≡ some view
      → get_incident_for_decision
          (uuid_text u)
          (write_up (suc left) plan parse (uuid_text u) view log parsed w).1.db
        ≡ some (record view {
          status = routed_status (or_nonzero view.hitl_level 2);
          recommended_actions = some parsed.actions;
        })
  unfolding write_up
  write_up-decision u view log parsed w e =
      let hitl = or_nonzero view.hitl_level 2 in
      let why = hitl_note hitl ++ codes "\n" ++ parsed.rationale in
      let (done, seen) =
        persist_with_retry-decision left u parsed.actions why log (routed_status hitl) w view e in
      let attempt =
        persist_with_retry (suc left) (uuid_text u) parsed.actions why log (routed_status hitl) w in
      let event = stage_completed recommendation_stage (uuid_text u) in
      let kept = (publish-keeps event attempt.1).0 in
      rw (done, write_up)
        (elim (Result-cases (publish event attempt.1).0) [
          | inl (x, failed) ↦ rw failed (rw kept seen)
          | inr (v, told) ↦ rw told (rw kept seen)
        ])

  -- Either the model or the reading of its text raises, which is what the agent then raises, and the
  -- incident stays as it was for the decision endpoints; or the incident is routed.
  pub recommend-decision :
      (u : Uuid) (state : DiagnosisState) (view : DecisionView) (w : World)
      → get_incident_for_decision (uuid_text u) w.db ≡ some view
      → let (out, after) = recommend (suc left) plan parse (uuid_text u) state view w in
        ((e : Error) × (out ≡ err e)
          × Raises plan parse e
          × (get_incident_for_decision (uuid_text u) after.db ≡ some view))
        ⊎ ((parsed : Recommendation) × (get_incident_for_decision (uuid_text u) after.db
              ≡ some (record view {
                status = routed_status (or_nonzero view.hitl_level 2);
                recommended_actions = some parsed.actions;
              })))
  unfolding recommend
  recommend-decision u state view w e = elim (Result-cases (plan state view)) [
    | inl (x, raised) ↦ rw (raised, recommend) (inl (x, refl, (state, view, inl raised), e))
    | inr (said, planned) ↦ elim (Result-cases (parse said.0)) [
      | inl (x, raised) ↦
          rw (planned, recommend)
            (rw raised (
              inl (
                x,
                refl,
                (state, view, inr (said, planned, raised)),
                decision-spend u said.2 w view e,
              )))
      | inr (parsed, read) ↦
          rw (planned, recommend)
            (rw read (
              inr (
                parsed,
                write_up-decision u view said.1 parsed (spend (uuid_text u) said.2 w)
                    (decision-spend u said.2 w view e),
              )))
    ]
  ]
