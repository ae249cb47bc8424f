-- ===== src/Agents/Gate.antt =====
-- The HITL gate of the orchestrator, and how it sits with the table of legal transitions.
use processguard_ai.Db.Lookup.{find-update}
use processguard_ai.Agents.Recommend.{routed_status}
use processguard_ai.World.{World}
use processguard_ai.Incident.{
  awaiting_approval, auto_informed, Incident, orchestrator, status_eq_sound, status_eq, recommended,
  Actor, Status, Uuid,
}
use processguard_ai.Agents.Orchestrate.{expected_status, apply_hitl_gate}
use processguard_ai.Db.{
  on_row, decision_view, find_incident, Db, uuid_text, DecisionView, statements,
  transition_incident, get_incident_for_decision,
}
use processguard_ai.Incident.Transitions.{is_valid_transition}
use processguard_ai.Base.{
  or_nonzero, ℕ, zero, suc, Option, none, some-injective, ◌↔◌, ◌≡◌, refl, ap, ◌∙◌, inl, inr, true,
  some, arith, Bool-cases, Option-cases,
}

transition-status :
    (u : Uuid) (s : Status) (who : Actor) (db : Db) (view : DecisionView)
    → get_incident_for_decision (uuid_text u) db ≡ some view
    → get_incident_for_decision (uuid_text u) (transition_incident (uuid_text u) s who db).1
      ≡ some (record view { status = s })
unfolding get_incident_for_decision transition_incident statements
transition-status u s who db view e = elim (Option-cases (find_incident u db.incidents)) [
  | inl missing ↦ absurd (ground arith)
  | inr (i, found) ↦
      let moved : Incident → Incident = λ r. record r { status = s; updated_at = db.clock } in
      let once = find-update u moved (λ r. refl) db.incidents i found in
      let seen : decision_view i ≡ view =
        some-injective _ view (rw (found, get_incident_for_decision) at e) in
      rw (found, on_row)
        (rw (once, get_incident_for_decision)
          (ap (λ (v : DecisionView). some (record v { status = s })) seen))
]

-- The status that a required approval level asks for: informed up to level 1, awaiting approval from
-- level 2 on, and awaiting approval where no level is set or it is 0.
abbrev pub StatusFor : Option ℕ → Status → Type 0
StatusFor none s = s ≡ awaiting_approval
StatusFor (some zero) s = s ≡ awaiting_approval
StatusFor (some (suc zero)) s = s ≡ auto_informed
StatusFor (some (suc (suc n))) s = s ≡ awaiting_approval

pub routed_status-StatusFor :
    (level : Option ℕ) → StatusFor level (routed_status (or_nonzero level 2))
unfolding routed_status
routed_status-StatusFor none = refl
routed_status-StatusFor (some zero) = refl
routed_status-StatusFor (some (suc zero)) = refl
routed_status-StatusFor (some (suc (suc n))) = ground arith

expected_status-StatusFor :
    (view : DecisionView) → StatusFor view.required_approval_level (expected_status view)
unfolding expected_status
expected_status-StatusFor view = routed_status-StatusFor view.required_approval_level

-- Whatever the status before, behind the gate the incident is informed where its required approval level
-- is 1, and awaits approval where it is 2 or more, 0 or missing; and nothing else that the decision
-- endpoints read has changed.
pub apply_hitl_gate-status :
    (u : Uuid) (w : World) (view : DecisionView)
    → get_incident_for_decision (uuid_text u) w.db ≡ some view
    → (s : Status) × (get_incident_for_decision (uuid_text u) (apply_hitl_gate (uuid_text u) w).db
        ≡ some (record view { status = s }))
      × StatusFor view.required_approval_level s
unfolding apply_hitl_gate
apply_hitl_gate-status u w view e =
    elim (Bool-cases (status_eq view.status (expected_status view))) [
      | inl same ↦
          rw (e, apply_hitl_gate)
            (rw same (
              expected_status view,
              e ∙ ap (λ (s : Status). some (record view { status = s })) (status_eq_sound _ _ same),
              expected_status-StatusFor view,
            ))
      | inr other ↦
          rw (e, apply_hitl_gate)
            (rw other (
              expected_status view,
              transition-status u (expected_status view) orchestrator w.db view e,
              expected_status-StatusFor view,
            ))
    ]

-- The status that the gate asks for is a legal move from `recommended` and from no other status, so a
-- gate that changes any other status makes a move that the table forbids.
pub expected_status_legal :
    (view : DecisionView) (s : Status)
    → (is_valid_transition s (expected_status view) ≡ true) ↔ (s ≡ recommended)
unfolding is_valid_transition expected_status routed_status
expected_status_legal view s = (λ h. ground arith, λ h. ground arith)
