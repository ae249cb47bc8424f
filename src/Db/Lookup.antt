-- ===== src/Db/Lookup.antt =====
-- What a read finds behind a write.
use processguard_ai.Db.Writes.{record_approval, record_action_execution, save_action_result}
use processguard_ai.Db.Reads.{decision_view, DecisionView, get_incident_for_decision}
use processguard_ai.Db.Store.{
  on_row, uuid_text, malformed, Db, IdText, statements, update_incident, find_incident,
}
use processguard_ai.Incident.{
  ApprovalRow, ActionOutcome, CmmsKind, action_taken, status_eq, Status, Incident, Uuid,
}
use processguard_ai.Base.{
  ◌++◌, ok, some-injective, ℕ, ◌≡◌, refl, ap, ◌∙◌, inl, inr, Bool, true, ◌&&◌, Option, some, List,
  [], ◌∷◌, arith, ◌==◌, Bool-cases, Option-cases, Text,
}

pub find-update :
    (u : Uuid) (f : Incident → Incident)
    → ((r : Incident) → (f r).id ≡ r.id)
    → (is : List Incident) (i : Incident) → find_incident u is ≡ some i
    → find_incident u (update_incident u f is) ≡ some (f i)
find-update u f same [] i e = cc
find-update u f same (r ∷ is) i e = elim (Bool-cases (r.id == u)) [
  | inl here ↦
      let found : r ≡ i = some-injective r i (rw here at e) in
      let hit : ((f r).id == u) ≡ true = ap (λ (x : ℕ). x == u) (same r) ∙ here in
      rw here (rw hit (ap (λ (x : Incident). some (f x)) found))
  | inr further ↦ rw further (rw further (find-update u f same is i (rw further at e)))
]

pub decision-found :
    (u : Uuid) (db : Db) (i : Incident)
    → find_incident u db.incidents ≡ some i
    → get_incident_for_decision (uuid_text u) db ≡ some (decision_view i)
unfolding get_incident_for_decision
decision-found u db i e = rw (e, get_incident_for_decision) refl

-- The row of a decision view, behind a write that sets its status.
pub decision-save_action_result :
    (t : IdText) (s : Status) (executions : Bool) (db : Db) (view : DecisionView)
    → get_incident_for_decision t db ≡ some view
    → (after : DecisionView) × (get_incident_for_decision t (save_action_result t s executions db).1
        ≡ some after)
      × (after.status ≡ s)
unfolding get_incident_for_decision save_action_result statements
decision-save_action_result (malformed x) s executions db view e = cc
decision-save_action_result (uuid_text u) s executions db view e =
    elim (Option-cases (find_incident u db.incidents)) [
      | inl missing ↦ absurd (ground arith)
      | inr (i, found) ↦
          let moved : Incident → Incident = λ r. record r { status = s; updated_at = db.clock } in
          let stamped : Incident → Incident =
            λ r. record r { action_executed_at = some db.clock } in
          let once = find-update u moved (λ r. refl) db.incidents i found in
          let twice =
            find-update u stamped (λ r. refl) (update_incident u moved db.incidents) (moved i)
              once in
          elim (Bool-cases (status_eq s action_taken && executions)) [
            | inl both ↦
                rw (found, on_row)
                  (rw both (
                    rw (twice, get_incident_for_decision)
                      (decision_view (stamped (moved i)), refl, refl)))
            | inr not_both ↦
                rw (found, on_row)
                  (rw not_both
                    (rw (once, get_incident_for_decision) (decision_view (moved i), refl, refl)))
          ]
    ]

-- The view reads the incidents alone.
pub decision_same :
    (t : IdText) (db after : Db)
    → after.incidents ≡ db.incidents
    → get_incident_for_decision t after ≡ get_incident_for_decision t db
unfolding get_incident_for_decision
decision_same (malformed x) db after e = refl
decision_same (uuid_text u) db after e = rw e refl

pub incidents-record_action_execution :
    (t : IdText) (k : CmmsKind) (d : Text) (o : ActionOutcome) (r : Option Text) (db : Db)
    → (record_action_execution t k d o r db).incidents ≡ db.incidents
unfolding record_action_execution
incidents-record_action_execution (uuid_text u) k d o r db = refl
incidents-record_action_execution (malformed x) k d o r db = refl

-- The row that `record_approval` appends.
abbrev pub approval_row : Uuid → Status → Text → Option ℕ → Option Text → ℕ → ApprovalRow
approval_row u decision by level justification at = record {
  incident = u;
  decision = decision;
  decided_by = by;
  decided_at = at;
  approved_level = level;
  justification = justification;
}

-- What `record_approval` does where the incident exists.
pub record_approval_found :
    (u : Uuid) (decision : Status) (by : Text) (level : Option ℕ) (justification : Option Text)
    (db : Db) (view : DecisionView)
    → get_incident_for_decision (uuid_text u) db ≡ some view
    → let (out, after) = record_approval (uuid_text u) decision by level justification db in
      (out ≡ ok (some db.clock))
      × (after.approvals
          ≡ db.approvals ++ approval_row u decision by level justification db.clock ∷ [])
      × ((moved : DecisionView) × (get_incident_for_decision (uuid_text u) after ≡ some moved)
          × (moved.status ≡ decision))
unfolding get_incident_for_decision record_approval statements
record_approval_found u decision by level justification db view e =
    elim (Option-cases (find_incident u db.incidents)) [
      | inl missing ↦ absurd (ground arith)
      | inr (i, found) ↦
          let moved : Incident → Incident =
            λ r. record r { status = decision; updated_at = db.clock } in
          let once = find-update u moved (λ r. refl) db.incidents i found in
          rw (found, on_row)
            (refl, refl, rw (once, get_incident_for_decision) (decision_view (moved i), refl, refl))
    ]
