-- ===== src/Diagnosis/Recorded.antt =====
-- What the two attempts leave in the record.
use processguard_ai.Agents.Routing.{decision-spend}
use processguard_ai.Db.Lookup.{find-update}
use processguard_ai.Agents.{spend}
use processguard_ai.World.{publish, publish-keeps, root_cause_stage, stage_completed, World}
use processguard_ai.Incident.{Incident, needs_human_review, investigating, Uuid, Status}
use processguard_ai.Diagnosis.Diagnose.{
  withheld, diagnose_from, accept_answer, diagnose, persist_diagnosis,
}
use processguard_ai.Db.{
  on_row, decision_view, find_incident, Db, uuid_text, statements, save_root_cause, DecisionView,
  get_incident_for_decision,
}
use processguard_ai.Diagnosis.Citations.{
  parse_and_validate, valid_answer, Evidence, Reading, invalid_answer, Parsed, CitedPoint,
}
use processguard_ai.Diagnosis.Grounded.{IsGrounded, parse_and_validate-IsGrounded}
use processguard_ai.Base.{
  All, map, ◌≤◌, ◌≢◌, Result, err, Error, Result-cases, some-injective, ℕ, zero, suc, ◌≡◌, refl, ap,
  ◌⊎◌, inl, inr, true, some, List, [], arith, Option-cases, Text, ok,
}

-- A diagnosis in the view of the decision endpoints.
abbrev pub with_diagnosis : DecisionView → Text → ℕ → Status → DecisionView
with_diagnosis view h n s = record view {
  root_cause_hypothesis = some h;
  confidence = some n;
  status = s;
}

decision-save_root_cause :
    (u : Uuid) (h : Text) (n : ℕ) (cited : Text) (s : Status) (db : Db) (view : DecisionView)
    → get_incident_for_decision (uuid_text u) db ≡ some view
    → let (out, after) = save_root_cause (uuid_text u) h n cited s db in
      (out ≡ ok true)
      × (get_incident_for_decision (uuid_text u) after ≡ some (with_diagnosis view h n s))
unfolding get_incident_for_decision save_root_cause statements
decision-save_root_cause u h n cited s db view e =
    elim (Option-cases (find_incident u db.incidents)) [
      | inl missing ↦ absurd (ground arith)
      | inr (i, found) ↦
          let diagnosed : Incident → Incident = λ r. record r {
            root_cause_hypothesis = some h;
            confidence = some n;
            cited_evidence = some cited;
            status = s;
            updated_at = db.clock;
          } in
          let once = find-update u diagnosed (λ r. refl) db.incidents i found in
          let seen : decision_view i ≡ view =
            some-injective _ view (rw (found, get_incident_for_decision) at e) in
          rw (found, on_row)
            (
              refl,
              rw (once, get_incident_for_decision)
                  (ap (λ (v : DecisionView). some (with_diagnosis v h n s)) seen),
            )
    ]

persist_diagnosis-decision :
    (left u : ℕ) (h : Text) (n : ℕ) (cited : Text) (s : Status) (w : World) (view : DecisionView)
    → get_incident_for_decision (uuid_text u) w.db ≡ some view
    → let (out, after) = persist_diagnosis (suc left) (uuid_text u) h n cited s w in
      (out ≡ ok tt)
      × (get_incident_for_decision (uuid_text u) after.db ≡ some (with_diagnosis view h n s))
unfolding persist_diagnosis
persist_diagnosis-decision left u h n cited s w view e =
    let (done, seen) = decision-save_root_cause u h n cited s w.db view e in
    rw (done, persist_diagnosis) (refl, seen)

Parsed-cases :
    (p : Parsed)
    → (p ≡ invalid_answer)
      ⊎ ((h : Text) × (n : ℕ) × (cited : List CitedPoint) × (p ≡ valid_answer h n cited))
Parsed-cases invalid_answer = inl refl
Parsed-cases (valid_answer h n cited) = inr (h, n, cited, refl)

module _ (left : ℕ) (dumps : List CitedPoint → Text) (answers : ℕ → Result Reading)
    (cost : ℕ → ℕ) where
  accept_answer-decision :
      (attempt u : ℕ) (h : Text) (n : ℕ) (cited : List CitedPoint) (w : World) (view : DecisionView)
      → get_incident_for_decision (uuid_text u) w.db ≡ some view
      → get_incident_for_decision
          (uuid_text u)
          (accept_answer (suc left) dumps answers cost attempt (uuid_text u) h n cited w).1.db
        ≡ some (with_diagnosis view h n investigating)
  unfolding accept_answer
  accept_answer-decision attempt u h n cited w view e =
      let written = persist_diagnosis (suc left) (uuid_text u) h n (dumps cited) investigating w in
      let (done, seen) =
        persist_diagnosis-decision left u h n (dumps cited) investigating w view e in
      let paid = spend (uuid_text u) (cost attempt) written.1 in
      let event = stage_completed root_cause_stage (uuid_text u) in
      let kept = (publish-keeps event paid).0 in
      let after = decision-spend u (cost attempt) written.1 _ seen in
      rw (done, accept_answer)
        (elim (Result-cases (publish event paid).0) [
          | inl (x, failed) ↦ rw failed (rw kept after)
          | inr (v, told) ↦ rw told (rw kept after)
        ])

  -- What stands in the record: a hypothesis all of whose points are cited, a statement that the evidence
  -- is insufficient, the note that the diagnosis is withheld, or, where the model's client raised, what
  -- stood there before.
  pub data IsRecorded (e : Evidence) (view : DecisionView) : DecisionView → Type 0 where
    grounded_diagnosis :
        (attempt : ℕ) (r : Reading) (h : Text) (n : ℕ) (cited : List CitedPoint)
        → answers attempt ≡ ok r
        → r.hypothesis ≡ some h
        → All (IsGrounded e) cited
        → cited ≢ []
        → map (λ (p : CitedPoint). p.point) cited ≡ r.points
        → n ≤ 100
        → IsRecorded e view (with_diagnosis view h n investigating)
    insufficient_evidence :
        (attempt : ℕ) (r : Reading)
        → answers attempt ≡ ok r
        → r.insufficient ≡ true
        → IsRecorded e view (with_diagnosis view r.first_line 0 investigating)
    withheld_diagnosis : IsRecorded e view (with_diagnosis view withheld 0 needs_human_review)
    model_raised : (attempt : ℕ) (x : Error) → answers attempt ≡ err x → IsRecorded e view view

  accepted-IsRecorded :
      (e : Evidence) (view : DecisionView) (attempt : ℕ) (r : Reading) (h : Text) (n : ℕ)
      (cited : List CitedPoint)
      → answers attempt ≡ ok r
      → parse_and_validate r e ≡ valid_answer h n cited
      → IsRecorded e view (with_diagnosis view h n investigating)
  accepted-IsRecorded e view attempt r h n cited said valid =
      elim (parse_and_validate-IsGrounded e r h n cited valid) [
        | inl (honest, first, zero_confidence, none_cited) ↦
            rw first (rw zero_confidence (insufficient_evidence attempt r said honest))
        | inr (states, all_cited, some_cited, every_point, bounded) ↦
            grounded_diagnosis attempt r h n cited said states all_cited some_cited every_point
              bounded
      ]

  diagnose_from-IsRecorded :
      (tries attempt u : ℕ) (e : Evidence) (w : World) (view : DecisionView)
      → get_incident_for_decision (uuid_text u) w.db ≡ some view
      → (after : DecisionView) × (get_incident_for_decision
            (uuid_text u)
            (diagnose_from (suc left) dumps answers cost tries attempt (uuid_text u) e w).1.db
          ≡ some after)
        × IsRecorded e view after
  unfolding diagnose_from
  diagnose_from-IsRecorded zero attempt u e w view found =
      let (done, seen) =
        persist_diagnosis-decision left u withheld 0 (dumps []) needs_human_review w view found in
      rw (done, diagnose_from) (_, seen, withheld_diagnosis)
  diagnose_from-IsRecorded (suc tries) attempt u e w view found =
      elim (Result-cases (answers attempt)) [
        | inl (x, raised) ↦ rw (raised, diagnose_from) (view, found, model_raised attempt x raised)
        | inr (r, said) ↦ elim (Parsed-cases (parse_and_validate r e)) [
          | inl refused ↦
              rw (said, diagnose_from)
                (rw refused (diagnose_from-IsRecorded tries (suc attempt) u e w view found))
          | inr (h, n, cited, valid) ↦
              rw (said, diagnose_from)
                (rw valid (
                  _,
                  accept_answer-decision attempt u h n cited w view found,
                  accepted-IsRecorded e view attempt r h n cited said valid,
                ))
        ]
      ]

  -- For an incident that exists, the diagnosis records, as `investigating`, a hypothesis of the model all
  -- of whose points are cited from the evidence, or the line in which the model says that the evidence is
  -- insufficient, with confidence 0; or it records the fixed note with confidence 0 as
  -- `needs_human_review`; or, where the call of the model raises, nothing.
  pub diagnose-IsRecorded :
      (u : Uuid) (e : Evidence) (w : World) (view : DecisionView)
      → get_incident_for_decision (uuid_text u) w.db ≡ some view
      → (after : DecisionView) × (get_incident_for_decision
            (uuid_text u)
            (diagnose (suc left) dumps answers cost (uuid_text u) e w).1.db
          ≡ some after)
        × IsRecorded e view after
  unfolding diagnose
  diagnose-IsRecorded u e w view found = diagnose_from-IsRecorded 2 1 u e w view found
