-- ===== src/Db/Once.antt =====
-- The learning loop of an incident is closed at most once.
use processguard_ai.Db.Log.{
  state_recorded, apply_writes, lesson_recorded, loop_ended, resolved_manually, result_saved,
  execution_recorded, approval_recorded, recommendation_saved, risk_saved, transitioned, cost_added,
  root_cause_saved, evidence_saved, Write, apply_write,
}
use processguard_ai.Db.Store.{
  set_incident, insert_history, insert_audit, find_incident, uuid_text, malformed, IdText, Db,
  statements, on_row,
}
use processguard_ai.Db.Writes.{
  record_state_transition, Lesson, record_action_execution, close_incident_loop, save_action_result,
  record_approval, save_recommendation, record_learned_incident, resolve_incident_manually,
  save_risk_assessment, transition_incident, add_incident_cost, save_root_cause,
  save_incident_evidence, count_loop_closed,
}
use processguard_ai.Incident.{
  loop_closed, action_agent, Status, status_eq, Incident, AuditRow, Uuid,
}
use processguard_ai.Base.{
  value_error, if_ind, ℕ, ◌+◌, ◌≤◌, ◌≡◌, refl, sym, inl, inr, true, false, ◌&&◌, none, List, [],
  ◌∷◌, ◌++◌, arith, ◌==◌, Bool-cases, Option-cases, Result, ok, err,
}

count_loop_closed-append :
    (u : Uuid) (rows more : List AuditRow)
    → count_loop_closed u (rows ++ more) ≡ count_loop_closed u rows + count_loop_closed u more
unfolding count_loop_closed
count_loop_closed-append u [] more = omega arith
count_loop_closed-append u (a ∷ rows) more = ground (arith, count_loop_closed-append u rows more)

-- What holds before, and behind the body, holds behind the statement.
on_row_ind :
    {A : Type 0} (P : Db → Type 0) (t : IdText) (bad : Result A) (missing : A)
    (body : ℕ → Incident → Db → A × Db) (db : Db)
    → P db
    → ((u : Uuid) (i : Incident) → P (body u i db).1)
    → P (on_row t bad missing body db).1
unfolding on_row
on_row_ind P (malformed t) bad missing body db p h = p
on_row_ind P (uuid_text u) bad missing body db p h =
    elim (Option-cases (find_incident u db.incidents)) [
      | inl e ↦ rw (e, on_row) p
      | inr (i, e) ↦ rw (e, on_row) (h u i)
    ]

-- An audit row of another kind does not count.
count_other :
    (v : Uuid) (rows : List AuditRow) (row : AuditRow)
    → count_loop_closed v (row ∷ []) ≡ 0
    → count_loop_closed v rows ≤ 1
    → count_loop_closed v (rows ++ row ∷ []) ≤ 1
count_other v rows row e h = omega (arith, count_loop_closed-append v rows (row ∷ []), e, h)

-- Closing the loop counts once, and only where nothing was counted before.
closing-count :
    (v u : Uuid) (rows : List AuditRow) (row : AuditRow)
    → row.incident ≡ u
    → (count_loop_closed u rows == 0) ≡ true
    → count_loop_closed v rows ≤ 1
    → count_loop_closed v (rows ++ row ∷ []) ≤ 1
unfolding count_loop_closed
closing-count v u rows row at_u zero_before h =
    rw (count_loop_closed-append v rows (row ∷ [])) (elim (Bool-cases (u == v)) [
      | inl same ↦
          let here : u ≡ v = ground arith in
          let empty : count_loop_closed v rows ≡ 0 = rw (sym here) (ground arith) in
          ground (arith, empty)
      | inr other ↦ ground (arith, at_u, other)
    ])

close_incident_loop-count :
    (v : Uuid) (t : IdText) (l : Lesson) (db : Db)
    → count_loop_closed v db.audit ≤ 1
    → count_loop_closed v (close_incident_loop t l db).1.audit ≤ 1
unfolding close_incident_loop statements
close_incident_loop-count v (malformed x) l db h = h
close_incident_loop-count v (uuid_text u) l db h =
    elim (Option-cases (find_incident u db.incidents)) [
      | inl missing ↦ rw (missing, on_row) h
      | inr (i, found) ↦ elim (Bool-cases (count_loop_closed u db.audit == 0)) [
        | inl never ↦
            rw (found, on_row)
              (rw never (
                closing-count v u db.audit
                  (record {
                    kind = loop_closed;
                    incident = u;
                    actor = action_agent;
                    logged_at = db.clock;
                  })
                  refl never h))
        | inr once ↦ rw (found, on_row) (rw once h)
      ]
    ]

-- The audit log does not tell twice that the loop of `v` was closed.
record ClosedOnce (v : Uuid) (db : Db) : Type 0 where
  pub counted : count_loop_closed v db.audit ≤ 1

same_audit :
    (v : Uuid) (db after : Db) → after.audit ≡ db.audit → ClosedOnce v db → ClosedOnce v after
same_audit v db after e h = record { counted = rw e h.counted }

-- One more audit row, of another kind.
more_audit :
    (v : Uuid) (db after : Db) (row : AuditRow)
    → after.audit ≡ db.audit ++ row ∷ []
    → count_loop_closed v (row ∷ []) ≡ 0
    → ClosedOnce v db
    → ClosedOnce v after
more_audit v db after row e other h = record {
  counted = rw e (count_other v db.audit row other h.counted);
}

apply_write-ClosedOnce :
    (v : Uuid) (w : Write) (db : Db) → ClosedOnce v db → ClosedOnce v (apply_write w db)
unfolding apply_write save_incident_evidence save_root_cause add_incident_cost transition_incident
    save_risk_assessment resolve_incident_manually record_learned_incident save_recommendation
    record_approval save_action_result record_action_execution insert_audit insert_history
    set_incident count_loop_closed record_state_transition
apply_write-ClosedOnce v (evidence_saved t e) db h =
    on_row_ind (ClosedOnce v) t _ false _ db h (λ u i. same_audit v db _ refl h)
apply_write-ClosedOnce v (root_cause_saved t a b r s) db h =
    on_row_ind (ClosedOnce v) t _ false _ db h (λ u i. same_audit v db _ refl h)
apply_write-ClosedOnce v (cost_added t c) db h =
    on_row_ind (ClosedOnce v) t _ false _ db h (λ u i. same_audit v db _ refl h)
apply_write-ClosedOnce v (state_recorded (malformed x) from to who) db h = h
apply_write-ClosedOnce v (state_recorded (uuid_text u) from to who) db h = same_audit v db _ refl h
apply_write-ClosedOnce v (transitioned t s who) db h =
    on_row_ind (ClosedOnce v) t _ false _ db h (λ u i. same_audit v db _ refl h)
apply_write-ClosedOnce v (risk_saved t s c l r) db h =
    on_row_ind (ClosedOnce v) t _ false _ db h (λ u i. same_audit v db _ refl h)
apply_write-ClosedOnce v (recommendation_saved t a r l s) db h =
    on_row_ind (ClosedOnce v) t _ false _ db h (λ u i. same_audit v db _ refl h)
apply_write-ClosedOnce v (approval_recorded t d by l j) db h =
    on_row_ind (ClosedOnce v) t (err value_error) none _ db h
      (λ u i. more_audit v db _ _ refl (ground arith) h)
apply_write-ClosedOnce v (execution_recorded (uuid_text u) k d o r) db h = same_audit v db _ refl h
apply_write-ClosedOnce v (execution_recorded (malformed x) k d o r) db h = h
apply_write-ClosedOnce v (result_saved t s e) db h =
    on_row_ind (ClosedOnce v) t _ false _ db h (λ u i.
      if_ind (ClosedOnce v) (status_eq s Status.action_taken && e) _ _
        (more_audit v db _ _ refl (ground arith) h) (same_audit v db _ refl h))
apply_write-ClosedOnce v (resolved_manually t by) db h =
    on_row_ind (ClosedOnce v) t (ok none) none _ db h
      (λ u i. more_audit v db _ _ refl (ground arith) h)
apply_write-ClosedOnce v (loop_ended t l) db h = record {
  counted = close_incident_loop-count v t l db h.counted;
}
apply_write-ClosedOnce v (lesson_recorded l) db h = same_audit v db _ refl h

apply_writes-ClosedOnce :
    (v : Uuid) (ws : List Write) (db : Db) → ClosedOnce v db → ClosedOnce v (apply_writes ws db)
unfolding apply_writes
apply_writes-ClosedOnce v [] db h = h
apply_writes-ClosedOnce v (w ∷ ws) db h =
    apply_writes-ClosedOnce v ws (apply_write w db) (apply_write-ClosedOnce v w db h)

-- After any sequence of writes, the audit log tells of no incident twice that its learning loop was
-- closed, provided it did not before.
pub apply_writes-count :
    (v : Uuid) (ws : List Write) (db : Db)
    → count_loop_closed v db.audit ≤ 1
    → count_loop_closed v (apply_writes ws db).audit ≤ 1
apply_writes-count v ws db h = (apply_writes-ClosedOnce v ws db (record { counted = h })).counted
