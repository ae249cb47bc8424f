-- ===== src/Db/Log.antt =====
-- The writes of agent-service/app/core/db.py as a log: any sequence of them, by any agents, keeps the
-- history and the status column together.
use processguard_ai.Incident.{
  Consequence, Incident, recommendation_agent, recommended, user, hitl_gate, resolved,
  risk_assessed, action_taken, status_eq, ActionOutcome, CmmsKind, action_agent, ActionItem,
  Severity, Actor, Status,
}
use processguard_ai.Db.Writes.{
  record_state_transition, count_loop_closed, record_learned_incident, close_incident_loop,
  resolve_incident_manually, Lesson, record_action_execution, record_approval, save_recommendation,
  save_risk_assessment, transition_incident, add_incident_cost, save_root_cause,
  save_incident_evidence, save_action_result,
}
use processguard_ai.Db.Store.{
  set_incident, insert_history, insert_audit, uuid_text, malformed, Db, IdText,
}
use processguard_ai.Base.{
  All, refl, if_ind, value_error, arith, All-imp, suc, ◌==◌, ◌≡◌, err, [], ◌&&◌, some, Option, none,
  false, ok, Bool, ◌∷◌, ℕ, List, Text,
}
use processguard_ai.Db.History.{
  IsConsistent, on_row-IsConsistent, move-IsConsistent, keep-IsConsistent, same-IsConsistent,
}

-- One call of a writing function, with its arguments.
pub data Write : Type 0 where
  evidence_saved : IdText → Text → Write
  root_cause_saved : IdText → Text → ℕ → Text → Status → Write
  cost_added : IdText → ℕ → Write
  transitioned : IdText → Status → Actor → Write
  risk_saved : IdText → Severity → List Consequence → ℕ → ℕ → Write
  recommendation_saved : IdText → List ActionItem → Text → Text → Status → Write
  approval_recorded : IdText → Status → Text → Option ℕ → Option Text → Write
  execution_recorded : IdText → CmmsKind → Text → ActionOutcome → Option Text → Write
  result_saved : IdText → Status → Bool → Write
  resolved_manually : IdText → Text → Write
  loop_ended : IdText → Lesson → Write
  lesson_recorded : Lesson → Write
  state_recorded : IdText → Option Status → Status → Actor → Write

unfoldable pub apply_write : Write → Db → Db
apply_write (evidence_saved t e) db = (save_incident_evidence t e db).1
apply_write (root_cause_saved t h c r s) db = (save_root_cause t h c r s db).1
apply_write (cost_added t c) db = (add_incident_cost t c db).1
apply_write (transitioned t s who) db = (transition_incident t s who db).1
apply_write (risk_saved t s c l r) db = (save_risk_assessment t s c l r db).1
apply_write (recommendation_saved t a r l s) db = (save_recommendation t a r l s db).1
apply_write (approval_recorded t d by l j) db = (record_approval t d by l j db).1
apply_write (execution_recorded t k d o r) db = record_action_execution t k d o r db
apply_write (result_saved t s e) db = (save_action_result t s e db).1
apply_write (resolved_manually t by) db = (resolve_incident_manually t by db).1
apply_write (loop_ended t l) db = (close_incident_loop t l db).1
apply_write (lesson_recorded l) db = (record_learned_incident l db).1
apply_write (state_recorded t from to who) db = (record_state_transition t from to who db).1

-- Any write but `record_state_transition`.
abbrev pub IsCalled : Write → Type 0
IsCalled (state_recorded t from to who) = ⊥
IsCalled _ = Unit

unfoldable pub apply_writes : List Write → Db → Db
unfolding apply_write
apply_writes [] db = db
apply_writes (w ∷ ws) db = apply_writes ws (apply_write w db)

save_action_result-IsConsistent :
    (t : IdText) (s : Status) (e : Bool) (db : Db)
    → IsConsistent db
    → IsConsistent (save_action_result t s e db).1
unfolding save_action_result insert_audit
save_action_result-IsConsistent t s e db c =
    on_row-IsConsistent t (ok false) false _ db
      (λ u i below.
        let moved =
          move-IsConsistent u (λ r. record r { status = s; updated_at = db.clock }) none s
            action_agent db (λ r. refl) (λ r. refl) below c in
        let stamped =
          keep-IsConsistent u (λ r. record r { action_executed_at = some db.clock }) _ (λ r. refl)
            (λ r. refl) moved in
        if_ind IsConsistent (status_eq s action_taken && e) _ _
          (same-IsConsistent _ _ refl refl refl stamped) moved)
      c

save_recommendation-IsConsistent :
    (t : IdText) (a : List ActionItem) (why log : Text) (s : Status) (db : Db)
    → IsConsistent db
    → IsConsistent (save_recommendation t a why log s db).1
unfolding save_recommendation insert_history set_incident
save_recommendation-IsConsistent t a why log s db c =
    on_row-IsConsistent t (err value_error) false _ db
      (λ u i below.
        let stage1 : Incident → Incident = λ r. record r {
          recommended_actions = some a;
          rationale = some why;
          tool_call_log = some log;
          recommended_at = some db.clock;
          status = recommended;
          updated_at = db.clock;
        } in
        move-IsConsistent u (λ r. record r { status = s; updated_at = db.clock }) (some recommended)
          s hitl_gate
          (insert_history u none recommended recommendation_agent (set_incident u stage1 db))
          (λ r. refl) (λ r. refl) below
          (move-IsConsistent u stage1 none recommended recommendation_agent db (λ r. refl)
            (λ r. refl) below c))
      c

record_approval-IsConsistent :
    (t : IdText) (d : Status) (by : Text) (l : Option ℕ) (j : Option Text) (db : Db)
    → IsConsistent db
    → IsConsistent (record_approval t d by l j db).1
unfolding record_approval insert_audit
record_approval-IsConsistent t d by l j db c =
    on_row-IsConsistent t (err value_error) none _ db
      (λ u i below. same-IsConsistent _ _ refl refl refl (
        move-IsConsistent u (λ r. record r { status = d; updated_at = db.clock }) none d (user by)
          db (λ r. refl) (λ r. refl) below c))
      c

grow-IsConsistent :
    (db after : Db)
    → after.incidents ≡ db.incidents
    → after.history ≡ db.history
    → after.next_uuid ≡ suc db.next_uuid
    → IsConsistent db
    → IsConsistent after
grow-IsConsistent db after i h n c = record {
  told = rw (i, h) c.told;
  ids_below = rw (i, n) (All-imp _ _ (λ r b. omega arith) db.incidents c.ids_below);
  history_below = rw (h, n) (All-imp _ _ (λ r b. omega arith) db.history c.history_below);
}

close_incident_loop-IsConsistent :
    (t : IdText) (l : Lesson) (db : Db)
    → IsConsistent db
    → IsConsistent (close_incident_loop t l db).1
unfolding close_incident_loop insert_audit
close_incident_loop-IsConsistent t l db c =
    on_row-IsConsistent t (ok none) none _ db
      (λ u i below.
        if_ind (λ (p : Option ℕ × Db). IsConsistent p.1) (count_loop_closed u db.audit == 0) _ _
          (grow-IsConsistent _ _ refl refl refl (
            move-IsConsistent u
              (λ r. record r {
                status = resolved;
                resolved_at = some db.clock;
                updated_at = db.clock;
              })
              none resolved action_agent db (λ r. refl) (λ r. refl) below c))
          c)
      c

record_action_execution-IsConsistent :
    (t : IdText) (k : CmmsKind) (d : Text) (o : ActionOutcome) (r : Option Text) (db : Db)
    → IsConsistent db
    → IsConsistent (record_action_execution t k d o r db)
unfolding record_action_execution
record_action_execution-IsConsistent (uuid_text u) k d o r db c =
    same-IsConsistent db _ refl refl refl c
record_action_execution-IsConsistent (malformed x) k d o r db c = c

-- A write that is one UPDATE, or one UPDATE of the status with its history row.
apply_write-IsConsistent :
    (w : Write) (db : Db) → IsCalled w → IsConsistent db → IsConsistent (apply_write w db)
unfolding apply_write save_incident_evidence save_root_cause add_incident_cost transition_incident
    save_risk_assessment resolve_incident_manually record_learned_incident insert_audit
apply_write-IsConsistent (evidence_saved t e) db called c =
    on_row-IsConsistent t _ false _ db
      (λ u i below. keep-IsConsistent u _ db (λ r. refl) (λ r. refl) c) c
apply_write-IsConsistent (cost_added t x) db called c =
    on_row-IsConsistent t _ false _ db
      (λ u i below. keep-IsConsistent u _ db (λ r. refl) (λ r. refl) c) c
apply_write-IsConsistent (root_cause_saved t h n r s) db called c =
    on_row-IsConsistent t _ false _ db
      (λ u i below. move-IsConsistent u _ none s _ db (λ r. refl) (λ r. refl) below c) c
apply_write-IsConsistent (transitioned t s who) db called c =
    on_row-IsConsistent t _ false _ db
      (λ u i below. move-IsConsistent u _ none s _ db (λ r. refl) (λ r. refl) below c) c
apply_write-IsConsistent (risk_saved t s x l r) db called c =
    on_row-IsConsistent t _ false _ db
      (λ u i below. move-IsConsistent u _ none risk_assessed _ db (λ r. refl) (λ r. refl) below c) c
apply_write-IsConsistent (resolved_manually t by) db called c =
    on_row-IsConsistent t _ none _ db
      (λ u i below. same-IsConsistent _ _ refl refl refl (
        move-IsConsistent u
          (λ r. record r { status = resolved; resolved_at = some db.clock; updated_at = db.clock })
          none resolved (user by) db (λ r. refl) (λ r. refl) below c))
      c
apply_write-IsConsistent (recommendation_saved t a w l s) db called c =
    save_recommendation-IsConsistent t a w l s db c
apply_write-IsConsistent (approval_recorded t d by l j) db called c =
    record_approval-IsConsistent t d by l j db c
apply_write-IsConsistent (execution_recorded t k d o r) db called c =
    record_action_execution-IsConsistent t k d o r db c
apply_write-IsConsistent (result_saved t s e) db called c =
    save_action_result-IsConsistent t s e db c
apply_write-IsConsistent (loop_ended t l) db called c = close_incident_loop-IsConsistent t l db c
apply_write-IsConsistent (lesson_recorded l) db called c = grow-IsConsistent db _ refl refl refl c
apply_write-IsConsistent (state_recorded t from to who) db called c = absurd called

-- After any sequence of the writes that the service makes (all of db.py's but `record_state_transition`,
-- which nothing calls), each incident's status is the one that its history last records (`open` if it has
-- none), provided this held before, and the ids in use stay below the next UUID.
pub apply_writes-IsConsistent :
    (ws : List Write) (db : Db)
    → All IsCalled ws
    → IsConsistent db
    → IsConsistent (apply_writes ws db)
unfolding apply_writes
apply_writes-IsConsistent [] db called c = c
apply_writes-IsConsistent (w ∷ ws) db called c =
    apply_writes-IsConsistent ws (apply_write w db) called.1
      (apply_write-IsConsistent w db called.0 c)
