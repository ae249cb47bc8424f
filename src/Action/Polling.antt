-- ===== src/Action/Polling.antt =====
-- The poll only reads from the CMMS.
use processguard_ai.Incident.{Status, status_eq, ActionRow}
use processguard_ai.World.{publish_safely-keeps, World}
use processguard_ai.Db.{
  get_incident_for_decision, get_incident_action_record, id_eq, get_action_taken_incident_ids,
  IdText,
}
use processguard_ai.Cmms.{
  transient, rejected_by_server, refused, returned, at_least_one, get_work_order, accepted,
  raised_cmms_error, CallResult, judge, request, slept, is_write, sent, pause, Request, Server,
  request_loop, NetEvent,
}
use processguard_ai.Action.Resolutions.{
  work_order_of, close_loop, check_incident, check_resolutions, check_executions, check_incidents,
  check_execution, close_if_resolved,
}
use processguard_ai.Base.{
  text_eq, if_ind, ℕ, zero, suc, ◌+◌, ◌≡◌, refl, ap, ◌∙◌, inl, inr, Bool, false, Option, none, some,
  List, [], ◌∷◌, ◌++◌, arith, if◌then◌else◌, Option-cases, any, Text, codes,
}

-- The requests on the wire that write at the other end.
abbrev pub count_writes : List NetEvent → ℕ
count_writes [] = 0
count_writes (sent r ∷ log) = (if is_write r then 1 else 0) + count_writes log
count_writes (slept n ∷ log) = count_writes log

count_writes-append :
    (xs ys : List NetEvent) → count_writes (xs ++ ys) ≡ count_writes xs + count_writes ys
count_writes-append [] ys = omega arith
count_writes-append (sent r ∷ xs) ys = omega (arith, count_writes-append xs ys)
count_writes-append (slept n ∷ xs) ys = count_writes-append xs ys

pause-count_writes :
    (left n : ℕ) (log : List NetEvent) → count_writes (pause left n log) ≡ count_writes log
pause-count_writes zero n log = refl
pause-count_writes (suc left) n log = omega (arith, count_writes-append log (slept n ∷ []))

request_loop-count_writes :
    (server : Server) (r : Request) (n left : ℕ) (log : List NetEvent)
    → is_write r ≡ false
    → count_writes (request_loop server r n left log).1 ≡ count_writes log
unfolding request_loop
request_loop-count_writes server r n zero log reads = refl
request_loop-count_writes server r n (suc left) log reads =
    let after = log ++ sent r ∷ [] in
    let once : count_writes after ≡ count_writes log =
      count_writes-append log (sent r ∷ []) ∙ rw reads (omega arith) in
    elim (judge r (server log r))
      as (λ v.
        count_writes
          (elim v as (λ x. CallResult × List NetEvent) [
            | accepted b ↦ (returned b, after)
            | refused code ↦ (raised_cmms_error rejected_by_server, after)
            | transient ↦ request_loop server r (suc n) left (pause left n after)
          ]).1
        ≡ count_writes log) [
          | accepted b ↦ once
          | refused code ↦ once
          | transient ↦
              request_loop-count_writes server r (suc n) left (pause left n after) reads
              ∙ pause-count_writes left n after
              ∙ once
        ]

close_if_resolved-net :
    (t : IdText) (out : CallResult) (w : World) → (close_if_resolved t out w).1.net ≡ w.net
unfolding close_if_resolved close_loop
close_if_resolved-net t (raised_cmms_error text) w = refl
close_if_resolved-net t (returned order) w =
    if_ind (λ (p : Bool × World). p.1.net ≡ w.net) (text_eq order.status (codes "resolved")) _ _
      (elim (Option-cases (get_incident_for_decision t w.db)) [
        | inl missing ↦ rw missing refl
        | inr (view, e) ↦ rw e (
            if_ind (λ (p : Bool × World). p.1.net ≡ w.net)
              (status_eq view.status Status.action_taken) _ _ (publish_safely-keeps _ _).1 refl)
      ])
      refl

module _ (server : Server) (attempts : ℕ) where
  check_execution-count_writes :
      (t : IdText) (reference : Option Text) (w : World)
      → count_writes (check_execution server attempts t reference w).1.net ≡ count_writes w.net
  unfolding check_execution request
  check_execution-count_writes t none w = refl
  check_execution-count_writes t (some reference) w =
      let asked = request server attempts (get_work_order reference) w.net in
      let kept : (check_execution server attempts t (some reference) w).1.net ≡ asked.1 =
        close_if_resolved-net t asked.0 (record w { net = asked.1 }) in
      ap count_writes kept
      ∙ request_loop-count_writes server (get_work_order reference) 1 (at_least_one attempts) w.net
          refl

  check_executions-count_writes :
      (t : IdText) (rows : List ActionRow) (w : World)
      → count_writes (check_executions server attempts t rows w).net ≡ count_writes w.net
  unfolding check_executions
  check_executions-count_writes t [] w = refl
  check_executions-count_writes t (a ∷ rows) w =
      let step = check_execution server attempts t (work_order_of a) w in
      let first = check_execution-count_writes t (work_order_of a) w in
      if_ind (λ (x : World). count_writes x.net ≡ count_writes w.net) step.0 _ _ first
        (check_executions-count_writes t rows step.1 ∙ first)

  check_incident-count_writes :
      (in_flight : List IdText) (t : IdText) (w : World)
      → count_writes (check_incident server attempts in_flight t w).net ≡ count_writes w.net
  unfolding check_incident
  check_incident-count_writes in_flight t w =
      if_ind (λ (x : World). count_writes x.net ≡ count_writes w.net)
        (any (λ u. id_eq u t) in_flight) _ _ refl
        (elim (Option-cases (get_incident_action_record t w.db)) [
          | inl missing ↦ rw missing refl
          | inr (rows, e) ↦ rw e (check_executions-count_writes t rows w)
        ])

  check_incidents-count_writes :
      (in_flight ts : List IdText) (w : World)
      → count_writes (check_incidents server attempts in_flight ts w).net ≡ count_writes w.net
  unfolding check_incidents
  check_incidents-count_writes in_flight [] w = refl
  check_incidents-count_writes in_flight (t ∷ ts) w =
      check_incidents-count_writes in_flight ts (check_incident server attempts in_flight t w)
      ∙ check_incident-count_writes in_flight t w

  -- A poll for resolved work orders sends no request that writes at the CMMS, whatever the CMMS
  -- answers and whichever incidents are in flight.
  pub check_resolutions-count_writes :
      (in_flight : List IdText) (w : World)
      → count_writes (check_resolutions server attempts in_flight w).net ≡ count_writes w.net
  unfolding check_resolutions
  check_resolutions-count_writes in_flight w =
      check_incidents-count_writes in_flight (get_action_taken_incident_ids w.db) w
