-- ===== src/Api/Decisions.antt =====
-- Who may decide, and what a decision leaves behind.
use processguard_ai.Db.Lookup.{approval_row, record_approval_found}
use processguard_ai.World.{publish_safely-keeps, World}
use processguard_ai.Db.{
  malformed, record_approval, get_incident_for_decision, uuid_text, IdText, DecisionView,
}
use processguard_ai.Incident.{
  rejected, approved, status_eq, Uuid, awaiting_approval, status_eq_sound, Status,
}
use processguard_ai.Security.{
  username, principal_role, level_for, principal_site, uuid_str, Principal, ensure_site, RbacPolicy,
}
use processguard_ai.Api.Decide.{
  lacks_justification, record_decision, write_decision, announce, decision_level, check_decision,
}
use processguard_ai.Base.{
  Result-cases, http_error, if_ind, text_eq_sound, lower, ℕ, ◌≤◌, ◌≡◌, refl, ◌⊎◌, inl, inr, false,
  Option, some, [], ◌∷◌, ◌++◌, arith, Option-cases, Text, ok, err, Error,
}

-- What the checks ask of the caller and the incident.
pub record IsPermitted (policy : RbacPolicy) (p : Principal) (decision : Status)
    (justification : Option Text) (view : DecisionView) : Type 0 where
  pub own_site : lower (uuid_str view.site_id) ≡ lower (principal_site p)
  pub pending : view.status ≡ awaiting_approval
  pub allowed : decision_level view ≤ level_for policy (principal_role p)
  pub justified :
      decision ≡ rejected → 3 ≤ decision_level view → lacks_justification justification ≡ false

check_decision-IsPermitted :
    (policy : RbacPolicy) (p : Principal) (decision : Status) (justification : Option Text)
    (view : DecisionView) (u : Unit {0})
    → check_decision policy p decision justification view ≡ ok u
    → IsPermitted policy p decision justification view
unfolding check_decision ensure_site
check_decision-IsPermitted policy p decision justification view u h = record {
  own_site = text_eq_sound _ _ (ground arith);
  pending = status_eq_sound _ _ (ground arith);
  allowed = ground arith;
  justified = λ reject high. ground (arith, reject, high);
}

-- What a decision that goes through leaves behind: the caller was permitted, one approval row with the
-- caller's name is appended, and the incident has the decided status.
pub record GoesThrough (policy : RbacPolicy) (u : Uuid) (decision : Status) (p : Principal)
    (justification : Option Text) (w after : World) : Type 0 where
  pub view : DecisionView
  pub found : get_incident_for_decision (uuid_text u) w.db ≡ some view
  pub permitted : IsPermitted policy p decision justification view
  pub signed :
      after.db.approvals
      ≡ w.db.approvals
        ++ approval_row u decision
            (username p)
            (some (decision_level view))
            justification
            w.db.clock
          ∷ []
  pub moved : DecisionView
  pub decided : get_incident_for_decision (uuid_text u) after.db ≡ some moved
  pub status_decided : moved.status ≡ decision
  pub nothing_sent : after.net ≡ w.net

announce-keeps :
    (t : IdText) (decision : Status) (p : Principal) (j : Option Text) (level at : ℕ) (w : World)
    → let after = (announce t decision p j level at w).1 in (after.db ≡ w.db) × (after.net ≡ w.net)
unfolding announce
announce-keeps t decision p j level at w =
    if_ind (λ (x : World). (x.db ≡ w.db) × (x.net ≡ w.net)) (status_eq decision approved) _ _
      (publish_safely-keeps _ w) (refl, refl)

write_decision-GoesThrough :
    (policy : RbacPolicy) (u : Uuid) (decision : Status) (p : Principal) (j : Option Text)
    (w : World) (view : DecisionView)
    → get_incident_for_decision (uuid_text u) w.db ≡ some view
    → IsPermitted policy p decision j view
    → GoesThrough policy u decision p j w
        (write_decision (uuid_text u) decision p j (decision_level view) w).1
unfolding write_decision
write_decision-GoesThrough policy u decision p j w view e permitted =
    let (at, row, (moved, found, moves)) =
      record_approval_found u decision (username p) (some (decision_level view)) j w.db view e in
    let written : World = record w {
      db =
          (record_approval (uuid_text u) decision (username p) (some (decision_level view)) j
            w.db).1;
    } in
    let (same_db, same_net) =
      announce-keeps (uuid_text u) decision p j (decision_level view) w.db.clock written in
    rw (at, write_decision)
      (record {
        view = view;
        found = e;
        permitted = permitted;
        signed = rw same_db row;
        moved = moved;
        decided = rw same_db found;
        status_decided = moves;
        nothing_sent = same_net;
      })

missing_view :
    (x : ℕ) (policy : RbacPolicy) (decision : Status) (p : Principal) (j : Option Text) (w : World)
    → let (out, after) = record_decision policy (malformed x) decision p j w in
      (out ≡ err (http_error 404)) × (after ≡ w)
unfolding record_decision get_incident_for_decision
missing_view x policy decision p j w = (refl, refl)

-- A decision either is refused with an error and changes nothing at all, or it goes through: then the
-- incident was awaiting approval, it belongs to the caller's site, the caller's role may decide its
-- level, a rejection at level 3 has a justification, one approval row in the caller's name is added, the incident takes the decided status, and
-- nothing goes to the CMMS.
pub record_decision-GoesThrough :
    (policy : RbacPolicy) (t : IdText) (decision : Status) (p : Principal) (j : Option Text)
    (w : World)
    → let (out, after) = record_decision policy t decision p j w in
      ((e : Error) × (out ≡ err e) × (after ≡ w))
      ⊎ ((u : Uuid) × (t ≡ uuid_text u) × GoesThrough policy u decision p j w after)
unfolding record_decision
record_decision-GoesThrough policy (malformed x) decision p j w =
    let (refused, same) = missing_view x policy decision p j w in
    inl (http_error 404, refused, same)
record_decision-GoesThrough policy (uuid_text u) decision p j w =
    elim (Option-cases (get_incident_for_decision (uuid_text u) w.db)) [
      | inl missing ↦ rw (missing, record_decision) (inl (http_error 404, refl, refl))
      | inr (view, e) ↦ elim (Result-cases (check_decision policy p decision j view)) [
        | inl (x, refused) ↦ rw (e, record_decision) (rw refused (inl (x, refl, refl)))
        | inr (v, passed) ↦
            rw (e, record_decision)
              (rw passed (
                inr (
                  u,
                  refl,
                  write_decision-GoesThrough policy u decision p j w view e
                      (check_decision-IsPermitted policy p decision j view v passed),
                )))
      ]
    ]
