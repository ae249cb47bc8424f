-- ===== src/Api/Decide.antt =====
-- `_record_decision`, behind POST /incidents/{id}/approve and /reject.
use processguard_ai.World.{incident_approved, publish_safely, World}
use processguard_ai.Incident.{awaiting_approval, rejected, status_eq, approved, Status}
use processguard_ai.Db.{record_approval, get_incident_for_decision, IdText, DecisionView}
use processguard_ai.Security.{
  ◌>>◌, username, uuid_str, ensure_site, Principal, RbacPolicy, ensure_approval_level,
}
use processguard_ai.Base.{
  http_error, strip, ℕ, Bool, true, ◌&&◌, Option, none, some, leb, if◌then◌else◌, or_nonzero,
  is_empty, Text, Result, ok, err,
}

pub record DecisionResponse : Type 0 where
  pub decision : Status
  pub decided_by : Text
  pub decided_at : ℕ
  pub status : Status
  pub level : ℕ
  pub justification : Option Text

-- `view["hitl_level"] or view["required_approval_level"] or 2`
unfoldable pub decision_level : DecisionView → ℕ
decision_level view = or_nonzero view.hitl_level (or_nonzero view.required_approval_level 2)

abbrev pub lacks_justification : Option Text → Bool
lacks_justification none = true
lacks_justification (some t) = is_empty (strip t)

-- The checks, in their order, up to the write.
unfoldable pub check_decision :
    RbacPolicy → Principal → Status → Option Text → DecisionView → Result (Unit {0})
unfolding ensure_approval_level
check_decision policy p decision justification view =
    let level = decision_level view in
    ensure_site p (some (uuid_str view.site_id))
    >> (if status_eq view.status awaiting_approval then ok tt else err (http_error 409))
    >> ensure_approval_level policy p level
    >> (if status_eq decision rejected && leb 3 level && lacks_justification justification
        then err (http_error 422)
        else ok tt)

-- Behind the write: the event for the Action Agent, and the response.
unfoldable pub announce :
    IdText → Status → Principal → Option Text → ℕ → ℕ → World → Result DecisionResponse × World
announce t decision p justification level at w =
    let told =
      if status_eq decision approved
      then publish_safely (incident_approved t (username p) at level) w
      else w in
    (
      ok (record {
        decision = decision;
        decided_by = username p;
        decided_at = at;
        status = elim (get_incident_for_decision t told.db) [ none ↦ decision | some v ↦ v.status ];
        level = level;
        justification = justification;
      }),
      told,
    )

unfoldable pub write_decision :
    IdText → Status → Principal → Option Text → ℕ → World → Result DecisionResponse × World
write_decision t decision p justification level w =
    let (out, db) = record_approval t decision (username p) (some level) justification w.db in
    let written = record w { db = db } in
    elim out [
      | err e ↦ (err e, written)
      | ok none ↦ (err (http_error 404), written)
      | ok (some at) ↦ announce t decision p justification level at written
    ]

unfoldable pub record_decision :
    RbacPolicy → IdText → Status → Principal → Option Text → World → Result DecisionResponse × World
record_decision policy t decision p justification w = elim (get_incident_for_decision t w.db) [
  | none ↦ (err (http_error 404), w)
  | some view ↦ elim (check_decision policy p decision justification view) [
    | err e ↦ (err e, w)
    | ok u ↦ write_decision t decision p justification (decision_level view) w
  ]
]

unfoldable pub approve_incident :
    RbacPolicy → IdText → Principal → Option Text → World → Result DecisionResponse × World
approve_incident policy t = record_decision policy t approved

unfoldable pub reject_incident :
    RbacPolicy → IdText → Principal → Option Text → World → Result DecisionResponse × World
reject_incident policy t = record_decision policy t rejected
