-- ===== src/Api/Resolve.antt =====
-- POST /incidents/{id}/resolve.
use processguard_ai.Incident.Transitions.{is_valid_transition}
use processguard_ai.World.{World}
use processguard_ai.Incident.{resolved, status_eq, Incident}
use processguard_ai.Db.{resolve_incident_manually, fetch, IdText}
use processguard_ai.Security.{
  username, ◌>>◌, ensure_role, uuid_str, ensure_site, RbacPolicy, Principal,
}
use processguard_ai.Base.{http_error, ℕ, none, some, if◌then◌else◌, Result, ok, err}

unfoldable pub check_resolution : Principal → Incident → Result (Unit {0})
check_resolution p i =
    ensure_site p (some (uuid_str i.site_id))
    >> (if status_eq i.status resolved then err (http_error 409) else ok tt)
    >> (if is_valid_transition i.status resolved then ok tt else err (http_error 409))

unfoldable pub resolve_incident : RbacPolicy → IdText → Principal → World → Result ℕ × World
resolve_incident policy t p w = elim (ensure_role p policy.resolve_roles) [
  | err e ↦ (err e, w)
  | ok u ↦ elim (fetch t w.db) [
    | none ↦ (err (http_error 404), w)
    | some i ↦ elim (check_resolution p i) [
      | err e ↦ (err e, w)
      | ok u' ↦
          let (out, db) = resolve_incident_manually t (username p) w.db in
          let written = record w { db = db } in
          elim out [
            | err e ↦ (err e, written)
            | ok none ↦ (err (http_error 404), written)
            | ok (some at) ↦ (ok at, written)
          ]
    ]
  ]
]
