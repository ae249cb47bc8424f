-- ===== src/Api/Resolutions.antt =====
-- Who may resolve an incident by hand.
use processguard_ai.Db.Lookup.{find-update}
use processguard_ai.Incident.Transitions.{is_valid_transition}
use processguard_ai.World.{World}
use processguard_ai.Incident.{resolved, Incident, Uuid}
use processguard_ai.Db.{
  on_row, Db, malformed, uuid_text, find_incident, IdText, statements, resolve_incident_manually,
}
use processguard_ai.Security.{
  username, principal_role, principal_site, has_role, uuid_str, Principal, ensure_role, ensure_site,
  RbacPolicy,
}
use processguard_ai.Api.Resolve.{resolve_incident, check_resolution}
use processguard_ai.Base.{
  http_error, text_eq_sound, Result-cases, lower, ◌≡◌, refl, ◌⊎◌, inl, inr, true, some, List, arith,
  Option-cases, Text, ok, err, Error,
}

-- What a resolution that goes through asks of the caller and the incident, and leaves behind.
pub record IsResolved (policy : RbacPolicy) (u : Uuid) (p : Principal) (w after : World)
    : Type 0 where
  pub incident : Incident
  pub found : find_incident u w.db.incidents ≡ some incident
  pub allowed : has_role (principal_role p) policy.resolve_roles ≡ true
  pub own_site : lower (uuid_str incident.site_id) ≡ lower (principal_site p)
  pub legal : is_valid_transition incident.status resolved ≡ true
  pub moved :
      find_incident u after.db.incidents
      ≡ some (record incident {
        status = resolved;
        resolved_at = some w.db.clock;
        updated_at = w.db.clock;
      })
  pub nothing_sent : after.net ≡ w.net

check_resolution-ok :
    (p : Principal) (i : Incident) (v : Unit {0})
    → check_resolution p i ≡ ok v
    → (lower (uuid_str i.site_id) ≡ lower (principal_site p))
      × (is_valid_transition i.status resolved ≡ true)
unfolding check_resolution ensure_site
check_resolution-ok p i v h = (text_eq_sound _ _ (ground arith), ground arith)

pass-IsResolved :
    (policy : RbacPolicy) (u : Uuid) (p : Principal) (w : World) (i : Incident) (v : Unit {0})
    → has_role (principal_role p) policy.resolve_roles ≡ true
    → find_incident u w.db.incidents ≡ some i
    → check_resolution p i ≡ ok v
    → IsResolved policy u p w
        (record w { db = (resolve_incident_manually (uuid_text u) (username p) w.db).1 })
unfolding resolve_incident_manually statements
pass-IsResolved policy u p w i v allowed found passed =
    let (site, legal) = check_resolution-ok p i v passed in
    record {
      incident = i;
      found = found;
      allowed = allowed;
      own_site = site;
      legal = legal;
      moved =
          rw (found, on_row)
            (find-update u
              (λ r. record r {
                status = resolved;
                resolved_at = some w.db.clock;
                updated_at = w.db.clock;
              })
              (λ r. refl) w.db.incidents i found);
      nothing_sent = refl;
    }

manually-found :
    (u : Uuid) (by : Text) (db : Db) (i : Incident)
    → find_incident u db.incidents ≡ some i
    → (resolve_incident_manually (uuid_text u) by db).0 ≡ ok (some db.clock)
unfolding resolve_incident_manually statements
manually-found u by db i found = rw (found, on_row) refl

ensure_role-ok :
    (p : Principal) (roles : List Text) (v : Unit {0})
    → ensure_role p roles ≡ ok v
    → has_role (principal_role p) roles ≡ true
unfolding ensure_role
ensure_role-ok p roles v h = ground arith

-- Resolving by hand either is refused with an error and changes nothing, or it goes through: then the
-- caller has a role that may resolve, the incident belongs to the caller's site, the move to
-- `resolved` is legal, the incident is resolved with the time of the decision, and nothing goes to the
-- CMMS.
pub resolve_incident-IsResolved :
    (policy : RbacPolicy) (t : IdText) (p : Principal) (w : World)
    → let (out, after) = resolve_incident policy t p w in
      ((e : Error) × (out ≡ err e) × (after ≡ w))
      ⊎ ((u : Uuid) × (t ≡ uuid_text u) × (out ≡ ok w.db.clock) × IsResolved policy u p w after)
unfolding resolve_incident
resolve_incident-IsResolved policy (malformed x) p w =
    elim (Result-cases (ensure_role p policy.resolve_roles)) [
      | inl (e, refused) ↦ rw (refused, resolve_incident) (inl (e, refl, refl))
      | inr (v, allowed) ↦ rw (allowed, resolve_incident) (inl (http_error 404, refl, refl))
    ]
resolve_incident-IsResolved policy (uuid_text u) p w =
    elim (Result-cases (ensure_role p policy.resolve_roles)) [
      | inl (e, refused) ↦ rw (refused, resolve_incident) (inl (e, refl, refl))
      | inr (v, allowed) ↦ elim (Option-cases (find_incident u w.db.incidents)) [
        | inl missing ↦
            rw (allowed, resolve_incident) (rw missing (inl (http_error 404, refl, refl)))
        | inr (i, found) ↦ elim (Result-cases (check_resolution p i)) [
          | inl (e, refused) ↦
              rw (allowed, resolve_incident) (rw found (rw refused (inl (e, refl, refl))))
          | inr (v', passed) ↦
              rw (allowed, resolve_incident)
                (rw found (
                  rw passed (
                    rw (manually-found u (username p) w.db i found) (
                      inr (
                        u,
                        refl,
                        refl,
                        pass-IsResolved policy u p w i v'
                            (ensure_role-ok p policy.resolve_roles v allowed) found passed,
                      )))))
        ]
      ]
    ]
