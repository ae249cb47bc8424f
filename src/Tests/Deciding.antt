-- ===== src/Tests/Deciding.antt =====
-- The API: decisions, resolutions, reads and tokens.
use processguard_ai.Telemetry.{Registry, calls_name}
use processguard_ai.Incident.Transitions.{is_valid_transition}
use processguard_ai.World.{publish, publish_safely}
use processguard_ai.Api.Scope.{get_incidents-own_site}
use processguard_ai.Api.Decisions.{record_decision-GoesThrough, GoesThrough}
use processguard_ai.Api.Resolutions.{resolve_incident-IsResolved, IsResolved}
use processguard_ai.Tests.Samples.{plant, incident, world}
use processguard_ai.Db.{
  resolve_incident_manually, get_incident_for_decision, statements, record_approval, uuid_text,
}
use processguard_ai.Security.{
  principal_role, username, has_role, principal_site, level_for, ensure_role, ensure_approval_level,
  plant_manager, ensure_site, role_list, rbac_policy, uuid_str, Claims, Principal,
}
use processguard_ai.Incident.{Incident, action_failed, awaiting_approval, approved, Uuid}
use processguard_ai.Security.Tokens.{
  require_principal-ok, bare_token, validate_token, require_principal,
}
use processguard_ai.Api.{
  decision_level, check_resolution, announce, write_decision, insert_newest, newest_first,
  list_incidents, check_decision, get_incidents, resolve_incident, record_decision,
}
use processguard_ai.Base.{
  strip, text_eq, lower, ◌≤◌, ◌≡◌, refl, ◌≢◌, ◌⊎◌, true, Option, none, some, [], ◌∷◌, if◌then◌else◌,
  length, All, Text, codes, ok, err, Error,
}

-- The claims of a plant manager of site 12.
abbrev manager_claims : Claims
manager_claims = record {
  iss = codes "http://oidc";
  site_claim = uuid_str 12;
  roles = role_list (plant_manager ∷ []);
  preferred_username = codes "manager";
  name = [];
  sub = codes "1";
}

abbrev manager : Principal
manager = record { token = codes "t"; payload = manager_claims }

-- An identity provider that knows the token `t` alone.
abbrev decode_one : Text → Option Claims
decode_one token = if text_eq token (codes "t") then some manager_claims else none

require_principal-ok_example :
    (decode_one manager.token ≡ some manager.payload)
    × (manager.token ≡ bare_token (codes "Bearer t"))
    × (has_role manager.payload.iss (codes "http://oidc" ∷ []) ≡ true)
    × (principal_site manager ≢ [])
    × (principal_role manager ≢ [])
unfolding require_principal validate_token bare_token uuid_str lower strip
require_principal-ok_example =
    require_principal-ok decode_one (codes "http://oidc" ∷ []) (codes "Bearer t") manager refl

record_decision-GoesThrough_example :
    let (out, after) =
      record_decision rbac_policy (uuid_text 1) approved manager none (world awaiting_approval) in
    ((e : Error) × (out ≡ err e) × (after ≡ world awaiting_approval))
    ⊎ ((u : Uuid) × (uuid_text 1 ≡ uuid_text u)
        × GoesThrough rbac_policy u approved manager none (world awaiting_approval) after)
record_decision-GoesThrough_example =
    record_decision-GoesThrough rbac_policy (uuid_text 1) approved manager none
      (world awaiting_approval)

resolve_incident-IsResolved_example :
    let (out, after) = resolve_incident rbac_policy (uuid_text 1) manager (world action_failed) in
    ((e : Error) × (out ≡ err e) × (after ≡ world action_failed))
    ⊎ ((u : Uuid) × (uuid_text 1 ≡ uuid_text u)
        × (out ≡ ok 200)
        × IsResolved rbac_policy u manager (world action_failed) after)
resolve_incident-IsResolved_example =
    resolve_incident-IsResolved rbac_policy (uuid_text 1) manager (world action_failed)

-- The decision of the plant manager goes through, and so does the resolution.
run_api : Unit {0}
unfolding record_decision decision_level check_decision ensure_site ensure_approval_level level_for
    write_decision record_approval announce username uuid_str lower publish_safely publish
    statements get_incident_for_decision resolve_incident check_resolution ensure_role
    resolve_incident_manually is_valid_transition
run_api = tt

record_decision_goes :
    (record_decision rbac_policy (uuid_text 1) approved manager none (world awaiting_approval)).0
    ≡ ok (record {
      decision = approved;
      decided_by = codes "manager";
      decided_at = 200;
      status = approved;
      level = 2;
      justification = none;
    })
unfolding run_api
record_decision_goes = refl

resolve_incident_goes :
    (resolve_incident rbac_policy (uuid_text 1) manager (world action_failed)).0 ≡ ok 200
unfolding run_api
resolve_incident_goes = refl

-- Site 12 is the one that the caller's site text names.
abbrev site_twelve : Text → Option Uuid
site_twelve t = some 12

get_incidents-own_site_example :
    All
      (λ (i : Incident). site_twelve (principal_site manager) ≡ some i.site_id)
      (incident approved ∷ [])
    × (length (incident approved ∷ []) ≤ 50)
    × (has_role (principal_role manager) rbac_policy.incident_read_roles ≡ true)
unfolding get_incidents list_incidents newest_first insert_newest ensure_role uuid_str
get_incidents-own_site_example =
    get_incidents-own_site site_twelve rbac_policy manager none none 50 0 (plant approved)
      (incident approved ∷ []) 1 refl refl

-- A call of one agent.
abbrev one_call : Registry
one_call = record {
  calls =
      record { name = calls_name; agent = codes "root_cause"; incident_id = []; value = 2 } ∷ [];
  tokens = [];
  costs = [];
  incident_costs = [];
}
