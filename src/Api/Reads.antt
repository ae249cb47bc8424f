-- ===== src/Api/Reads.antt =====
-- The reading endpoints of agent-service/app/api/incidents.py with `list_incidents` of
-- agent-service/app/core/db.py. `parse_site` is `uuid.UUID` on the caller's site.
use processguard_ai.Security.{
  ◌>>◌, ensure_role, uuid_str, ensure_site, principal_site, RbacPolicy, Principal,
}
use processguard_ai.Db.{fetch, Db, IdText}
use processguard_ai.Incident.{
  ActionItem, ActionRow, HistoryRow, Severity, status_eq, Incident, Status, Uuid,
}
use processguard_ai.Base.{
  http_error, lower, text_eq, ℕ, zero, suc, Bool, true, false, not, ◌&&◌, ◌||◌, ltb, Option, none,
  some, List, [], ◌∷◌, leb, ◌==◌, if◌then◌else◌, length, take, keep, Text, Result, ok, err,
}

-- Sorting as ORDER BY "DetectedAt" DESC does.
unfoldable pub insert_newest : Incident → List Incident → List Incident
insert_newest i [] = i ∷ []
insert_newest i (x ∷ xs) =
    let rest = insert_newest i xs in
    if leb x.detected_at i.detected_at then i ∷ x ∷ xs else x ∷ rest

unfoldable pub newest_first : List Incident → List Incident
newest_first [] = []
newest_first (i ∷ is) = insert_newest i (newest_first is)

abbrev pub skip : {A : Type 0} → ℕ → List A → List A
skip zero xs = xs
skip (suc n) [] = []
skip (suc n) (x ∷ xs) = skip n xs

-- The WHERE clause: no status means every status, and no site means every site.
abbrev pub is_listed : Option Status → Option Uuid → Incident → Bool
is_listed none none i = true
is_listed none (some site) i = i.site_id == site
is_listed (some s) none i = status_eq i.status s
is_listed (some s) (some site) i = status_eq i.status s && i.site_id == site

-- The rows that pass, in their order, cut to a page; and the number of all that pass.
abbrev pub page_of : Option Status → Option Uuid → ℕ → ℕ → Db → List Incident × ℕ
page_of status site limit offset db =
    let passing = keep (is_listed status site) db.incidents in
    (take limit (skip offset (newest_first passing)), length passing)

module _ (parse_site : Text → Option Uuid) where
  -- An empty site is no filter; one that is no UUID gives nothing.
  unfoldable pub list_incidents : Option Status → Text → ℕ → ℕ → Db → List Incident × ℕ
  unfolding newest_first insert_newest
  list_incidents status [] limit offset db = page_of status none limit offset db
  list_incidents status (c ∷ t) limit offset db = elim (parse_site (c ∷ t)) [
    | none ↦ ([], 0)
    | some u ↦ page_of status (some u) limit offset db
  ]

  -- GET /incidents; `site_id` is the caller's filter.
  unfoldable pub get_incidents :
      RbacPolicy → Principal → Option Status → Option Text → ℕ → ℕ → Db → Result (List Incident × ℕ)
  unfolding list_incidents
  get_incidents policy p status site_id limit offset db =
      ensure_role p policy.incident_read_roles
      >> (if is_foreign site_id
          then err (http_error 403)
          else ok (list_incidents status (principal_site p) limit offset db))
    where
      is_foreign : Option Text → Bool
      is_foreign none = false
      is_foreign (some []) = false
      is_foreign (some (c ∷ t)) = not (text_eq (lower (c ∷ t)) (lower (principal_site p)))

-- What each of the endpoints for one incident begins with.
unfoldable pub get_incident_by_id : IdText → Principal → Db → Result Incident
get_incident_by_id t p db = elim (fetch t db) [
  | none ↦ err (http_error 404)
  | some i ↦ ensure_site p (some (uuid_str i.site_id)) >> ok i
]

pub record RiskAnswer : Type 0 where
  pub risk_status : Status
  pub severity : Option Severity
  pub hitl_level : Option ℕ
  pub required_approval_level : Option ℕ
  pub assessed_at : Option ℕ

-- GET /incidents/{id}/risk
unfoldable pub get_incident_risk : IdText → Principal → Db → Result RiskAnswer
unfolding get_incident_by_id
get_incident_risk t p db = elim (get_incident_by_id t p db) [
  | err e ↦ err e
  | ok i ↦ ok (record {
    risk_status = i.status;
    severity = i.risk_severity;
    hitl_level = i.hitl_level;
    required_approval_level = i.required_approval_level;
    assessed_at = i.risk_assessed_at;
  })
]

pub record HistoryAnswer : Type 0 where
  pub current_status : Status
  pub transitions : List HistoryRow

-- ORDER BY "ChangedAt", "Id", where `row_id` is the id that the database drew for a row.
module _ (row_id : HistoryRow → ℕ) where
  abbrev stands_before : HistoryRow → HistoryRow → Bool
  stands_before a b =
      ltb a.changed_at b.changed_at || a.changed_at == b.changed_at && leb (row_id a) (row_id b)

  unfoldable pub insert_row : HistoryRow → List HistoryRow → List HistoryRow
  insert_row h [] = h ∷ []
  insert_row h (x ∷ xs) =
      let rest = insert_row h xs in if stands_before h x then h ∷ x ∷ xs else x ∷ rest

  unfoldable pub in_order : List HistoryRow → List HistoryRow
  unfolding insert_row
  in_order [] = []
  in_order (h ∷ hs) = insert_row h (in_order hs)

  -- GET /incidents/{id}/state-history
  unfoldable pub get_state_history : IdText → Principal → Db → Result HistoryAnswer
  unfolding get_incident_by_id in_order
  get_state_history t p db = elim (get_incident_by_id t p db) [
    | err e ↦ err e
    | ok i ↦ ok (record {
      current_status = i.status;
      transitions = in_order (keep (λ h. h.incident == i.id) db.history);
    })
  ]

pub record RootCauseAnswer : Type 0 where
  pub root_cause_status : Status
  pub hypothesis : Option Text
  pub confidence : Option ℕ
  pub cited_evidence : Option Text

-- GET /incidents/{id}/root-cause
unfoldable pub get_incident_root_cause : IdText → Principal → Db → Result RootCauseAnswer
unfolding get_incident_by_id
get_incident_root_cause t p db = elim (get_incident_by_id t p db) [
  | err e ↦ err e
  | ok i ↦ ok (record {
    root_cause_status = i.status;
    hypothesis = i.root_cause_hypothesis;
    confidence = i.confidence;
    cited_evidence = i.cited_evidence;
  })
]

pub record RecommendationAnswer : Type 0 where
  pub recommendation_status : Status
  pub actions : List ActionItem
  pub rationale : Option Text
  pub tool_call_log : Option Text
  pub recommended_level : Option ℕ
  pub recommended_at : Option ℕ

-- GET /incidents/{id}/recommendation
unfoldable pub get_incident_recommendation : IdText → Principal → Db → Result RecommendationAnswer
unfolding get_incident_by_id
get_incident_recommendation t p db = elim (get_incident_by_id t p db) [
  | err e ↦ err e
  | ok i ↦ ok (record {
    recommendation_status = i.status;
    actions = elim i.recommended_actions [ none ↦ [] | some items ↦ items ];
    rationale = i.rationale;
    tool_call_log = i.tool_call_log;
    recommended_level = i.hitl_level;
    recommended_at = i.recommended_at;
  })
]

-- GET /incidents/{id}/action, whose site check is behind the read of the record.
unfoldable pub get_incident_action : IdText → Principal → Db → Result (List ActionRow)
get_incident_action t p db = elim (fetch t db) [
  | none ↦ err (http_error 404)
  | some i ↦
      ensure_site p (some (uuid_str i.site_id)) >> ok (keep (λ a. a.incident == i.id) db.actions)
]
