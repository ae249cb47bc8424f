-- ===== src/Telemetry.antt =====
-- agent-service/app/api/telemetry.py: the summary of a site and the cost of an incident. The samples of
-- the Prometheus registry are an argument; a key of a counter's dictionary that the source spells as text
-- is a value with its test. Averages and rates are not rounded here: a rate is its two numbers.
use processguard_ai.Security.{ensure_site, uuid_str, principal_site, Principal, ◌>>◌}
use processguard_ai.Incident.{Incident, Status, status_eq, approved, rejected, Uuid}
use processguard_ai.Db.{Db, IdText, parse_uuid, find_incident}
pub mod Totals
use processguard_ai.Base.{
  value_error, text_eq, http_error, ℕ, zero, suc, ◌+◌, ◌-◌, ◌*◌, Bool, true, false, ◌&&◌, ◌||◌,
  Option, none, some, List, [], ◌∷◌, ltb, leb, ◌==◌, if◌then◌else◌, or_nonzero, is_some, length,
  keep, Text, codes, Result, ok, err,
}

-- `d[k] = d.get(k, 0) + n`
unfoldable pub add_to {ℓ} : {K : Type ℓ} → (K → K → Bool) → K → ℕ → List (K × ℕ) → List (K × ℕ)
add_to same k n [] = (k, n) ∷ []
add_to same k n ((j, m) ∷ d) =
    let rest = add_to same k n d in if same j k then (j, m + n) ∷ d else (j, m) ∷ rest

-- `sum(d.values())`
unfoldable pub sum_values {ℓ} : {K : Type ℓ} → List (K × ℕ) → ℕ
sum_values [] = 0
sum_values ((k, n) ∷ d) = n + sum_values d

unfoldable pub count_status : List Incident → List (Status × ℕ) → List (Status × ℕ)
unfolding add_to
count_status [] d = d
count_status (i ∷ is) d = count_status is (add_to status_eq i.status 1 d)

pub data DiagnosisOutcome : Type 0 where
  root_cause_accepted root_cause_needs_human_review : DiagnosisOutcome

abbrev pub outcome_eq : DiagnosisOutcome → DiagnosisOutcome → Bool
outcome_eq root_cause_accepted root_cause_accepted = true
outcome_eq root_cause_needs_human_review root_cause_needs_human_review = true
outcome_eq _ _ = false

abbrev pub is_diagnosed : Incident → Bool
is_diagnosed i = is_some i.root_cause_hypothesis && is_some i.confidence

abbrev outcome_of : Option ℕ → DiagnosisOutcome
outcome_of none = root_cause_accepted
outcome_of (some zero) = root_cause_needs_human_review
outcome_of (some (suc n)) = root_cause_accepted

unfoldable pub count_outcomes :
    List Incident → List (DiagnosisOutcome × ℕ) → List (DiagnosisOutcome × ℕ)
unfolding add_to
count_outcomes [] d = d
count_outcomes (i ∷ is) d =
    count_outcomes is
      (if is_diagnosed i then add_to outcome_eq (outcome_of i.confidence) 1 d else d)

-- The key of a decision: approved or rejected, and the level.
abbrev pub decision_eq : Status × ℕ → Status × ℕ → Bool
decision_eq (s, n) (t, m) = status_eq s t && n == m

abbrev decision_level_of : Incident → ℕ
decision_level_of i = or_nonzero i.hitl_level (or_nonzero i.required_approval_level 0)

abbrev pub is_decided : Incident → Bool
is_decided i = status_eq i.status approved || status_eq i.status rejected

unfoldable pub count_decisions : List Incident → List ((Status × ℕ) × ℕ) → List ((Status × ℕ) × ℕ)
unfolding add_to
count_decisions [] d = d
count_decisions (i ∷ is) d =
    count_decisions is
      (if is_decided i then add_to decision_eq (i.status, decision_level_of i) 1 d else d)

unfoldable pub confidences : List Incident → List ℕ
confidences [] = []
confidences (i ∷ is) =
    let rest = confidences is in elim i.confidence [ none ↦ rest | some c ↦ c ∷ rest ]

unfoldable pub count_between : ℕ → ℕ → List ℕ → ℕ
count_between low high [] = 0
count_between low high (c ∷ cs) =
    (if leb low c && leb c high then 1 else 0) + count_between low high cs

unfoldable pub buckets : List ℕ → List ℕ
unfolding count_between
buckets [] = []
buckets (c ∷ cs) =
    let all = c ∷ cs in
    count_between 0 20 all
    ∷ count_between 21 40 all
    ∷ count_between 41 60 all
    ∷ count_between 61 80 all
    ∷ count_between 81 100 all
    ∷ []

-- A sample of a counter: its name, the agent and the incident of its labels, and its value.
pub record Sample : Type 0 where
  pub name : Text
  pub agent : Text
  pub incident_id : Text
  pub value : ℕ

unfoldable pub totals_by_agent : Text → List Sample → List (Text × ℕ) → List (Text × ℕ)
unfolding add_to
totals_by_agent name [] d = d
totals_by_agent name (s ∷ ss) d =
    totals_by_agent name ss (if text_eq s.name name then add_to text_eq s.agent s.value d else d)

unfoldable pub total_for_incident : Text → Text → List Sample → ℕ
total_for_incident name t [] = 0
total_for_incident name t (s ∷ ss) =
    (if text_eq s.name name && text_eq s.incident_id t then s.value else 0)
    + total_for_incident name t ss

-- The counters of core/observability.py, with costs in a fixed fraction of a dollar.
pub record Registry : Type 0 where
  pub calls : List Sample
  pub tokens : List Sample
  pub costs : List Sample
  pub incident_costs : List Sample

pub record TelemetrySummary : Type 0 where
  pub total : ℕ
  pub by_status : List (Status × ℕ)
  pub accepted : ℕ
  pub needs_human_review : ℕ
  pub confidence_sum : ℕ
  pub confidence_count : ℕ
  pub confidence_distribution : List ℕ
  pub hitl_decisions : List ((Status × ℕ) × ℕ)
  pub calls_by_agent : List (Text × ℕ)
  pub tokens_by_agent : List (Text × ℕ)
  pub cost_by_agent : List (Text × ℕ)
  pub total_tokens : ℕ
  pub total_cost : ℕ

-- `d.get(k, 0)`
unfoldable pub get_count {ℓ} : {K : Type ℓ} → (K → K → Bool) → K → List (K × ℕ) → ℕ
get_count same k [] = 0
get_count same k ((j, n) ∷ d) = let rest = get_count same k d in if same j k then n else rest

unfoldable pub sum : List ℕ → ℕ
sum [] = 0
sum (n ∷ ns) = n + sum ns

abbrev pub calls_name : Text
calls_name = codes "pgai_llm_calls_total"

abbrev pub tokens_name : Text
tokens_name = codes "pgai_llm_tokens_total_total"

abbrev pub cost_name : Text
cost_name = codes "pgai_llm_cost_usd_total_total"

abbrev pub incident_cost_name : Text
incident_cost_name = codes "pgai_incident_cost_usd_total_total"

-- SELECT … WHERE "SiteId" = $1 AND "DetectedAt" >= $2
abbrev pub in_window : Uuid → ℕ → Incident → Bool
in_window site since i = i.site_id == site && leb since i.detected_at

unfoldable pub summarise : List Incident → Registry → TelemetrySummary
unfolding count_status count_outcomes count_decisions confidences buckets totals_by_agent sum_values
    get_count sum
summarise rows registry =
    let outcomes = count_outcomes rows [] in
    let tokens = totals_by_agent tokens_name registry.tokens [] in
    let costs = totals_by_agent cost_name registry.costs [] in
    record {
      total = length rows;
      by_status = count_status rows [];
      accepted = get_count outcome_eq root_cause_accepted outcomes;
      needs_human_review = get_count outcome_eq root_cause_needs_human_review outcomes;
      confidence_sum = sum (confidences rows);
      confidence_count = length (confidences rows);
      confidence_distribution = buckets (confidences rows);
      hitl_decisions = count_decisions rows [];
      calls_by_agent = totals_by_agent calls_name registry.calls [];
      tokens_by_agent = tokens;
      cost_by_agent = costs;
      total_tokens = sum_values tokens;
      total_cost = sum_values costs;
    }

-- GET /telemetry/summary, for a window of 1 to 168 hours; the clock counts seconds. A site that is no UUID
-- raises a ValueError that nothing catches.
unfoldable pub telemetry_summary :
    (Text → Option Uuid) → Registry → ℕ → Principal → Db → Result TelemetrySummary
unfolding summarise
telemetry_summary parse_site registry window_hours p db =
    if ltb window_hours 1 || ltb 168 window_hours
    then err (http_error 422)
    else elim (parse_site (principal_site p)) [
      | none ↦ err value_error
      | some site ↦
          ok (
            summarise (keep (in_window site (db.clock - window_hours * 3600)) db.incidents)
              registry)
    ]

pub record IncidentCost : Type 0 where
  pub status : Status
  pub confidence : Option ℕ
  pub has_root_cause : Bool
  pub cost : ℕ
  pub total_tokens : ℕ
  pub llm_calls : ℕ

-- GET /incidents/{id}/cost; `spelled` is the id as the path spells it.
unfoldable pub incident_cost :
    (IdText → Text) → Registry → IdText → Principal → Db → Result IncidentCost
unfolding total_for_incident
incident_cost spelled registry t p db = elim (parse_uuid t) [
  | none ↦ err (http_error 404)
  | some u ↦ elim (find_incident u db.incidents) [
    | none ↦ err (http_error 404)
    | some i ↦
        ensure_site p (some (uuid_str i.site_id))
        >> ok (record {
          status = i.status;
          confidence = i.confidence;
          has_root_cause = is_some i.root_cause_hypothesis;
          cost = total_for_incident incident_cost_name (spelled t) registry.incident_costs;
          total_tokens = total_for_incident tokens_name (spelled t) registry.tokens;
          llm_calls = total_for_incident calls_name (spelled t) registry.calls;
        })
  ]
]
