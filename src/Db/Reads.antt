-- ===== src/Db/Reads.antt =====
-- The reads that the agents and the decision endpoints rest on.
use processguard_ai.Base.{
  ℕ, Text, Bool, true, false, Option, none, some, List, [], ◌&&◌, keep, map, length, ◌==◌,
}
use processguard_ai.Incident.{
  Incident, SensorEntry, ActionItem, Uuid, Status, Severity, action_taken, status_eq, ActionRow,
  ActionOutcome, succeeded, CmmsKind,
}
use processguard_ai.Db.Store.{Db, IdText, uuid_text, parse_uuid, find_incident}

-- The row that an id names; none if the id does not parse or names no row.
abbrev pub fetch : IdText → Db → Option Incident
fetch t db = elim (parse_uuid t) [ none ↦ none | some u ↦ find_incident u db.incidents ]

pub record DiagnosisState : Type 0 where
  pub evidence : Option Text
  pub root_cause_hypothesis : Option Text
  pub sensor_count : ℕ
  pub anomaly_summary : Option (List SensorEntry)
  pub confidence : Option ℕ

abbrev sensors_of : Option (List SensorEntry) → List SensorEntry
sensors_of none = []
sensors_of (some sensors) = sensors

abbrev pub diagnosis_of : Incident → DiagnosisState
diagnosis_of i = record {
  evidence = i.evidence;
  root_cause_hypothesis = i.root_cause_hypothesis;
  sensor_count = length (sensors_of i.anomaly_summary);
  anomaly_summary = i.anomaly_summary;
  confidence = i.confidence;
}

unfoldable pub get_incident_diagnosis_state : IdText → Db → Option DiagnosisState
get_incident_diagnosis_state t db = elim (fetch t db) [
  | none ↦ none
  | some i ↦ some (diagnosis_of i)
]

-- What the HITL decision and the Action Agent read of an incident.
pub record DecisionView : Type 0 where
  pub site_id : Uuid
  pub status : Status
  pub equipment_id : Uuid
  pub hitl_level : Option ℕ
  pub required_approval_level : Option ℕ
  pub recommended_actions : Option (List ActionItem)
  pub risk_severity : Option Severity
  pub root_cause_hypothesis : Option Text
  pub confidence : Option ℕ
  pub anomaly_summary : Option (List SensorEntry)

abbrev pub decision_view : Incident → DecisionView
decision_view i = record {
  site_id = i.site_id;
  status = i.status;
  equipment_id = i.equipment_id;
  hitl_level = i.hitl_level;
  required_approval_level = i.required_approval_level;
  recommended_actions = i.recommended_actions;
  risk_severity = i.risk_severity;
  root_cause_hypothesis = i.root_cause_hypothesis;
  confidence = i.confidence;
  anomaly_summary = i.anomaly_summary;
}

unfoldable pub get_incident_for_decision : IdText → Db → Option DecisionView
get_incident_for_decision t db = elim (fetch t db) [ none ↦ none | some i ↦ some (decision_view i) ]

abbrev is_succeeded : ActionOutcome → Bool
is_succeeded succeeded = true
is_succeeded _ = false

-- SELECT "Operation" FROM "IncidentActions" WHERE "IncidentId" = $1 AND "Outcome" = 'succeeded'.
-- The source asks for distinct kinds, and its callers only test whether there is one.
unfoldable pub get_executed_action_kinds : IdText → Db → List CmmsKind
get_executed_action_kinds t db = elim (parse_uuid t) [
  | none ↦ []
  | some u ↦
      map (λ a. a.operation) (keep (λ a. a.incident == u && is_succeeded a.outcome) db.actions)
]

-- The rows of "IncidentActions" for one incident, in the order of the attempts.
unfoldable pub get_incident_action_record : IdText → Db → Option (List ActionRow)
get_incident_action_record t db = elim (fetch t db) [
  | none ↦ none
  | some i ↦ some (keep (λ a. a.incident == i.id) db.actions)
]

unfoldable pub get_action_taken_incident_ids : Db → List IdText
get_action_taken_incident_ids db =
    map (λ i. uuid_text i.id) (keep (λ i. status_eq i.status action_taken) db.incidents)
