-- ===== src/Incident/Rows.antt =====
-- The rows of the tables, with the columns that the program reads or writes. A UUID is a number, a
-- time is a number, a jsonb document that is only carried along is a text, and a column that may be
-- NULL is an `Option`.
use processguard_ai.Base.{ℕ, Text, Bool, Option, List}
use processguard_ai.Incident.Words.{Status, Severity}

abbrev pub Uuid : Type 0
Uuid = ℕ

-- A non-negative double, by its bit pattern: these patterns are ordered as the doubles are.
abbrev pub Float : Type 0
Float = ℕ

-- One entry of `anomalySummary["sensors"]` (`_sensor_payload` of the Detection Agent).
pub record SensorEntry : Type 0 where
  pub sensor_id : Uuid
  pub sensor_type : Text
  pub reason : Text
  pub static_margin : Option Float
  pub drift_z : Option Float

-- One entry of the `Consequences` document.
pub record Consequence : Type 0 where
  pub consequence : Text
  pub rationale : Text

-- One entry of the `RecommendedActions` document: a dict with optional keys, or what is no dict.
pub data ActionItem : Type 0 where
  action_dict :
      (action : Option Text) (priority : Option ℕ) (type product_key : Option Text)
      (quantity : Option Float)
      → ActionItem
  plain_value : Text → ActionItem

pub record Incident : Type 0 where
  pub id : Uuid
  pub site_id : Uuid
  pub equipment_id : Uuid
  pub status : Status
  pub severity : Severity
  pub detected_at : ℕ
  pub anomaly_summary : Option (List SensorEntry)
  pub evidence : Option Text
  pub root_cause_hypothesis : Option Text
  pub confidence : Option ℕ
  pub cited_evidence : Option Text
  pub risk_severity : Option Severity
  pub consequences : Option (List Consequence)
  pub hitl_level : Option ℕ
  pub required_approval_level : Option ℕ
  pub recommended_actions : Option (List ActionItem)
  pub rationale : Option Text
  pub tool_call_log : Option Text
  pub risk_assessed_at : Option ℕ
  pub recommended_at : Option ℕ
  pub action_executed_at : Option ℕ
  pub resolved_at : Option ℕ
  pub updated_at : ℕ
  pub estimated_cost : Option ℕ

-- Who wrote a history or audit row: an agent, or the user name of a token.
pub data Actor : Type 0 where
  root_cause_agent risk_agent recommendation_agent hitl_gate orchestrator action_agent : Actor
  user : Text → Actor

-- `IncidentStateHistory`. Every writer but the HITL routing leaves `FromStatus` NULL.
pub record HistoryRow : Type 0 where
  pub incident : Uuid
  pub from_status : Option Status
  pub to_status : Status
  pub actor : Actor
  pub changed_at : ℕ

-- `Approvals`.
pub record ApprovalRow : Type 0 where
  pub incident : Uuid
  pub decision : Status
  pub decided_by : Text
  pub decided_at : ℕ
  pub approved_level : Option ℕ
  pub justification : Option Text

-- `AuditLog`: the `Action` column.
pub data AuditKind : Type 0 where
  hitl_decision : Status → AuditKind
  action_executed incident_resolved loop_closed : AuditKind

pub record AuditRow : Type 0 where
  pub kind : AuditKind
  pub incident : Uuid
  pub actor : Actor
  pub logged_at : ℕ

-- `IncidentActions`.
pub data CmmsKind : Type 0 where
  work_order product_reorder : CmmsKind

pub data ActionOutcome : Type 0 where
  pending succeeded failed : ActionOutcome

pub record ActionRow : Type 0 where
  pub incident : Uuid
  pub operation : CmmsKind
  pub description : Text
  pub reference : Option Text
  pub outcome : ActionOutcome
  pub attempted_at : ℕ

-- `HistoricalIncidents`.
pub record LearnedRow : Type 0 where
  pub id : Uuid
  pub equipment : Option Uuid
  pub root_cause : Text
  pub action_taken : Text
  pub action_worked : Bool
  pub resolution : Text
  pub occurred_at : ℕ
