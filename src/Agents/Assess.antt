-- ===== src/Agents/Assess.antt =====
-- `RiskAgent.handle`.
use processguard_ai.Mapping.{text_or_empty}
use processguard_ai.World.{World}
use processguard_ai.Db.{save_risk_assessment, get_incident_diagnosis_state, IdText, DiagnosisState}
use processguard_ai.Risk.{hitl_level_for, select_consequences, severity_from, RiskConfig}
use processguard_ai.Incident.{Consequence, Float, Severity, SensorEntry}
use processguard_ai.Base.{runtime_error, ℕ, Option, none, some, List, ◌∷◌, Result, ok, err}

pub record RiskOutcome : Type 0 where
  pub severity : Severity
  pub consequences : List Consequence
  pub hitl_level : ℕ

abbrev sensors_or : Option (List SensorEntry) → List SensorEntry → List SensorEntry
sensors_or (some (s ∷ sensors)) given = s ∷ sensors
sensors_or _ given = given

-- The payload's own summary serves where the record has none.
unfoldable pub assess :
    (Float → Float → Float) → RiskConfig → DiagnosisState → List SensorEntry → RiskOutcome
assess fdiv cfg state given =
    let sensors = sensors_or state.anomaly_summary given in
    let severity = severity_from fdiv cfg sensors in
    record {
      severity = severity;
      consequences = select_consequences (text_or_empty state.root_cause_hypothesis) sensors cfg;
      hitl_level = hitl_level_for severity state.confidence cfg;
    }

unfoldable pub risk_handle :
    (Float → Float → Float)
    → RiskConfig
    → IdText
    → List SensorEntry
    → World
    → Result RiskOutcome × World
unfolding assess
risk_handle fdiv cfg t given w = elim (get_incident_diagnosis_state t w.db) [
  | none ↦ (err runtime_error, w)
  | some state ↦
      let out = assess fdiv cfg state given in
      (
        ok out,
        record w {
          db =
              (save_risk_assessment t out.severity out.consequences out.hitl_level out.hitl_level
                w.db).1;
        },
      )
]
