-- ===== src/Tests/Samples.antt =====
-- A plant with one incident, and two servers.
use processguard_ai.World.{World}
use processguard_ai.Risk.{float_ten}
use processguard_ai.Db.{Db, uuid_text}
use processguard_ai.Action.{Approval}
use processguard_ai.Cmms.{network_error, reply, Server, Body}
use processguard_ai.Incident.{
  orchestrator, high, Incident, action_dict, ActionItem, Status, SensorEntry,
}
use processguard_ai.Base.{true, none, some, [], ◌∷◌, codes}

abbrev pub sensor : SensorEntry
sensor = record {
  sensor_id = 7;
  sensor_type = codes "vibration";
  reason = codes "outside normal band by 140.0%";
  static_margin = some float_ten;
  drift_z = none;
}

abbrev pub inspect : ActionItem
inspect = action_dict (some (codes "Inspect pump bearing")) (some 1) none none none

abbrev pub restock : ActionItem
restock =
    action_dict (some (codes "Restock")) (some 2) (some (codes " Product_Reorder "))
      (some (codes "biocide")) (some float_ten)

abbrev pub incident : Status → Incident
incident s = record {
  id = 1;
  site_id = 12;
  equipment_id = 4;
  status = s;
  severity = high;
  detected_at = 100;
  anomaly_summary = some (sensor ∷ []);
  evidence = none;
  root_cause_hypothesis = some (codes "bearing wear");
  confidence = some 87;
  cited_evidence = none;
  risk_severity = some high;
  consequences = none;
  hitl_level = some 2;
  required_approval_level = some 2;
  recommended_actions = some (inspect ∷ restock ∷ []);
  rationale = none;
  tool_call_log = none;
  risk_assessed_at = none;
  recommended_at = none;
  action_executed_at = none;
  resolved_at = none;
  updated_at = 100;
  estimated_cost = none;
}

-- A store whose history tells how the incident came to its status.
abbrev pub plant : Status → Db
plant s = record {
  incidents = incident s ∷ [];
  history =
      record {
        incident = 1;
        from_status = none;
        to_status = s;
        actor = orchestrator;
        changed_at = 100;
      }
      ∷ [];
  approvals = [];
  audit = [];
  actions = [];
  historical = [];
  clock = 200;
  next_uuid = 2;
}

abbrev pub world : Status → World
world s = record { db = plant s; net = []; bus = []; bus_faults = true ∷ [] }

abbrev pub answer : Body
answer = record {
  id = some (codes "WO-1");
  work_order_id = none;
  reorder_id = none;
  status = codes "open";
  equipment = none;
  description = [];
  resolution_note = none;
}

-- The first request times out, all others are accepted.
abbrev pub flaky : Server
flaky [] r = network_error
flaky (e ∷ log) r = reply 201 (some answer)

-- A server that is down.
abbrev pub down : Server
down log r = reply 503 none

abbrev pub approval : Approval
approval = record { incident_id = uuid_text 1; decided_by = codes "manager"; decided_at = 200 }
