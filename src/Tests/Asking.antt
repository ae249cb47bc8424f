-- ===== src/Tests/Asking.antt =====
-- A diagnosis that waits, and a question about an incident.
use processguard_ai.Diagnosis.{
  Reads, prepare, Prepared, signature, cited_points, invalid_points, validate_point, first_named,
  put_all, put, put_history,
}
use processguard_ai.Diagnosis.Settles.{prepare_settles, IsRead}
use processguard_ai.Chat.{
  checked_answer, EvidenceDocument, evidence_of, Reply, ChatAnswer, ask_about_incident,
  grounded_answer, no_evidence_answer, bullet_points,
}
use processguard_ai.Chat.Verified.{ask_about_incident-IsVerified, IsVerified}
use processguard_ai.Security.{
  Principal, role_list, plant_manager, rbac_policy, uuid_str, has_role, principal_role,
  principal_site, ensure_role, ensure_site,
}
use processguard_ai.Agents.{splitlines}
use processguard_ai.Db.{DiagnosisState, uuid_text, fetch}
use processguard_ai.Incident.{Incident, opened, SensorEntry}
use processguard_ai.Tests.Samples.{plant, incident, sensor}
use Prim.Native.String.{String}
use processguard_ai.Base.{
  Result, ok, List, contains_text, text_eq, lower, lstrip, strip, ℕ, ◌+◌, ◌≤◌, ◌<◌, ◌≡◌, refl, true,
  false, none, some, [], ◌∷◌, ltb, if◌then◌else◌, is_some, length, is_empty, Text, codes,
}

abbrev early : DiagnosisState
early = record {
  evidence = none;
  root_cause_hypothesis = none;
  sensor_count = 1;
  anomaly_summary = some (sensor ∷ []);
  confidence = none;
}

abbrev later : DiagnosisState
later = record early { sensor_count = 5; evidence = some (codes "e") }

-- The signature is there at the third read.
abbrev reads : Reads
reads k = if ltb k 2 then some early else some later

prepare_settles_example :
    (p : Prepared) × (prepare reads none ≡ some p)
    × (p.reads ≤ 14)
    × IsRead reads p.state
    × ((stored : List SensorEntry) → p.state.anomaly_summary ≡ some stored → p.sensors ≡ stored)
    × ((j : ℕ) (seen : DiagnosisState)
        → j < 8
        → reads (1 + j) ≡ some seen
        → 5 ≤ seen.sensor_count
        → 5 ≤ p.state.sensor_count)
    × ((j : ℕ) (seen : DiagnosisState)
        → j < 5
        → reads ((signature 1 reads early).1 + j) ≡ some seen
        → is_some seen.evidence ≡ true
        → is_some p.evidence ≡ true)
prepare_settles_example = prepare_settles reads none early refl refl

abbrev manager : Principal
manager = record {
  token = codes "t";
  payload = record {
    iss = codes "http://oidc";
    site_claim = uuid_str 12;
    roles = role_list (plant_manager ∷ []);
    preferred_username = codes "manager";
    name = [];
    sub = codes "1";
  };
}

abbrev stored_evidence : Text → EvidenceDocument
stored_evidence text = record { chunk_ids = codes "SOP-14" ∷ []; matched_refs = [] }

abbrev reply_of : String → Reply
reply_of s = record { content = codes s; model = codes "m"; provider = codes "p" }

abbrev says : String → Incident → Text → Result Reply
says s i question = ok (reply_of s)

abbrev bullet : String
bullet = "- vibration is high [sensor reading]"

abbrev bullet_answer : ChatAnswer
bullet_answer =
    record (checked_answer stored_evidence (says bullet) (incident opened) (codes "Why?")
      (reply_of bullet)) { asked_at = some 200 }

ask_about_incident-IsVerified_example :
    (i : Incident) × (fetch (uuid_text 1) (plant opened) ≡ some i)
    × (has_role (principal_role manager) rbac_policy.chat_roles ≡ true)
    × (text_eq (lower (uuid_str i.site_id)) (lower (principal_site manager)) ≡ true)
    × (is_empty (strip (codes " Why?")) ≡ false)
    × (length (strip (codes " Why?")) ≤ 500)
    × (reply : Reply) × (says bullet i (strip (codes " Why?")) ≡ ok reply)
    × IsVerified stored_evidence (says bullet) i reply bullet_answer
unfolding ask_about_incident grounded_answer uuid_str ensure_role ensure_site strip lstrip lower
ask_about_incident-IsVerified_example =
    ask_about_incident-IsVerified stored_evidence (says bullet) rbac_policy (uuid_text 1)
      (codes " Why?") manager (plant opened) bullet_answer refl

-- One bullet without a citation spoils the answer.
spoilt :
    grounded_answer stored_evidence
      (says "- vibration is high [sensor reading]\n- SOP-99 applies")
      (incident opened)
      (codes "Why?")
    ≡ ok (no_evidence_answer (codes "Why?"))
unfolding grounded_answer checked_answer evidence_of bullet_points splitlines cited_points
    invalid_points validate_point first_named put_all put put_history strip lstrip lower
    contains_text
spoilt = refl

answered : bullet_answer.grounded ≡ true
unfolding grounded_answer checked_answer evidence_of bullet_points splitlines cited_points
    invalid_points validate_point first_named put_all put put_history strip lstrip lower
    contains_text
answered = refl
