-- ===== src/Chat.antt =====
-- agent-service/app/api/ask.py: questions about one incident. What the model is shown is not modelled:
-- its reply to a question about an incident is a parameter, and so is `json.loads` of the stored evidence.
use processguard_ai.Agents.{splitlines}
use processguard_ai.Diagnosis.{Evidence, CitedPoint, cited_points, invalid_points}
use processguard_ai.Security.{◌>>◌, ensure_role, ensure_site, uuid_str, RbacPolicy, Principal}
use processguard_ai.Incident.{Incident, SensorEntry}
use processguard_ai.Db.{Db, IdText, fetch}
pub mod Verified
use processguard_ai.Base.{
  map, lower, starts_with, strip, http_error, ℕ, Bool, false, not, ◌||◌, Option, none, some, List,
  [], ◌∷◌, ltb, ◌==◌, if◌then◌else◌, length, take, is_empty, Text, codes, Result, ok, err,
}

pub record Reply : Type 0 where
  pub content : Text
  pub model : Text
  pub provider : Text

pub record ChatAnswer : Type 0 where
  pub question : Text
  pub answer : Text
  pub citations : List CitedPoint
  pub grounded : Bool
  pub model : Text
  pub provider : Text
  pub asked_at : Option ℕ

abbrev pub insufficient_answer : Text
insufficient_answer = codes "I don't have evidence for that."

abbrev pub max_question_chars : ℕ
max_question_chars = 500

abbrev pub max_answer_chars : ℕ
max_answer_chars = 1500

unfoldable pub no_evidence_answer : Text → ChatAnswer
no_evidence_answer question = record {
  question = question;
  answer = insufficient_answer;
  citations = [];
  grounded = false;
  model = codes "none";
  provider = codes "none";
  asked_at = none;
}

-- U+2022 is the bullet.
abbrev pub is_mark : ℕ → Bool
is_mark c = c == b'-' || c == b'*' || c == 0x2022

abbrev pub is_lead : ℕ → Bool
is_lead c = is_mark c || c == 32

-- `s.lstrip("-*• ")`
unfoldable pub drop_lead : Text → Text
drop_lead [] = []
drop_lead (c ∷ s) = let rest = drop_lead s in if is_lead c then rest else c ∷ s

-- What is checked of a line: nothing of prose, the text of a bullet.
unfoldable pub bullet_point : Text → Text
unfolding drop_lead
bullet_point line = elim (strip line) [
  | [] ↦ []
  | c ∷ s ↦ if is_mark c then strip (drop_lead (c ∷ s)) else []
]

unfoldable pub bullet_points : List Text → List Text
unfolding bullet_point
bullet_points [] = []
bullet_points (line ∷ lines) =
    let rest = bullet_points lines in
    let point = bullet_point line in if is_empty point then rest else point ∷ rest

-- `retrievedEvidence` behind `json.loads`: the `docId` of each of its `sop_chunks`, and the `source` and
-- `id` of each of its `matched_history`.
pub record EvidenceDocument : Type 0 where
  pub chunk_ids : List Text
  pub matched_refs : List (Text × Text)

abbrev summary_types : Option (List SensorEntry) → List Text
summary_types none = []
summary_types (some sensors) = map (λ s. s.sensor_type) sensors

-- What `_validate_point` is given: `anomalySummary` and `retrievedEvidence` of the incident, where a
-- missing one is `{"sensors": []}` and `{}`.
unfoldable pub evidence_of : (Text → EvidenceDocument) → Incident → Evidence
evidence_of loads i = record {
  sensor_types = summary_types i.anomaly_summary;
  sop_ids = elim i.evidence [ none ↦ [] | some e ↦ (loads e).chunk_ids ];
  history_refs = elim i.evidence [ none ↦ [] | some e ↦ (loads e).matched_refs ];
}

module _ (loads : Text → EvidenceDocument) (generate : Incident → Text → Result Reply) where
  -- Behind the call of the model. `askedAt` is filled in by the route.
  unfoldable pub checked_answer : Incident → Text → Reply → ChatAnswer
  unfolding no_evidence_answer bullet_points evidence_of
  checked_answer i question reply =
      let answer = strip reply.content in
      let points = bullet_points (splitlines answer) in
      let cited = cited_points points (evidence_of loads i) in
      if starts_with (codes "i don't have evidence") (lower answer)
      then no_evidence_answer question
      else if ltb 0 (invalid_points points (evidence_of loads i))
      then no_evidence_answer question
      else record {
        question = question;
        answer = take max_answer_chars answer;
        citations = cited;
        grounded = not (is_empty cited);
        model = reply.model;
        provider = reply.provider;
        asked_at = none;
      }

  -- What the model's client raises, nothing catches.
  unfoldable pub grounded_answer : Incident → Text → Result ChatAnswer
  unfolding checked_answer
  grounded_answer i question = elim (generate i question) [
    | err e ↦ err e
    | ok reply ↦ ok (checked_answer i question reply)
  ]

  abbrev stamped : ℕ → Result ChatAnswer → Result ChatAnswer
  stamped now (err e) = err e
  stamped now (ok answer) = ok (record answer { asked_at = some now })

  abbrev checked_question : Text → Result (Unit {0})
  checked_question question =
      if is_empty question
      then err (http_error 422)
      else if ltb max_question_chars (length question)
      then err (http_error 422)
      else ok tt

  -- POST /incidents/{id}/ask; `question` is the body's, or empty.
  unfoldable pub ask_about_incident :
      RbacPolicy → IdText → Text → Principal → Db → Result ChatAnswer
  unfolding grounded_answer
  ask_about_incident policy t question p db = ensure_role p policy.chat_roles >> elim (fetch t db) [
    | none ↦ err (http_error 404)
    | some i ↦
        ensure_site p (some (uuid_str i.site_id))
        >> (checked_question (strip question)
            >> stamped db.clock (grounded_answer i (strip question)))
  ]
