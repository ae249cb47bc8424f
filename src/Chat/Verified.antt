-- ===== src/Chat/Verified.antt =====
-- What an answer of the chat rests on.
use processguard_ai.Agents.{splitlines}
use processguard_ai.Chat.{
  EvidenceDocument, evidence_of, Reply, ChatAnswer, insufficient_answer, bullet_points,
  checked_answer, grounded_answer, ask_about_incident, max_answer_chars,
}
use processguard_ai.Diagnosis.{CitedPoint, Evidence, invalid_points}
use processguard_ai.Diagnosis.Grounded.{map-cited_points, IsGrounded, cited_points-IsGrounded}
use processguard_ai.Security.{
  ensure_role, ensure_site, uuid_str, RbacPolicy, Principal, has_role, principal_role,
  principal_site,
}
use processguard_ai.Incident.{Incident, SensorEntry}
use processguard_ai.Db.{Db, IdText, fetch}
use mathlib.Core.Path.{subst}
use processguard_ai.Base.{
  Result, Result-cases, map, none, text_eq, lower, starts_with, strip, ◌≤◌, ◌≡◌, refl, ◌⊎◌, inl,
  inr, true, false, not, some, List, [], arith, ltb, Bool-cases, Option-cases, length, take,
  is_empty, All, Text, codes, ok,
}

module _ (loads : Text → EvidenceDocument) (generate : Incident → Text → Result Reply) where
  abbrev pub reply_points : Reply → List Text
  reply_points reply = bullet_points (splitlines (strip reply.content))

  -- What a citation may name: a sensor type of the incident's anomaly summary, a document of its stored
  -- evidence, or a past incident of that evidence.
  abbrev pub RecordOf : Incident → Evidence → Type 0
  RecordOf i e =
      ((sensors : List SensorEntry)
        → i.anomaly_summary ≡ some sensors
        → e.sensor_types ≡ map (λ s. s.sensor_type) sensors)
      × (i.anomaly_summary ≡ none → e.sensor_types ≡ [])
      × ((doc : Text)
          → i.evidence ≡ some doc
          → (e.sop_ids ≡ (loads doc).chunk_ids) × (e.history_refs ≡ (loads doc).matched_refs))
      × (i.evidence ≡ none → (e.sop_ids ≡ []) × (e.history_refs ≡ []))

  evidence_of-RecordOf : (i : Incident) → RecordOf i (evidence_of loads i)
  unfolding evidence_of
  evidence_of-RecordOf i = (
    λ sensors h. rw h refl,
    λ h. rw h refl,
    λ doc h. (rw h refl, rw h refl),
    λ h. (rw h refl, rw h refl),
  )

  -- The fixed fallback, or the model's words with every bullet cited from the record.
  abbrev pub IsVerified : Incident → Reply → ChatAnswer → Type 0
  IsVerified i reply r =
      (r.answer ≡ insufficient_answer) × (r.citations ≡ []) × (r.grounded ≡ false)
      ⊎ ((e : Evidence) × RecordOf i e × All (IsGrounded e) r.citations)
        × (map (λ (p : CitedPoint). p.point) r.citations ≡ reply_points reply)
        × (r.answer ≡ take max_answer_chars (strip reply.content))
        × (r.grounded ≡ not (is_empty r.citations))

  checked_answer-IsVerified :
      (i : Incident) (question : Text) (reply : Reply)
      → IsVerified i reply (checked_answer loads generate i question reply)
  unfolding checked_answer
  checked_answer-IsVerified i question reply =
      let points = reply_points reply in
      let answer = strip reply.content in
      elim (Bool-cases (starts_with (codes "i don't have evidence") (lower answer))) [
        | inl declined ↦ rw declined (inl (refl, refl, refl))
        | inr spoke ↦ elim (Bool-cases (ltb 0 (invalid_points points (evidence_of loads i)))) [
          | inl failed ↦ rw spoke (rw failed (inl (refl, refl, refl)))
          | inr sound ↦ rw spoke (
              rw sound (
                inr (
                  (
                    evidence_of loads i,
                    evidence_of-RecordOf i,
                    cited_points-IsGrounded (evidence_of loads i) points,
                  ),
                  map-cited_points (evidence_of loads i) points (ground (arith, sound)),
                  refl,
                  refl,
                )))
        ]
      ]

  asked_of : Db → Incident → Text → Reply → ChatAnswer
  asked_of db i question reply = record (checked_answer loads generate i question reply) {
    asked_at = some db.clock;
  }

  ask_inversion :
      (policy : RbacPolicy) (t : IdText) (question : Text) (p : Principal) (db : Db)
      (r : ChatAnswer)
      → ask_about_incident loads generate policy t question p db ≡ ok r
      → (i : Incident) × (fetch t db ≡ some i)
        × (ensure_role p policy.chat_roles ≡ ok tt)
        × (ensure_site p (some (uuid_str i.site_id)) ≡ ok tt)
        × (is_empty (strip question) ≡ false)
        × (length (strip question) ≤ 500)
        × (reply : Reply) × (generate i (strip question) ≡ ok reply)
        × (asked_of db i (strip question) reply ≡ r)
  unfolding ask_about_incident grounded_answer asked_of
  ask_inversion policy t question p db r h = elim (Option-cases (fetch t db)) [
    | inl missing ↦ absurd (ground arith)
    | inr (i, found) ↦ elim (Result-cases (generate i (strip question))) [
      | inl (e, raised) ↦ absurd (ground arith)
      | inr (reply, said) ↦ (
        i,
        found,
        ground arith,
        ground arith,
        ground arith,
        ground arith,
        reply,
        said,
        ground arith,
      )
    ]
  ]

  -- Whoever is answered may use the chat and is of the incident's site, and asked a question of at most
  -- 500 characters. The answer is the fixed fallback with no citation, or the model's words (cut to 1500
  -- characters) of which every bullet has its citation, of a sensor, SOP or past incident of that
  -- incident's record that the bullet names; it is marked as grounded exactly when there is a citation.
  pub ask_about_incident-IsVerified :
      (policy : RbacPolicy) (t : IdText) (question : Text) (p : Principal) (db : Db)
      (r : ChatAnswer)
      → ask_about_incident loads generate policy t question p db ≡ ok r
      → (i : Incident) × (fetch t db ≡ some i)
        × (has_role (principal_role p) policy.chat_roles ≡ true)
        × (text_eq (lower (uuid_str i.site_id)) (lower (principal_site p)) ≡ true)
        × (is_empty (strip question) ≡ false)
        × (length (strip question) ≤ 500)
        × (reply : Reply) × (generate i (strip question) ≡ ok reply)
        × IsVerified i reply r
  unfolding ensure_role ensure_site asked_of
  ask_about_incident-IsVerified policy t question p db r h =
      let (i, found, role, site, full, short, reply, said, same) =
        ask_inversion policy t question p db r h in
      let verified : IsVerified i reply (asked_of db i (strip question) reply) =
        checked_answer-IsVerified i (strip question) reply in
      (
        i,
        found,
        ground arith,
        ground arith,
        full,
        short,
        reply,
        said,
        subst (λ x. IsVerified i reply x) same verified,
      )
