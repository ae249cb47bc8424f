-- ===== src/Agents/Recommend.antt =====
-- `RecommendationAgent.handle` with its bounded write. The planner (`plan`: what it says, its tool log and
-- the cost it records, or what the model client raises) and the reading of its text (`parse`, which is
-- `parse_recommendation` of Parse and may raise too) are parameters here.
use processguard_ai.World.{recommendation_stage, stage_completed, publish, World}
use processguard_ai.Incident.{awaiting_approval, auto_informed, Status, ActionItem}
use processguard_ai.Db.{
  add_incident_cost, get_incident_for_decision, save_recommendation, get_incident_diagnosis_state,
  DecisionView, IdText, DiagnosisState,
}
use processguard_ai.Base.{
  ◌/◌, ◌%◌, runtime_error, ℕ, zero, suc, ◌+◌, true, false, none, some, List, [], ◌∷◌, ◌++◌, ltb,
  leb, if◌then◌else◌, or_nonzero, Text, codes, Result, ok, err,
}

pub record Recommendation : Type 0 where
  pub actions : List ActionItem
  pub rationale : Text

pub record RecommendOutcome : Type 0 where
  pub hitl_level : ℕ
  pub next_status : Status

-- `"auto_informed" if hitl <= 1 else "awaiting_approval"`
unfoldable pub routed_status : ℕ → Status
routed_status level = if leb level 1 then auto_informed else awaiting_approval

-- `str` of a number.
abbrev decimal_loop : ℕ → ℕ → Text → Text
decimal_loop zero n out = out
decimal_loop (suc fuel) n out =
    let rest = decimal_loop fuel (n / 10) ((b'0' + n % 10) ∷ out) in
    if ltb n 10 then (b'0' + n) ∷ out else rest

abbrev decimal : ℕ → Text
decimal n = decimal_loop (suc n) n []

unfoldable pub hitl_note : ℕ → Text
hitl_note hitl =
    codes "[HITL Level "
    ++ decimal hitl
    ++ codes " applies to this recommendation: "
    ++ (if leb hitl 1
        then codes "informational -- recorded and visible, no approval required.]"
        else codes "a human must approve before any action is executed.]")

-- The cost that the planner adds to the incident, if it ran out of rounds and the model has a price.
unfoldable pub spend : IdText → ℕ → World → World
spend t cost w = if ltb 0 cost then record w { db = (add_incident_cost t cost w.db).1 } else w

-- `_persist_with_retry`: an attempt fails if the incident is missing or the write raises.
unfoldable pub persist_with_retry :
    ℕ → IdText → List ActionItem → Text → Text → Status → World → Result (Unit {0}) × World
persist_with_retry zero t actions rationale log next w = (err runtime_error, w)
persist_with_retry (suc left) t actions rationale log next w =
    let (out, db) = save_recommendation t actions rationale log next w.db in
    let written = record w { db = db } in
    let again = persist_with_retry left t actions rationale log next written in
    elim out [ ok true ↦ (ok tt, written) | ok false ↦ again | err e ↦ again ]

module _ (attempts : ℕ) (plan : DiagnosisState → DecisionView → Result (Text × Text × ℕ))
    (parse : Text → Result Recommendation) where
  -- Behind the planner: the route, the write and the announcement.
  unfoldable pub write_up :
      IdText → DecisionView → Text → Recommendation → World → Result RecommendOutcome × World
  unfolding routed_status hitl_note
  write_up t view log parsed w =
      let hitl = or_nonzero view.hitl_level 2 in
      let next = routed_status hitl in
      let (out, w2) =
        persist_with_retry attempts t parsed.actions
          (hitl_note hitl ++ codes "\n" ++ parsed.rationale) log next w in
      elim out [
        | err e ↦ (err e, w2)
        | ok u ↦
            let (told, w3) = publish (stage_completed recommendation_stage t) w2 in
            elim told [
              | err e ↦ (err e, w3)
              | ok v ↦ (ok (record { hitl_level = hitl; next_status = next }), w3)
            ]
      ]

  unfoldable pub recommend :
      IdText → DiagnosisState → DecisionView → World → Result RecommendOutcome × World
  unfolding write_up
  recommend t state view w = elim (plan state view) [
    | err e ↦ (err e, w)
    | ok planned ↦
        let (final_text, log, cost) = planned in
        elim (parse final_text) [
          | err e ↦ (err e, spend t cost w)
          | ok parsed ↦ write_up t view log parsed (spend t cost w)
        ]
  ]

  -- Both reads, and the ordering check: no recommendation without a risk assessment.
  unfoldable pub recommendation_handle : IdText → World → Result RecommendOutcome × World
  recommendation_handle t w = elim (get_incident_diagnosis_state t w.db) [
    | none ↦ (err runtime_error, w)
    | some state ↦ elim (get_incident_for_decision t w.db) [
      | none ↦ (err runtime_error, w)
      | some view ↦ elim view.risk_severity [
        | none ↦ (err runtime_error, w)
        | some severity ↦ recommend t state view w
      ]
    ]
  ]
