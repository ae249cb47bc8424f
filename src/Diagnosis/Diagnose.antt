-- ===== src/Diagnosis/Diagnose.antt =====
-- The two attempts of `RootCauseAgent.handle` behind its waits, and the bounded write. What the model
-- answers on an attempt, or the exception of its client, and what that costs are parameters, as is `json.dumps` of the citations.
use processguard_ai.Agents.{spend}
use processguard_ai.World.{root_cause_stage, stage_completed, publish, World}
use processguard_ai.Incident.{investigating, needs_human_review, Status}
use processguard_ai.Db.{save_root_cause, IdText}
use processguard_ai.Diagnosis.Citations.{
  valid_answer, invalid_answer, Parsed, Evidence, parse_and_validate, Reading, CitedPoint,
}
use processguard_ai.Base.{
  runtime_error, ℕ, zero, suc, true, false, Option, none, some, List, [], Text, codes, Result, ok,
  err,
}

-- `_persist_with_retry`
unfoldable pub persist_diagnosis :
    ℕ → IdText → Text → ℕ → Text → Status → World → Result (Unit {0}) × World
persist_diagnosis zero t hypothesis confidence cited status w = (err runtime_error, w)
persist_diagnosis (suc left) t hypothesis confidence cited status w =
    let (out, db) = save_root_cause t hypothesis confidence cited status w.db in
    let written = record w { db = db } in
    let again = persist_diagnosis left t hypothesis confidence cited status written in
    elim out [ ok true ↦ (ok tt, written) | ok false ↦ again | err e ↦ again ]

abbrev pub withheld : Text
withheld =
    codes
      "Automatic diagnosis withheld: model output failed the evidence-citation check. Requires human review."

module _ (attempts : ℕ) (dumps : List CitedPoint → Text) (answers : ℕ → Result Reading)
    (cost : ℕ → ℕ) where
  -- An accepted answer: the write, then the event for the orchestrator.
  unfoldable pub accept_answer :
      ℕ → IdText → Text → ℕ → List CitedPoint → World → Result (Option Parsed) × World
  unfolding persist_diagnosis
  accept_answer attempt t h c cited w =
      let (out, w2) = persist_diagnosis attempts t h c (dumps cited) investigating w in
      elim out [
        | err e ↦ (err e, w2)
        | ok u ↦
            let (told, w3) =
              publish (stage_completed root_cause_stage t) (spend t (cost attempt) w2) in
            elim told [ err e ↦ (err e, w3) | ok v ↦ (ok (some (valid_answer h c cited)), w3) ]
      ]

  -- `for attempt in (1, 2)`, with the fallback behind it.
  unfoldable pub diagnose_from : ℕ → ℕ → IdText → Evidence → World → Result (Option Parsed) × World
  unfolding accept_answer parse_and_validate
  diagnose_from zero attempt t e w =
      let (out, w2) = persist_diagnosis attempts t withheld 0 (dumps []) needs_human_review w in
      elim out [ err x ↦ (err x, w2) | ok u ↦ (ok none, w2) ]
  diagnose_from (suc left) attempt t e w =
      let again = diagnose_from left (suc attempt) t e w in
      elim (answers attempt) [
        | err x ↦ (err x, w)
        | ok r ↦ elim (parse_and_validate r e) [
          | invalid_answer ↦ again
          | valid_answer h c cited ↦ accept_answer attempt t h c cited w
        ]
      ]

  unfoldable pub diagnose : IdText → Evidence → World → Result (Option Parsed) × World
  unfolding diagnose_from
  diagnose t e w = diagnose_from 2 1 t e w
