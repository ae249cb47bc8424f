-- ===== src/Llm/Client.antt =====
-- agent-service/app/core/llm_client.py: `FakeScriptedLLMClient`, the model client of offline runs.
-- `_safe_json` of a text is a parameter, and so is the equipment id that the regular expression finds in
-- the prompt of the planner.
use processguard_ai.Agents.{tool_result, Answer, Message, ToolCall}
use processguard_ai.Retrieval.Corpus.{join_lines, partition_colon}
use processguard_ai.Base.{
  contains_text, lower, starts_with, drop_text, value_error, ℕ, suc, Bool, ◌&&◌, ◌||◌, none, some,
  List, [], ◌∷◌, ◌++◌, if◌then◌else◌, is_empty, Text, codes, Result, ok, err,
}
use processguard_ai.Llm.Analysis.{when_true, derive_fake_analysis}

-- `_script` and `_calls`.
pub record FakeClient : Type 0 where
  pub script : List Text
  pub calls : ℕ

abbrev worked_rationale : Text
worked_rationale =
    codes
      "The same combined flow/vibration signature was resolved before by clearing the suction strainer and servicing the pump, so start there; monitor temperature while the pump is inspected."

abbrev usual_rationale : Text
usual_rationale =
    codes
      "Historical outcomes for this equipment support inspecting the suction path and pump condition first; protect the heat exchangers by reducing load if temperature keeps rising."

abbrev has_worked : Text → Bool
has_worked t =
    contains_text (codes "actionWorked") t && contains_text (codes "true") (lower t)
    || contains_text (codes "actionWorked: True") t

abbrev pub mentions_strainer : Text → Bool
mentions_strainer t =
    contains_text (codes "strainer") (lower t) || contains_text (codes "filter") (lower t)

-- `_derive_fake_recommendation`
unfoldable pub recommendation_lines : Bool → Bool → Bool → List Text
recommendation_lines strainer worked maintenance =
    codes "RECOMMENDED ACTIONS:"
    ∷ (when_true strainer
          (codes "1. Inspect the pump suction strainer and backwash or replace the filter.")
        ++ (codes
              "2. Verify pump bearing condition and schedule maintenance if vibration stays above 2.5 mm/s."
            ∷ codes "3. Reduce process load by 10% if supply temperature exceeds 40 degC."
            ∷ []
            ∷ (codes "RATIONALE: " ++ (if worked then worked_rationale else usual_rationale))
            ∷ when_true maintenance
                (codes "Maintenance status was checked before finalizing this plan.")))

unfoldable pub derive_fake_recommendation : Text → Text
unfolding join_lines recommendation_lines contains_text lower
derive_fake_recommendation t = join_lines (
    recommendation_lines (mentions_strainer t) (has_worked t)
      (contains_text (codes "lastServicedAt") t))

abbrev pub tool_texts : List Message → List Text
tool_texts [] = []
tool_texts (tool_result t ∷ ms) = t ∷ tool_texts ms
tool_texts (_ ∷ ms) = tool_texts ms

-- The arguments are JSON texts; the id that goes in is of hexadecimal digits and dashes, or empty.
abbrev pub maintenance_call : Text → ToolCall
maintenance_call equipment = record {
  tool = codes "get_equipment_maintenance_status";
  arguments = codes "{\"equipment_id\": \"" ++ equipment ++ codes "\"}";
}

abbrev pub similar_call : Text → ToolCall
similar_call equipment = record {
  tool = codes "get_similar_incident_outcomes";
  arguments =
      codes "{\"equipment_id\": \"" ++ equipment ++ codes "\", \"symptom_pattern\": \"flow\"}";
}

-- `chat` where nothing is scripted: both tools are asked first, and their results are answered.
unfoldable pub unscripted_chat : Text → List Message → Answer
unfolding derive_fake_recommendation
unscripted_chat equipment messages =
    if is_empty (tool_texts messages)
    then record {
      content = [];
      tool_calls = maintenance_call equipment ∷ similar_call equipment ∷ [];
    }
    else record {
      content = derive_fake_recommendation (join_lines (tool_texts messages));
      tool_calls = [];
    }

-- A scripted entry: `TOOL_CALL:name:arguments` asks for a tool, with a ValueError where the second colon
-- is missing, and any other text is the answer.
unfoldable pub scripted_answer : (Text → Text) → Text → Result Answer
unfolding partition_colon
scripted_answer safe_json entry =
    if starts_with (codes "TOOL_CALL:") entry
    then elim (partition_colon (drop_text 10 entry)) [
      | none ↦ err value_error
      | some (name, arguments) ↦ ok (record {
        content = [];
        tool_calls = record { tool = name; arguments = safe_json arguments } ∷ [];
      })
    ]
    else ok (record { content = entry; tool_calls = [] })

-- `chat`
unfoldable pub chat : (Text → Text) → Text → List Message → FakeClient → Result Answer × FakeClient
unfolding scripted_answer unscripted_chat
chat safe_json equipment messages client = elim client.script [
  | [] ↦ (ok (unscripted_chat equipment messages), record { script = []; calls = suc client.calls })
  | entry ∷ rest ↦
      (scripted_answer safe_json entry, record { script = rest; calls = suc client.calls })
]

-- `generate`
unfoldable pub generate : Text → FakeClient → Text × FakeClient
unfolding derive_fake_analysis
generate prompt client = elim client.script [
  | [] ↦ (derive_fake_analysis prompt, record { script = []; calls = suc client.calls })
  | entry ∷ rest ↦ (entry, record { script = rest; calls = suc client.calls })
]
