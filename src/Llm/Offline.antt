-- ===== src/Llm/Offline.antt =====
-- The planner and the parser of its text, on the offline client.
use processguard_ai.Agents.{
  Recommendation, planner_loop, planner_rounds, run_tools, Tools, ToolEntry, ToolCall,
  parse_recommendation, parse_lines, parse_line, item_of, splitlines, upper, Reorder,
}
use processguard_ai.Incident.{Float, ActionItem, action_dict}
use processguard_ai.Llm.Client.{
  mentions_strainer, maintenance_call, similar_call, unscripted_chat, derive_fake_recommendation,
  recommendation_lines,
}
use processguard_ai.Retrieval.Corpus.{join_lines}
use processguard_ai.Base.{
  ok, err, Result, strip, ℕ, ◌≡◌, refl, Bool, true, false, Option, none, some, List, [], ◌∷◌, Text,
  codes,
}

abbrev pub work_order_item : Text → ℕ → ActionItem
work_order_item text priority =
    action_dict (some text) (some priority) (some (codes "work_order")) none none

abbrev offline_actions : Bool → List ActionItem
offline_actions true =
    work_order_item (codes "Inspect the pump suction strainer and backwash or replace the filter.")
      1
    ∷ work_order_item
        (codes
          "Verify pump bearing condition and schedule maintenance if vibration stays above 2.5 mm/s.")
        2
    ∷ work_order_item (codes "Reduce process load by 10% if supply temperature exceeds 40 degC.") 3
    ∷ []
offline_actions false =
    work_order_item
      (codes
        "Verify pump bearing condition and schedule maintenance if vibration stays above 2.5 mm/s.")
      1
    ∷ work_order_item (codes "Reduce process load by 10% if supply temperature exceeds 40 degC.") 2
    ∷ []

-- The actions of a text that is read.
abbrev pub actions_of : Result Recommendation → Option (List ActionItem)
actions_of (err e) = none
actions_of (ok r) = some r.actions

module _ (reorder_of : Text → Result (Option Reorder)) (format_g : Float → Text) where
  parse-recommendation_lines :
      (strainer worked maintenance : Bool)
      → actions_of (
          parse_recommendation reorder_of format_g
            (join_lines (recommendation_lines strainer worked maintenance)))
        ≡ some (offline_actions strainer)
  unfolding parse_recommendation parse_lines parse_line item_of splitlines upper join_lines
      recommendation_lines strip
  parse-recommendation_lines false false false = refl
  parse-recommendation_lines false false true = refl
  parse-recommendation_lines false true false = refl
  parse-recommendation_lines false true true = refl
  parse-recommendation_lines true false false = refl
  parse-recommendation_lines true false true = refl
  parse-recommendation_lines true true false = refl
  parse-recommendation_lines true true true = refl

  abbrev asked : Tools → ToolCall → ToolEntry
  asked tools c = record {
    round = 1;
    entry_tool = c.tool;
    entry_arguments = c.arguments;
    entry_result = tools c.tool c.arguments;
  }

  -- The plan of an offline run, whatever the tools return: it asks for the maintenance status and for
  -- the outcomes of similar incidents, once each in the first round, and its text is read as work orders
  -- for the bearing and for the load, behind one for the strainer exactly where a result of the tools
  -- mentions a strainer or a filter.
  pub planner_loop-unscripted_chat :
      (tools : Tools) (equipment : Text)
      → let (text, log) = planner_loop (λ offered ms. unscripted_chat equipment ms) tools in
        let maintenance = asked tools (maintenance_call equipment) in
        let similar = asked tools (similar_call equipment) in
        (log ≡ maintenance ∷ similar ∷ [])
        × (actions_of (parse_recommendation reorder_of format_g text)
            ≡ some (
                offline_actions (
                  mentions_strainer
                    (join_lines (maintenance.entry_result ∷ similar.entry_result ∷ [])))))
  unfolding planner_loop planner_rounds run_tools unscripted_chat derive_fake_recommendation
  planner_loop-unscripted_chat tools equipment = (refl, parse-recommendation_lines _ _ _)
