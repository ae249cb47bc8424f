-- ===== src/Agents/Planner.antt =====
-- `RecommendationAgent._planner_loop`: the tool-calling loop. The model is a function of the
-- conversation so far, and a tool of its name and arguments.
use processguard_ai.Base.{
  ℕ, zero, suc, Bool, true, false, List, [], ◌∷◌, ◌++◌, if◌then◌else◌, is_empty, Text,
}

pub record ToolCall : Type 0 where
  pub tool : Text
  pub arguments : Text

pub data Message : Type 0 where
  system_prompt user_prompt stop_calling : Message
  assistant : Text → List ToolCall → Message
  tool_result : Text → Message

pub record ToolEntry : Type 0 where
  pub round : ℕ
  pub entry_tool : Text
  pub entry_arguments : Text
  pub entry_result : Text

pub record Answer : Type 0 where
  pub content : Text
  pub tool_calls : List ToolCall

-- MAX_TOOL_ROUNDS
abbrev pub max_tool_rounds : ℕ
max_tool_rounds = 4

-- `bool` says whether the tools were offered.
abbrev pub Model : Type 0
Model = Bool → List Message → Answer

abbrev pub Tools : Type 0
Tools = Text → Text → Text

pub record Conversation : Type 0 where
  pub messages : List Message
  pub tool_log : List ToolEntry

-- `for tc in response.tool_calls`
unfoldable pub run_tools : Tools → ℕ → List ToolCall → Conversation → Conversation
run_tools tools round [] c = c
run_tools tools round (tc ∷ calls) c =
    let result = tools tc.tool tc.arguments in
    run_tools tools round calls (record {
      messages = c.messages ++ tool_result result ∷ [];
      tool_log =
          c.tool_log
          ++ record {
            round = round;
            entry_tool = tc.tool;
            entry_arguments = tc.arguments;
            entry_result = result;
          }
            ∷ [];
    })

-- The rounds, and behind them the forced final answer.
unfoldable pub planner_rounds : Model → Tools → ℕ → ℕ → Conversation → Text × List ToolEntry
unfolding run_tools
planner_rounds model tools round zero c =
    ((model false (c.messages ++ stop_calling ∷ [])).content, c.tool_log)
planner_rounds model tools round (suc left) c =
    let response = model true c.messages in
    let next = planner_rounds model tools (suc round) left (
      run_tools tools round response.tool_calls (record c {
        messages = c.messages ++ assistant response.content response.tool_calls ∷ [];
      })) in
    if is_empty response.tool_calls then (response.content, c.tool_log) else next

unfoldable pub planner_loop : Model → Tools → Text × List ToolEntry
unfolding planner_rounds
planner_loop model tools =
    planner_rounds model tools 1 max_tool_rounds
      (record { messages = system_prompt ∷ user_prompt ∷ []; tool_log = [] })
