-- ===== src/Agents/Rounds.antt =====
-- The bound of the planner's loop, and the guard of the orchestrator.
use processguard_ai.Db.Ids.{keep_absent, id_eq_refl}
use processguard_ai.World.{World, Stage}
use processguard_ai.Agents.Orchestrate.{
  Orchestrator, Workers, discard_in_flight, is_in_flight, add_in_flight, on_stage_completed,
}
use processguard_ai.Agents.Planner.{
  assistant, ToolCall, Conversation, max_tool_rounds, Model, Tools, planner_rounds, planner_loop,
  ToolEntry, run_tools,
}
use processguard_ai.Db.{IdText}
use processguard_ai.Base.{
  if_ind, All-append, ℕ, zero, suc, ◌+◌, ◌≤◌, ◌≡◌, refl, ap, inl, inr, true, some, List, [], ◌∷◌,
  ◌++◌, arith, Bool-cases, is_empty, All, Text,
}

-- Each entry of the log is of a round between the two.
abbrev pub IsLogged : ℕ → ℕ → ToolEntry → Type 0
IsLogged low high e = (low ≤ e.round) × (e.round ≤ high)

run_tools-IsLogged :
    (tools : Tools) (low high round : ℕ) (calls : List ToolCall) (c : Conversation)
    → low ≤ round
    → round ≤ high
    → All (IsLogged low high) c.tool_log
    → All (IsLogged low high) (run_tools tools round calls c).tool_log
unfolding run_tools
run_tools-IsLogged tools low high round [] c l h logged = logged
run_tools-IsLogged tools low high round (tc ∷ calls) c l h logged =
    run_tools-IsLogged tools low high round calls _ l h
      (All-append (IsLogged low high) c.tool_log _ logged ((l, h), tt))

planner_rounds-IsLogged :
    (model : Model) (tools : Tools) (high round left : ℕ) (c : Conversation)
    → 1 ≤ round
    → round + left ≤ suc high
    → All (IsLogged 1 high) c.tool_log
    → All (IsLogged 1 high) (planner_rounds model tools round left c).1
unfolding planner_rounds
planner_rounds-IsLogged model tools high round zero c l h logged = logged
planner_rounds-IsLogged model tools high round (suc left) c l h logged =
    let response = model true c.messages in
    if_ind (λ (p : Text × List ToolEntry). All (IsLogged 1 high) p.1) (is_empty response.tool_calls)
      _ _ logged
      (planner_rounds-IsLogged model tools high (suc round) left
        (run_tools tools round response.tool_calls (record c {
          messages = c.messages ++ assistant response.content response.tool_calls ∷ [];
        }))
        (omega arith) (omega (arith, h))
        (run_tools-IsLogged tools 1 high round response.tool_calls _ l (omega (arith, h)) logged))

-- Whatever the model asks for, every tool call of a plan belongs to one of the rounds 1 to
-- MAX_TOOL_ROUNDS.
pub planner_loop-IsLogged :
    (model : Model) (tools : Tools) → All (IsLogged 1 max_tool_rounds) (planner_loop model tools).1
unfolding planner_loop
planner_loop-IsLogged model tools =
    planner_rounds-IsLogged model tools max_tool_rounds 1 max_tool_rounds _ (omega arith)
      (omega arith) tt

-- Handling a completed stage, whatever it does or raises, leaves the set of passes in flight as it was,
-- and while a pass for the incident is in flight, a second event does nothing at all.
pub on_stage_completed-in_flight :
    (workers : Workers) (stage : Stage) (t : IdText) (o : Orchestrator) (w : World)
    → let (after, w2) = on_stage_completed workers stage (some t) o w in
      (after ≡ o) × (is_in_flight t o.in_flight ≡ true → w2 ≡ w)
unfolding on_stage_completed add_in_flight discard_in_flight
on_stage_completed-in_flight workers stage t o w = elim (Bool-cases (is_in_flight t o.in_flight)) [
  | inl running ↦ rw (running, on_stage_completed) (refl, λ e. refl)
  | inr idle ↦
      rw (idle, on_stage_completed)
        (
          ap (λ (ts : List IdText). record o { in_flight = ts })
              (rw (id_eq_refl t) (keep_absent t o.in_flight idle)),
          λ e. absurd (ground (arith, e)),
        )
]
