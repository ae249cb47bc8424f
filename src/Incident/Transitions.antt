-- ===== src/Incident/Transitions.antt =====
-- The legal moves of the incident state machine: VALID_TRANSITIONS and is_valid_transition in
-- agent-service/app/agents/orchestrator/agent.py.
use processguard_ai.Base.{Bool, any, List, [], ◌∷◌}
use processguard_ai.Incident.Words.{
  Status, opened, investigating, risk_assessed, recommended, awaiting_approval, auto_informed,
  approved, action_taken, action_failed, rejected, needs_human_review, resolved, status_eq,
}

unfoldable pub valid_transitions : Status → List Status
valid_transitions opened = investigating ∷ needs_human_review ∷ resolved ∷ []
valid_transitions investigating = risk_assessed ∷ needs_human_review ∷ resolved ∷ []
valid_transitions risk_assessed = recommended ∷ needs_human_review ∷ resolved ∷ []
valid_transitions recommended =
    awaiting_approval ∷ auto_informed ∷ needs_human_review ∷ resolved ∷ []
valid_transitions awaiting_approval = approved ∷ rejected ∷ resolved ∷ []
valid_transitions auto_informed = resolved ∷ []
valid_transitions approved = action_taken ∷ action_failed ∷ resolved ∷ []
valid_transitions action_taken = resolved ∷ []
valid_transitions action_failed = action_taken ∷ resolved ∷ []
valid_transitions rejected = resolved ∷ investigating ∷ []
valid_transitions needs_human_review = investigating ∷ resolved ∷ []
valid_transitions resolved = []

unfoldable pub is_valid_transition : Status → Status → Bool
unfolding valid_transitions
is_valid_transition current nxt = any (status_eq nxt) (valid_transitions current)
