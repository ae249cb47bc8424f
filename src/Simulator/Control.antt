-- ===== src/Simulator/Control.antt =====
-- The simulator's mode and its clock, and the command that counts.
use processguard_ai.Simulator.{
  expired, reset_requested, triggered, checked, reset_command, SimulatorEvent, trigger_command,
  reset, trigger_cooling_tower_incident, cooling_tower_incident, step, Command, normal,
  check_control, Simulator, steps, state_dict, Mode,
}
use processguard_ai.Base.{ℕ, ◌≡◌, refl, Option, none, some, List, [], ◌∷◌}

-- The scenario has a start exactly when it runs.
pub data IsCoherent : Mode → Option ℕ → Type 0 where
  quiet : IsCoherent normal none
  running : (at : ℕ) → IsCoherent cooling_tower_incident (some at)

by_command-IsCoherent :
    (c : Option Command) (now : ℕ) (s : Simulator)
    → IsCoherent s.mode s.scenario_started_at
    → let after = check_control now (record s { control = c }) in
      IsCoherent after.mode after.scenario_started_at
unfolding check_control
by_command-IsCoherent none now s h = h
by_command-IsCoherent (some trigger_command) now s h = running now
by_command-IsCoherent (some reset_command) now s h = quiet

check_control-IsCoherent :
    (now : ℕ) (s : Simulator)
    → IsCoherent s.mode s.scenario_started_at
    → IsCoherent (check_control now s).mode (check_control now s).scenario_started_at
check_control-IsCoherent now s h = by_command-IsCoherent s.control now s h

reported :
    (m : Mode) (at : Option ℕ) (s : Simulator)
    → IsCoherent m at
    → let d = state_dict (record s { mode = m; scenario_started_at = at }) in
      d.scenario ≡ d.scenario_started
unfolding state_dict
reported m at s quiet = refl
reported m at s (running n) = refl

-- After any sequence of requests, expiries and rounds, the scenario has a start time exactly when the
-- mode is not normal, provided this held before, and the status that is reported agrees.
pub steps-IsCoherent :
    (es : List SimulatorEvent) (s : Simulator)
    → IsCoherent s.mode s.scenario_started_at
    → let after = steps es s in
      IsCoherent after.mode after.scenario_started_at
      × ((state_dict after).scenario ≡ (state_dict after).scenario_started)
unfolding steps step trigger_cooling_tower_incident reset
steps-IsCoherent [] s h = (h, reported s.mode s.scenario_started_at s h)
steps-IsCoherent (triggered ∷ es) s h = steps-IsCoherent es _ h
steps-IsCoherent (reset_requested ∷ es) s h = steps-IsCoherent es _ h
steps-IsCoherent (expired ∷ es) s h = steps-IsCoherent es _ h
steps-IsCoherent (checked now ∷ es) s h =
    steps-IsCoherent es (check_control now s) (check_control-IsCoherent now s h)
