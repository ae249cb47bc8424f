-- ===== src/Simulator.antt =====
-- agent-service/app/simulator/service.py: the control of the sensor simulator through a key in Redis.
-- The readings, which are random, and the published state are left out.
pub mod Control
use processguard_ai.Base.{ℕ, Bool, true, false, not, Option, none, some, List, [], ◌∷◌, is_some}

-- What the API writes under the control key.
pub data Command : Type 0 where
  trigger_command reset_command : Command

pub data Mode : Type 0 where
  normal cooling_tower_incident : Mode

-- The control key, which Redis may expire, and the simulator's own state.
pub record Simulator : Type 0 where
  pub control : Option Command
  pub mode : Mode
  pub scenario_started_at : Option ℕ
  pub sensor_count : ℕ

pub record SimulatorState : Type 0 where
  pub state_mode : Mode
  pub scenario : Bool
  pub scenario_started : Bool
  pub sensors_emitted : ℕ

abbrev is_normal : Mode → Bool
is_normal normal = true
is_normal cooling_tower_incident = false

unfoldable pub state_dict : Simulator → SimulatorState
state_dict s = record {
  state_mode = s.mode;
  scenario = not (is_normal s.mode);
  scenario_started = is_some s.scenario_started_at;
  sensors_emitted = s.sensor_count;
}

unfoldable pub trigger_cooling_tower_incident : Simulator → SimulatorState × Simulator
unfolding state_dict
trigger_cooling_tower_incident s = (state_dict s, record s { control = some trigger_command })

unfoldable pub reset : Simulator → SimulatorState × Simulator
unfolding state_dict
reset s = (state_dict s, record s { control = some reset_command })

-- `_check_control` at a time of `time.monotonic()`.
unfoldable pub check_control : ℕ → Simulator → Simulator
check_control now s = elim s.control [
  | none ↦ s
  | some trigger_command ↦ record s {
    control = none;
    mode = cooling_tower_incident;
    scenario_started_at = some now;
  }
  | some reset_command ↦ record s { control = none; mode = normal; scenario_started_at = none }
]

-- What happens to the simulator: a request, a round of the loop, or the key's expiry.
pub data SimulatorEvent : Type 0 where
  triggered reset_requested expired : SimulatorEvent
  checked : ℕ → SimulatorEvent

unfoldable pub step : SimulatorEvent → Simulator → Simulator
unfolding trigger_cooling_tower_incident reset check_control
step triggered s = (trigger_cooling_tower_incident s).1
step reset_requested s = (reset s).1
step expired s = record s { control = none }
step (checked now) s = check_control now s

unfoldable pub steps : List SimulatorEvent → Simulator → Simulator
unfolding step
steps [] s = s
steps (e ∷ es) s = steps es (step e s)
