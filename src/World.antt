-- ===== src/World.antt =====
-- What the agents share: the database, the wire to the CMMS, and the event bus as its users see it.
-- The topics and payloads are those of agent-service/app/agents and agent-service/app/api.
use processguard_ai.Cmms.{NetEvent}
use processguard_ai.Db.{Db, IdText}
use processguard_ai.Base.{
  runtime_error, ℕ, ◌≡◌, refl, Bool, true, false, List, [], ◌∷◌, ◌++◌, Text, Result, ok, err,
}

pub data Stage : Type 0 where
  root_cause_stage risk_stage recommendation_stage unknown_stage : Stage

pub data Event : Type 0 where
  stage_completed : Stage → IdText → Event
  incident_approved : (incident : IdText) (decided_by : Text) (decided_at level : ℕ) → Event
  action_completed : IdText → Event
  action_failed_event : IdText → Event
  anomaly_detected : IdText → Event
  evidence_collected : IdText → Event

pub record World : Type 0 where
  pub db : Db
  pub net : List NetEvent
  pub bus : List Event
  -- For each coming publish, whether the bus fails; behind the end it works.
  pub bus_faults : List Bool

unfoldable pub publish_with : List Bool → Event → World → Result (Unit {0}) × World
publish_with [] e w = (ok tt, record w { bus = w.bus ++ e ∷ [] })
publish_with (true ∷ rest) e w = (err runtime_error, record w { bus_faults = rest })
publish_with (false ∷ rest) e w = (ok tt, record w { bus = w.bus ++ e ∷ []; bus_faults = rest })

-- `await bus.publish(topic, payload)`: raises when Redis does.
unfoldable pub publish : Event → World → Result (Unit {0}) × World
unfolding publish_with
publish e w = publish_with w.bus_faults e w

-- A publish whose failure is caught and logged.
unfoldable pub publish_safely : Event → World → World
unfolding publish
publish_safely e w = (publish e w).1

publish_with-keeps :
    (faults : List Bool) (e : Event) (w : World)
    → ((publish_with faults e w).1.db ≡ w.db) × ((publish_with faults e w).1.net ≡ w.net)
unfolding publish_with
publish_with-keeps [] e w = (refl, refl)
publish_with-keeps (true ∷ rest) e w = (refl, refl)
publish_with-keeps (false ∷ rest) e w = (refl, refl)

pub publish-keeps :
    (e : Event) (w : World) → ((publish e w).1.db ≡ w.db) × ((publish e w).1.net ≡ w.net)
unfolding publish
publish-keeps e w = publish_with-keeps w.bus_faults e w

pub publish_safely-keeps :
    (e : Event) (w : World) → ((publish_safely e w).db ≡ w.db) × ((publish_safely e w).net ≡ w.net)
unfolding publish_safely
publish_safely-keeps e w = publish_with-keeps w.bus_faults e w
