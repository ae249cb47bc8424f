-- ===== src/Bus.antt =====
-- agent-service/app/eventbus/base.py: `RedisEventBus`. Redis is what delivers a message; a handler is a
-- function of the payload and of the state that all handlers share.
pub mod Delivery
use processguard_ai.Base.{
  text_eq, Bool, true, false, List, [], ◌∷◌, ◌++◌, map, if◌then◌else◌, Text, Result,
}

-- What `json.loads` and `envelope["payload"]` make of the data of a message.
pub data Envelope (P : Type 0) : Type 0 where
  malformed_json no_payload : Envelope P
  with_payload : P → Envelope P

abbrev pub Handler : Type 0 → Type 0 → Type 0
Handler S P = P → S → Result (Unit {0}) × S

pub record Topic (S P : Type 0) : Type 0 where
  pub topic : Text
  pub subscribers : List (Handler S P)

-- `pubsub` holds the topics that Redis delivers.
pub record EventBus (S P : Type 0) : Type 0 where
  pub handlers : List (Topic S P)
  pub pubsub : List Text
  pub running : Bool

module _ {S P : Type 0} where
  -- `self._handlers.setdefault(topic, []).append(handler)`
  unfoldable pub add_handler : Text → Handler S P → List (Topic S P) → List (Topic S P)
  add_handler t h [] = record { topic = t; subscribers = h ∷ [] } ∷ []
  add_handler t h (x ∷ xs) =
      let rest = add_handler t h xs in
      if text_eq x.topic t
      then record x { subscribers = x.subscribers ++ h ∷ [] } ∷ xs
      else x ∷ rest

  unfoldable pub subscribe : Text → Handler S P → EventBus S P → EventBus S P
  unfolding add_handler
  subscribe t h bus = record bus { handlers = add_handler t h bus.handlers }

  unfoldable pub start : EventBus S P → EventBus S P
  start bus =
      if bus.running
      then bus
      else record bus { pubsub = map (λ x. x.topic) bus.handlers; running = true }

  unfoldable pub stop : EventBus S P → EventBus S P
  stop bus = record bus { pubsub = []; running = false }

  -- `self._handlers.get(topic, [])`
  unfoldable pub handlers_of : Text → List (Topic S P) → List (Handler S P)
  handlers_of t [] = []
  handlers_of t (x ∷ xs) =
      let rest = handlers_of t xs in if text_eq x.topic t then x.subscribers else rest

  -- A handler that raises is logged, and the next one is called.
  unfoldable pub run_handlers : List (Handler S P) → Envelope P → S → S
  run_handlers [] e s = s
  run_handlers (h ∷ hs) (with_payload p) s = run_handlers hs (with_payload p) (h p s).1
  run_handlers (h ∷ hs) e s = run_handlers hs e s

  unfoldable pub dispatch : EventBus S P → Text → Envelope P → S → S
  unfolding run_handlers handlers_of
  dispatch bus t malformed_json s = s
  dispatch bus t e s = run_handlers (handlers_of t bus.handlers) e s
