-- ===== src/Platform/Consumer.antt =====
-- libs/sl-platform/src/sl_platform/consumer.py: events are delivered at least once, and the ids of
-- those that were handled are kept. `S` is the service's database, whose table processed_events is kept apart here, with the
-- rows of the one consumer; `P` is the type of the payloads.
pub mod Once
pub mod Keeps
use smart_logistics.Base.{
  ℕ, zero, suc, String, Bool, true, false, Option, none, some, List, [], ◌∷◌, ◌++◌, contains,
  if◌then◌else◌,
}
use smart_logistics.Platform.Errors.{Error, Result, ok, err}
use smart_logistics.Platform.Session.{Tx}
use smart_logistics.Platform.Events.{EventEnvelope}

pub record Consumer (S : Type 0) : Type 0 where
  pub db : S
  pub processed : List ℕ

-- The handlers of a processor, by event type.
abbrev pub Handlers : Type 0 → Type 0 → Type 0
Handlers S P = String → Option (EventEnvelope P → Tx S Unit)

module _ {S P : Type 0} where
  -- The transaction of an event that was claimed: commit, or roll back and raise.
  unfoldable pub run_handler :
      (EventEnvelope P → Tx S Unit) → EventEnvelope P → Consumer S → Result Bool × Consumer S
  run_handler handler envelope c = elim (handler envelope c.db) [
    | ok (_, db') ↦
        (ok true, record { db = db'; processed = c.processed ++ envelope.event_id ∷ [] })
    | err e ↦ (err e, c)
  ]

  -- `EventProcessor.process`: whether the event was handled
  unfoldable pub process : Handlers S P → EventEnvelope P → Consumer S → Result Bool × Consumer S
  unfolding run_handler
  process handlers envelope c = elim (handlers envelope.event_type) [
    | none ↦ (ok false, c)
    | some handler ↦
        (if contains c.processed envelope.event_id
          then (ok false, c)
          else run_handler handler envelope c)
  ]

  -- The loop of `_handle`: the attempts that are left. What a handler meets may differ from one
  -- attempt to the next. The last failure is logged.
  unfoldable pub attempt : (ℕ → Handlers S P) → EventEnvelope P → ℕ → Consumer S → Consumer S
  unfolding process
  attempt handlers envelope zero c = c
  attempt handlers envelope (suc n) c =
      let (answer, c') = process (handlers n) envelope c in
      elim answer [ ok _ ↦ c' | err _ ↦ attempt handlers envelope n c' ]

  -- `KafkaConsumerRunner._handle`, on what `EventEnvelope.from_bytes` makes of the message
  unfoldable pub handle :
      (ℕ → Handlers S P) → ℕ → Option (EventEnvelope P) → Consumer S → Consumer S
  unfolding attempt
  handle handlers max_attempts none c = c
  handle handlers max_attempts (some envelope) c = attempt handlers envelope max_attempts c

  -- The messages of a topic, one after the other. Each delivery meets its own handlers.
  unfoldable pub handle_all :
      ℕ → List ((ℕ → Handlers S P) × Option (EventEnvelope P)) → Consumer S → Consumer S
  unfolding handle
  handle_all max_attempts [] c = c
  handle_all max_attempts ((handlers, message) ∷ messages) c =
      handle_all max_attempts messages (handle handlers max_attempts message c)
