-- ===== src/Inventory/Consumers/Follows.antt =====
-- The stock of a shipment that is dispatched or cancelled, through the consumer.
use smart_logistics.Base.{
  contains-last, ℕ, ◌≡◌, ◌≢◌, refl, String, true, false, Option, none, List, [], ◌∷◌, ◌++◌,
  contains,
}
use smart_logistics.Platform.Errors.{ok}
use smart_logistics.Platform.Session.{>>-ok, pure}
use smart_logistics.Platform.Events.{EventEnvelope}
use smart_logistics.Platform.Consumer.{Consumer, process, run_handler}
use smart_logistics.Inventory.Models.{Db, InventoryReservation}
use smart_logistics.Inventory.Reservations.{commit, release}
use smart_logistics.Inventory.Reservations.Lifecycle.{
  open_holds, release-total, commit-total, Releases, Commits, CommitOutcome,
}
use smart_logistics.Inventory.Accounts.Valid.{IsValid}
use smart_logistics.Inventory.Consumers.{
  ConsumedPayload, shipment_event, on_shipment_status_changed, follow_status, reason_or_default,
  processor_handlers,
}

-- A change of status as Shipment publishes it.
abbrev pub status_event : ℕ → ℕ → String → Option String → EventEnvelope ConsumedPayload
status_event event_id shipment_id status reason = record {
  event_id = event_id;
  event_type = "shipment.status_changed";
  key = shipment_id;
  payload = shipment_event shipment_id status reason;
}

-- The consumer after an event was handled.
abbrev pub after_event : ℕ → Db → Consumer Db → Consumer Db
after_event event_id db' c = record { db = db'; processed = c.processed ++ event_id ∷ [] }

handled_event :
    (now event_id shipment_id : ℕ) (status : String) (reason : Option String) (c : Consumer Db)
    (db' : Db)
    → contains c.processed event_id ≡ false
    → follow_status now shipment_id status reason c.db ≡ ok (tt, db')
    → process (processor_handlers now) (status_event event_id shipment_id status reason) c
      ≡ (ok true, after_event event_id db' c)
unfolding process run_handler processor_handlers on_shipment_status_changed
handled_event now event_id shipment_id status reason c db' new run =
    rw (new, run_handler, on_shipment_status_changed, run) refl

-- A redelivery of an event that was handled.
again :
    (later event_id shipment_id : ℕ) (status : String) (reason : Option String) (c : Consumer Db)
    (db' : Db)
    → process
        (processor_handlers later)
        (status_event event_id shipment_id status reason)
        (after_event event_id db' c)
      ≡ (ok false, after_event event_id db' c)
unfolding process processor_handlers
again later event_id shipment_id status reason c db' = rw (contains-last c.processed event_id) refl

-- On a valid database where the shipment has open holds, the event that it was dispatched, when it
-- is new to the consumer, is handled: it commits exactly those holds; delivered once more, at any
-- time, it changes nothing.
pub dispatched-Commits :
    (now later event_id shipment_id : ℕ) (reason : Option String) (c : Consumer Db)
    → IsValid c.db
    → contains c.processed event_id ≡ false
    → open_holds shipment_id c.db ≢ []
    → (db' : Db) × (process
          (processor_handlers now)
          (status_event event_id shipment_id "dispatched" reason)
          c
        ≡ (ok true, after_event event_id db' c))
      × Commits now shipment_id c.db db'
      × (process
            (processor_handlers later)
            (status_event event_id shipment_id "dispatched" reason)
            (after_event event_id db' c)
          ≡ (ok false, after_event event_id db' c))
unfolding follow_status
dispatched-Commits now later event_id shipment_id reason c v new some_open =
    go (open_holds shipment_id c.db) refl (commit-total now shipment_id none c.db v)
  where
    go :
        (hs : List InventoryReservation)
        → open_holds shipment_id c.db ≡ hs
        → CommitOutcome now none shipment_id c.db hs
        → (db' : Db) × (process
              (processor_handlers now)
              (status_event event_id shipment_id "dispatched" reason)
              c
            ≡ (ok true, after_event event_id db' c))
          × Commits now shipment_id c.db db'
          × (process
                (processor_handlers later)
                (status_event event_id shipment_id "dispatched" reason)
                (after_event event_id db' c)
              ≡ (ok false, after_event event_id db' c))
    go [] e out = absurd (some_open e)
    go (h ∷ hs) e (db', run, left) = (
      db',
      handled_event now event_id shipment_id "dispatched" reason c db' new
          (>>-ok (commit now none shipment_id) (pure tt) run),
      left,
      again later event_id shipment_id "dispatched" reason c db',
    )

-- On a valid database, the event that a shipment was cancelled, when it is new to the consumer, is
-- handled: it releases exactly the shipment's open holds, if any; delivered once more, at any time,
-- it changes nothing.
pub cancelled-Releases :
    (now later event_id shipment_id : ℕ) (reason : Option String) (c : Consumer Db)
    → IsValid c.db
    → contains c.processed event_id ≡ false
    → (db' : Db) × (process
          (processor_handlers now)
          (status_event event_id shipment_id "cancelled" reason)
          c
        ≡ (ok true, after_event event_id db' c))
      × Releases now shipment_id (reason_or_default reason) c.db db'
      × (process
            (processor_handlers later)
            (status_event event_id shipment_id "cancelled" reason)
            (after_event event_id db' c)
          ≡ (ok false, after_event event_id db' c))
unfolding follow_status
cancelled-Releases now later event_id shipment_id reason c v new =
    let (db', run, left) = release-total now shipment_id (reason_or_default reason) c.db v in
    (
      db',
      handled_event now event_id shipment_id "cancelled" reason c db' new
          (>>-ok (release now shipment_id (reason_or_default reason)) (pure tt) run),
      left,
      again later event_id shipment_id "cancelled" reason c db',
    )
