-- ===== src/Inventory/Tests/Events.antt =====
-- Events at work on the sample database: the shipment 7 is dispatched, or cancelled.
use smart_logistics.Base.{
  ℕ, ◌+◌, ◌-◌, ◌*◌, ◌≡◌, ◌≢◌, refl, Option, none, some, List, [], ◌∷◌, true, false,
}
use smart_logistics.Platform.Errors.{ok}
use smart_logistics.Platform.Events.{EventEnvelope}
use smart_logistics.Platform.Consumer.{Consumer, process, handle_all}
use smart_logistics.Platform.Consumer.Keeps.{timed}
use smart_logistics.Inventory.Models.{Db}
use smart_logistics.Inventory.Reservations.Lifecycle.{open_holds, Releases, Commits}
use smart_logistics.Inventory.Accounts.Valid.{IsValid}
use smart_logistics.Inventory.Consumers.{
  ConsumedPayload, warehouse_snapshot, processor_handlers, reason_or_default,
}
use smart_logistics.Inventory.Consumers.Delivered.{handle_all-IsValid}
use smart_logistics.Inventory.Consumers.Follows.{
  status_event, after_event, dispatched-Commits, cancelled-Releases,
}
use smart_logistics.Inventory.Tests.Samples.{holding, holding-IsValid, warehouse}

abbrev consumer : Consumer Db
consumer = record { db = holding (some 300); processed = 41 ∷ [] }

one_open : open_holds 7 consumer.db ≢ []
one_open e = cc

dispatched-Commits_example :
    (db' : Db) × (process (processor_handlers 350) (status_event 42 7 "dispatched" none) consumer
      ≡ (ok true, after_event 42 db' consumer))
    × Commits 350 7 consumer.db db'
    × (process
          (processor_handlers 360)
          (status_event 42 7 "dispatched" none)
          (after_event 42 db' consumer)
        ≡ (ok false, after_event 42 db' consumer))
dispatched-Commits_example =
    dispatched-Commits 350 360 42 7 none consumer (holding-IsValid (some 300)) refl one_open

cancelled-Releases_example :
    (db' : Db) × (process
        (processor_handlers 350)
        (status_event 42 7 "cancelled" (some "Lost"))
        consumer
      ≡ (ok true, after_event 42 db' consumer))
    × Releases 350 7 (reason_or_default (some "Lost")) consumer.db db'
    × (process
          (processor_handlers 360)
          (status_event 42 7 "cancelled" (some "Lost"))
          (after_event 42 db' consumer)
        ≡ (ok false, after_event 42 db' consumer))
cancelled-Releases_example =
    cancelled-Releases 350 360 42 7 (some "Lost") consumer (holding-IsValid (some 300)) refl

abbrev closed : EventEnvelope ConsumedPayload
closed = record {
  event_id = 43;
  event_type = "warehouse.status_changed";
  key = 10;
  payload = warehouse_snapshot (record warehouse { status = "closed"; source_updated_at = 200 });
}

-- The second attempts come ten seconds later.
abbrev clock : ℕ → ℕ
clock n = 400 + (5 - n) * 10

abbrev deliveries : List ((ℕ → ℕ) × Option (EventEnvelope ConsumedPayload))
deliveries =
    (clock, some closed)
    ∷ (clock, some (status_event 42 7 "dispatched" none))
    ∷ (clock, some (status_event 42 7 "dispatched" none))
    ∷ []

handle_all-IsValid_example :
    IsValid (handle_all 5 (timed processor_handlers deliveries) consumer).db
handle_all-IsValid_example = handle_all-IsValid 5 deliveries consumer (holding-IsValid (some 300))
