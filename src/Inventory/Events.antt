-- ===== src/Inventory/Events.antt =====
-- services/inventory/src/inventory/events.py: the events that the service publishes.
use smart_logistics.Base.{ℕ, String, Option, List, map}
use smart_logistics.Platform.Session.{Tx, ◌>>=◌, modify}
use smart_logistics.Platform.Events.{Topic}
use smart_logistics.Platform.Outbox.{add_event}
use smart_logistics.Inventory.Models.{Db, InventoryReservation, StockPayload, holds_changed, uuid4}

-- StockEvents
abbrev pub stock_reserved : String
stock_reserved = "stock.reserved"

abbrev pub stock_committed : String
stock_committed = "stock.committed"

abbrev pub stock_released : String
stock_released = "stock.released"

abbrev pub stock_adjusted : String
stock_adjusted = "stock.adjusted"

-- A row of the outbox, in the current transaction.
unfoldable pub emit : String → ℕ → StockPayload → Tx Db Unit
emit event_type key payload = do
  event_id ← uuid4
  modify λ db. record db {
    outbox = add_event Topic.inventory event_id event_type key payload db.outbox;
  }

-- `emit_stock_event`; `reason` is the one extra that a caller passes.
unfoldable pub emit_stock_event :
    String → ℕ → ℕ → List InventoryReservation → Option String → Tx Db Unit
emit_stock_event event_type shipment_id warehouse_id holds reason =
    emit event_type shipment_id
      (holds_changed shipment_id warehouse_id (map (λ h. (h.sku_id, h.quantity)) holds) reason)
