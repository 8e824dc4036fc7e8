-- ===== src/Inventory/Reservations/Selects.antt =====
-- What the statements of the reservation service select, and what its events leave.
use smart_logistics.Base.{ℕ, ◌+◌, ◌≡◌, refl, ap, String, Option, List, [], ◌∷◌, map, rows_where}
use smart_logistics.Platform.Errors.{ok}
use smart_logistics.Platform.Events.{Topic}
use smart_logistics.Platform.Outbox.{add_event}
use smart_logistics.Inventory.Models.{Db, InventoryReservation, holds_changed, uuid4}
use smart_logistics.Inventory.Events.{emit, emit_stock_event}
use smart_logistics.Inventory.Holds.{is_held_for}
use smart_logistics.Inventory.Reservations.{lock_holds, lock_held, item_ids_of, lock_item_ids}

lock_held-eq :
    (shipment_id : ℕ) (db : Db) (hs : List InventoryReservation)
    → rows_where (is_held_for shipment_id) db.reservations ≡ hs
    → lock_held shipment_id (item_ids_of hs) db ≡ ok (hs, db)
unfolding lock_held lock_item_ids
lock_held-eq shipment_id db [] e = refl
lock_held-eq shipment_id db (h ∷ hs) e = ap (λ (l : List InventoryReservation). ok (l, db)) e

-- The holds that are locked are the open holds of the shipment.
pub lock_holds-eq :
    (shipment_id : ℕ) (db : Db)
    → lock_holds shipment_id db ≡ ok (rows_where (is_held_for shipment_id) db.reservations, db)
unfolding lock_holds
lock_holds-eq shipment_id db = lock_held-eq shipment_id db _ refl

-- The database after a stock event.
abbrev pub with_event : Db → String → ℕ → ℕ → List InventoryReservation → Option String → Db
with_event db event_type shipment_id warehouse_id holds reason = record db {
  next_id = db.next_id + 1;
  outbox =
      add_event Topic.inventory db.next_id event_type shipment_id
        (holds_changed shipment_id warehouse_id (map (λ h. (h.sku_id, h.quantity)) holds) reason)
        db.outbox;
}

pub emit_stock_event-eq :
    (event_type : String) (shipment_id warehouse_id : ℕ) (holds : List InventoryReservation)
    (reason : Option String) (db : Db)
    → emit_stock_event event_type shipment_id warehouse_id holds reason db
      ≡ ok (tt, with_event db event_type shipment_id warehouse_id holds reason)
unfolding emit_stock_event emit uuid4
emit_stock_event-eq event_type shipment_id warehouse_id holds reason db = refl
