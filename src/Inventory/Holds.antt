-- ===== src/Inventory/Holds.antt =====
-- services/inventory/src/inventory/services/reservations.py: what one hold does to its stock
-- position, to its own row and to the ledger, and which holds each statement selects.
-- A pass of a loop over holds writes a position and a hold, rows of different tables: the model
-- makes the writes to the positions in one loop, and those to the selected holds by one update.
use smart_logistics.Base.{
  ℕ, ◌+◌, String, Bool, false, ◌&&◌, Option, none, some, List, [], ◌∷◌, ◌++◌, leb, ◌==◌, is_none,
  if◌then◌else◌, ℤ, pos, ◌+ℤ◌, ◌-ℤ◌, update_where, first_where, contains,
}
use smart_logistics.Platform.Errors.{ok, err, key_error}
use smart_logistics.Platform.Session.{Tx, ◌>>=◌, ◌>>◌, pure, modify}
use smart_logistics.Inventory.Models.{
  Db, InventoryItem, InventoryReservation, StockMovementType, held, committed, released, is_status,
  outbound_dispatch, uuid4,
}

-- A write to the object `items[item_id]`, which is returned as it is after the write.
unfoldable pub modify_item : ℕ → (InventoryItem → InventoryItem) → Tx Db InventoryItem
modify_item item_id f db = elim (first_where (λ i. i.id == item_id) db.items) [
  | some item ↦ ok (f item, record db { items = update_where (λ i. i.id == item_id) f db.items })
  | none ↦ err key_error
]

-- `for x in xs: body`
unfoldable pub for_each : {A : Type 0} → (A → Tx Db Unit) → List A → Tx Db Unit
for_each body [] db = ok (tt, db)
for_each body (x ∷ xs) db = elim (body x db) [ ok (_, db') ↦ for_each body xs db' | err e ↦ err e ]

-- The position's part of one line of `reserve`.
abbrev pub reserve_qty : ℕ → InventoryItem → InventoryItem
reserve_qty quantity item = record item {
  reserved_qty = item.reserved_qty +ℤ pos quantity;
  version = item.version + 1;
}

-- The position's part of `_release_one`.
abbrev pub release_qty : ℕ → InventoryItem → InventoryItem
release_qty quantity item = record item {
  reserved_qty = item.reserved_qty -ℤ pos quantity;
  version = item.version + 1;
}

-- The position's part of one hold in `commit`.
abbrev pub commit_qty : ℕ → InventoryItem → InventoryItem
commit_qty quantity item = record item {
  on_hand_qty = item.on_hand_qty -ℤ pos quantity;
  reserved_qty = item.reserved_qty -ℤ pos quantity;
  version = item.version + 1;
}

-- The position's part of `StockService.adjust`.
abbrev pub adjust_qty : ℤ → InventoryItem → InventoryItem
adjust_qty delta item = record item {
  on_hand_qty = item.on_hand_qty +ℤ delta;
  version = item.version + 1;
}

-- The hold's part of `_release_one`.
abbrev pub release_row : String → ℕ → InventoryReservation → InventoryReservation
release_row reason now hold = record hold {
  status = released;
  released_at = some now;
  release_reason = some reason;
}

-- The hold's part of `commit`.
abbrev pub commit_row : ℕ → InventoryReservation → InventoryReservation
commit_row now hold = record hold { status = committed; committed_at = some now }

-- The body of the loop in `confirm`.
abbrev pub confirm_row : ℕ → InventoryReservation → InventoryReservation
confirm_row now hold =
    if is_none hold.confirmed_at
    then record hold { confirmed_at = some now; expires_at = none }
    else hold

-- The holds that `_lock_holds` selects.
abbrev pub is_held_for : ℕ → InventoryReservation → Bool
is_held_for shipment_id r = r.shipment_id == shipment_id && is_status r.status held

-- `expires_at <= now`, which is not true of NULL
abbrev pub is_past : ℕ → Option ℕ → Bool
is_past now none = false
is_past now (some t) = leb t now

-- An unconfirmed hold past its time.
abbrev pub is_lapsed : ℕ → InventoryReservation → Bool
is_lapsed now r = is_status r.status held && is_none r.confirmed_at && is_past now r.expires_at

-- The holds that `_expire_unconfirmed` selects.
abbrev pub is_lapsed_on : ℕ → List ℕ → InventoryReservation → Bool
is_lapsed_on now item_ids r = contains item_ids r.inventory_item_id && is_lapsed now r

-- `_release_one` on the position of a hold.
unfoldable pub release_position : InventoryReservation → Tx Db Unit
release_position hold = do modify_item hold.inventory_item_id (release_qty hold.quantity); pure tt

-- A row of the ledger for a position as it is after the change.
unfoldable pub add_movement :
    InventoryItem
    → StockMovementType
    → ℤ
    → Option String
    → Option ℕ
    → Option ℕ
    → Option String
    → Tx Db Unit
add_movement item movement_type delta reference_type reference_id actor_id notes = do
  movement_id ← uuid4
  modify λ db. record db {
    movements =
        db.movements
        ++ record {
          id = movement_id;
          inventory_item_id = item.id;
          warehouse_id = item.warehouse_id;
          sku_id = item.sku_id;
          movement_type = movement_type;
          quantity_delta = delta;
          resulting_on_hand = item.on_hand_qty;
          reference_type = reference_type;
          reference_id = reference_id;
          actor_id = actor_id;
          notes = notes;
        }
          ∷ [];
  }

-- One pass of the loop in `commit`, but for the write to the hold's own row.
unfoldable pub commit_position : ℕ → Option ℕ → InventoryReservation → Tx Db Unit
commit_position shipment_id actor_id hold = do
  item ← modify_item hold.inventory_item_id (commit_qty hold.quantity)
  add_movement item outbound_dispatch (pos 0 -ℤ pos hold.quantity) (some "shipment")
      (some shipment_id) actor_id none
