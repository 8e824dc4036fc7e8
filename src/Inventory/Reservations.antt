-- ===== src/Inventory/Reservations.antt =====
-- services/inventory/src/inventory/services/reservations.py: reserve, confirm, commit, release and
-- expire holds on stock. A method is a transaction on the service's database, and the clock is
-- read once in a method, `now`. A dict of rows is a list of keys with the ids of the rows, which
-- are read again where the code uses the shared object. Row locks leave no trace in the state: one
-- transaction holds the rows that it works on until it ends.
pub mod Selects
pub mod Closing
pub mod Lifecycle
pub mod Retries
pub mod Confirm
pub mod Expiry
use smart_logistics.Base.{
  ℕ, zero, suc, ◌+◌, String, Bool, true, false, not, ◌&&◌, ◌||◌, Option, none, some, List, [], ◌∷◌,
  ◌++◌, map, length, leb, ltb, ◌==◌, is_none, is_some, if◌then◌else◌, ℤ, pos, ltb_ℤ, rows_where,
  update_where, first_where, any, all, contains,
}
use smart_logistics.Platform.Errors.{
  Error, Result, ok, err, not_found, conflict, insufficient_stock, reservation_mismatch, key_error,
}
use smart_logistics.Platform.Session.{
  Tx, ◌>>=◌, ◌>>◌, pure, raise, gets, modify, or_raise, raise_if,
}
use smart_logistics.Inventory.Models.{
  Db, Sku, InventoryItem, InventoryReservation, ReservationStatus, held, committed, released,
  is_status, available_qty, flush, uuid4,
}
use smart_logistics.Inventory.Events.{
  emit_stock_event, stock_reserved, stock_committed, stock_released,
}
use smart_logistics.Inventory.Schemas.{
  ReservationLineRequest, ReservationRequest, ReservedLine, ReservationResult,
}
use smart_logistics.Inventory.Replicas.{require_operational}
use smart_logistics.Inventory.Holds.{
  modify_item, for_each, reserve_qty, release_row, commit_row, confirm_row, is_held_for, is_lapsed,
  is_lapsed_on, release_position, commit_position,
}

-- `_lock_item_ids`: the positions of these ids, in the order of the ids
unfoldable pub lock_item_ids : List ℕ → Tx Db (List ℕ)
lock_item_ids item_ids =
    gets λ db. map (λ i. i.id) (rows_where (λ i. contains item_ids i.id) db.items)

-- `_lock_items`: the positions of these SKUs at the warehouse, by SKU
unfoldable pub lock_items : ℕ → List ℕ → Tx Db (List (ℕ × ℕ))
lock_items warehouse_id sku_ids = gets λ db.
    map (λ i. (i.sku_id, i.id))
      (rows_where (λ i. i.warehouse_id == warehouse_id && contains sku_ids i.sku_id) db.items)

abbrev pub item_ids_of : List InventoryReservation → List ℕ
item_ids_of = map (λ r. r.inventory_item_id)

-- `_lock_holds`: the positions first, then the shipment's holds
unfoldable pub lock_held : ℕ → List ℕ → Tx Db (List InventoryReservation)
lock_held shipment_id [] = pure []
lock_held shipment_id (i ∷ item_ids) = do
  lock_item_ids (i ∷ item_ids)
  gets λ db. rows_where (is_held_for shipment_id) db.reservations

unfoldable pub lock_holds : ℕ → Tx Db (List InventoryReservation)
unfolding lock_held
lock_holds shipment_id = do
  item_ids ← gets λ db. item_ids_of (rows_where (is_held_for shipment_id) db.reservations)
  lock_held shipment_id item_ids

-- `_for_shipment`
unfoldable pub for_shipment : ℕ → Tx Db (List InventoryReservation)
for_shipment shipment_id = gets λ db. rows_where (λ r. r.shipment_id == shipment_id) db.reservations

-- `_has_status`
unfoldable pub has_status : ℕ → ReservationStatus → Tx Db Bool
has_status shipment_id status =
    gets λ db. any (λ r. r.shipment_id == shipment_id && is_status r.status status) db.reservations

-- The write to the rows of the holds that a statement selected.
abbrev pub update_holds :
    (InventoryReservation → Bool) → (InventoryReservation → InventoryReservation) → Tx Db Unit
update_holds selected f =
    modify λ db. record db { reservations = update_where selected f db.reservations }

-- `confirm`: the number of holds
unfoldable pub confirm : ℕ → ℕ → Tx Db ℕ
confirm now shipment_id = do
  holds ← lock_holds shipment_id
  update_holds (is_held_for shipment_id) (confirm_row now)
  flush
  pure (length holds)

-- `commit` after the holds are locked
unfoldable pub commit_holds : ℕ → Option ℕ → ℕ → List InventoryReservation → Tx Db ℕ
commit_holds now actor_id shipment_id [] = do
  done ← has_status shipment_id committed
  if done then pure 0 else raise conflict
commit_holds now actor_id shipment_id (h ∷ holds) = do
  lock_item_ids (item_ids_of (h ∷ holds))
  for_each (commit_position shipment_id actor_id) (h ∷ holds)
  update_holds (is_held_for shipment_id) (commit_row now)
  flush
  emit_stock_event stock_committed shipment_id h.warehouse_id (h ∷ holds) none
  pure (length (h ∷ holds))

unfoldable pub commit : ℕ → Option ℕ → ℕ → Tx Db ℕ
commit now actor_id shipment_id = do
  holds ← lock_holds shipment_id
  commit_holds now actor_id shipment_id holds

-- `release` after the holds are locked
unfoldable pub release_holds : ℕ → String → ℕ → List InventoryReservation → Tx Db ℕ
release_holds now reason shipment_id [] = pure 0
release_holds now reason shipment_id (h ∷ holds) = do
  lock_item_ids (item_ids_of (h ∷ holds))
  for_each release_position (h ∷ holds)
  update_holds (is_held_for shipment_id) (release_row reason now)
  flush
  emit_stock_event stock_released shipment_id h.warehouse_id (h ∷ holds) (some reason)
  pure (length (h ∷ holds))

unfoldable pub release : ℕ → ℕ → String → Tx Db ℕ
release now shipment_id reason = do
  holds ← lock_holds shipment_id
  release_holds now reason shipment_id holds

-- `by_shipment.setdefault(hold.shipment_id, []).append(hold)`
unfoldable pub group_hold :
    InventoryReservation
    → List (ℕ × List InventoryReservation)
    → List (ℕ × List InventoryReservation)
group_hold h [] = (h.shipment_id, h ∷ []) ∷ []
group_hold h ((s, holds) ∷ groups) =
    let rest = group_hold h groups in
    if s == h.shipment_id then (s, holds ++ h ∷ []) ∷ groups else (s, holds) ∷ rest

unfoldable pub group_by_shipment :
    List (ℕ × List InventoryReservation)
    → List InventoryReservation
    → List (ℕ × List InventoryReservation)
group_by_shipment groups [] = groups
group_by_shipment groups (h ∷ holds) = group_by_shipment (group_hold h groups) holds

abbrev pub expired_reason : String
expired_reason = "Unconfirmed hold expired"

-- One event for the holds of a shipment; no group is empty.
unfoldable pub emit_expired : ℕ × List InventoryReservation → Tx Db Unit
emit_expired (s, []) = pure tt
emit_expired (s, h ∷ holds) =
    emit_stock_event stock_released s h.warehouse_id (h ∷ holds) (some expired_reason)

unfoldable pub expire_holds : ℕ → List ℕ → List InventoryReservation → Tx Db ℕ
expire_holds now item_ids [] = pure 0
expire_holds now item_ids (h ∷ holds) = do
  for_each release_position (h ∷ holds)
  update_holds (is_lapsed_on now item_ids) (release_row expired_reason now)
  flush
  for_each emit_expired (group_by_shipment [] (h ∷ holds))
  pure (length (h ∷ holds))

-- `_expire_unconfirmed` on the positions of these ids
unfoldable pub expire_unconfirmed : ℕ → List ℕ → Tx Db ℕ
expire_unconfirmed now [] = pure 0
expire_unconfirmed now (i ∷ item_ids) = do
  expired ← gets λ db. rows_where (is_lapsed_on now (i ∷ item_ids)) db.reservations
  expire_holds now (i ∷ item_ids) expired

-- The scope of a sweep: all warehouses, or these.
abbrev pub in_scope : Option (List ℕ) → InventoryReservation → Bool
in_scope none r = true
in_scope (some warehouse_ids) r = contains warehouse_ids r.warehouse_id

unfoldable pub sweep : ℕ → List ℕ → Tx Db ℕ
sweep now [] = pure 0
sweep now (i ∷ item_ids) = do items ← lock_item_ids (i ∷ item_ids); expire_unconfirmed now items

-- `release_expired`
unfoldable pub release_expired : ℕ → Option (List ℕ) → Tx Db ℕ
release_expired now warehouse_ids = do
  item_ids ← gets λ db.
      item_ids_of (rows_where (λ r. is_lapsed now r && in_scope warehouse_ids r) db.reservations)
  sweep now item_ids
