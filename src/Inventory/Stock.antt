-- ===== src/Inventory/Stock.antt =====
-- services/inventory/src/inventory/services/stock.py, StockService: opening positions,
-- adjustments and the listings. A listing's rows come in the order of the table; LIMIT takes the
-- first of them, OFFSET drops some. Sorting for display is not modelled.
pub mod Adjusting
pub mod Fresh
pub mod Opening
pub mod Refused
use smart_logistics.Base.{
  ℕ, zero, suc, ◌+◌, ◌≡◌, refl, String, Bool, true, false, not, ◌&&◌, ◌||◌, Option, none, some,
  List, [], ◌∷◌, ◌++◌, ◌==◌, if◌then◌else◌, ℤ, pos, ◌-ℤ◌, leb_ℤ, ltb_ℤ, rows_where, first_where,
  contains, length,
}
use smart_logistics.Platform.Errors.{not_found, permission_denied}
use smart_logistics.Platform.Session.{Tx, ◌>>=◌, ◌>>◌, pure, gets, modify, or_raise, raise_if}
use smart_logistics.Platform.Roles.{warehouse_operator, is_role}
use smart_logistics.Platform.Auth.{Principal, is_admin, may_touch_warehouse, scoped_warehouse_ids}
use smart_logistics.Inventory.Models.{
  Db, InventoryItem, InventoryReservation, ReservationStatus, StockMovement, StockMovementType,
  inbound_receipt, adjusted, is_status, available_qty, flush, uuid4,
}
use smart_logistics.Inventory.Events.{emit, stock_adjusted}
use smart_logistics.Inventory.Replicas.{require_operational}
use smart_logistics.Inventory.Holds.{modify_item, add_movement, adjust_qty}
use smart_logistics.Inventory.Reserve.{find_sku}

-- schemas.py, InventoryItemCreate: neither quantity is negative
pub record InventoryItemCreate : Type 0 where
  pub warehouse_id : ℕ
  pub sku_id : ℕ
  pub zone_id : Option ℕ
  pub on_hand_qty : ℕ
  pub reorder_level : ℕ

-- schemas.py, StockAdjustment
pub record StockAdjustment : Type 0 where
  pub movement_type : StockMovementType
  pub quantity_delta : ℤ
  pub notes : Option String

-- `_assert_manages`
unfoldable pub manages : ℕ → Principal → Bool
manages warehouse_id principal =
    is_admin principal
    || (is_role principal.role warehouse_operator && contains principal.warehouse_ids warehouse_id)

unfoldable pub assert_manages : ℕ → Principal → Tx Db Unit
assert_manages warehouse_id principal =
    raise_if (not (manages warehouse_id principal)) permission_denied

-- A position as `open_position` adds it.
abbrev pub new_item : InventoryItemCreate → ℕ → InventoryItem
new_item payload item_id = record {
  id = item_id;
  warehouse_id = payload.warehouse_id;
  sku_id = payload.sku_id;
  zone_id = payload.zone_id;
  on_hand_qty = pos payload.on_hand_qty;
  reserved_qty = pos 0;
  reorder_level = payload.reorder_level;
  version = 1;
}

-- `if payload.on_hand_qty:` the opening stock is an entry of the ledger
unfoldable pub record_opening : ℕ → InventoryItem → ℕ → Tx Db Unit
record_opening zero item actor_id = pure tt
record_opening (suc n) item actor_id = do
  add_movement item inbound_receipt (pos (suc n)) (some "opening") none (some actor_id)
      (some "Opening stock")
  flush

unfoldable pub open_position : InventoryItemCreate → Principal → Tx Db InventoryItem
open_position payload principal = do
  assert_manages payload.warehouse_id principal
  require_operational payload.warehouse_id
  skus ← gets λ db. db.skus
  or_raise (find_sku payload.sku_id skus) not_found
  item_id ← uuid4
  modify λ db. record db { items = db.items ++ new_item payload item_id ∷ [] }
  flush
  record_opening payload.on_hand_qty (new_item payload item_id) principal.user_id
  pure (new_item payload item_id)

-- `adjust` once the position is found
unfoldable pub adjust_item : InventoryItem → StockAdjustment → Principal → Tx Db InventoryItem
adjust_item found payload principal = do
  raise_if (not (may_touch_warehouse principal found.warehouse_id)) not_found
  assert_manages found.warehouse_id principal
  item ← modify_item found.id (adjust_qty payload.quantity_delta)
  add_movement item payload.movement_type payload.quantity_delta (some "adjustment") none
      (some principal.user_id) payload.notes
  flush
  emit stock_adjusted item.id (
      adjusted item.id item.warehouse_id item.sku_id payload.movement_type payload.quantity_delta
        item.on_hand_qty)
  pure item

unfoldable pub adjust : ℕ → StockAdjustment → Principal → Tx Db InventoryItem
adjust item_id payload principal = do
  rows ← gets λ db. db.items
  found ← or_raise (first_where (λ i. i.id == item_id) rows) not_found
  adjust_item found payload principal

-- The row scope of a listing.
abbrev pub in_warehouses : Option (List ℕ) → ℕ → Bool
in_warehouses none w = true
in_warehouses (some ids) w = contains ids w

-- A filter that is set.
abbrev pub matches : Option ℕ → ℕ → Bool
matches none x = true
matches (some y) x = x == y

abbrev pub wants : Option Bool → Bool
wants (some true) = true
wants _ = false

-- The filters of `list_items`.
unfoldable pub lists_item :
    Principal → Option ℕ → Option ℕ → Option Bool → Option Bool → InventoryItem → Bool
lists_item principal warehouse_id sku_id below_reorder_level in_stock_only item =
    matches warehouse_id item.warehouse_id
    && matches sku_id item.sku_id
    && (not (wants below_reorder_level) || leb_ℤ (available_qty item) (pos item.reorder_level))
    && (not (wants in_stock_only) || ltb_ℤ (pos 0) (available_qty item))
    && in_warehouses (scoped_warehouse_ids principal) item.warehouse_id

abbrev pub take {ℓ} : {A : Type ℓ} → ℕ → List A → List A
take zero xs = []
take (suc n) [] = []
take (suc n) (x ∷ xs) = x ∷ take n xs

abbrev pub drop {ℓ} : {A : Type ℓ} → ℕ → List A → List A
drop zero xs = xs
drop (suc n) [] = []
drop (suc n) (x ∷ xs) = drop n xs

-- `list_items`: one page, and the number of all rows
unfoldable pub list_items :
    Principal
    → Option ℕ
    → Option ℕ
    → Option Bool
    → Option Bool
    → ℕ
    → ℕ
    → Tx Db (List InventoryItem × ℕ)
unfolding lists_item
list_items principal warehouse_id sku_id below_reorder_level in_stock_only limit offset db =
    let rows =
      rows_where (lists_item principal warehouse_id sku_id below_reorder_level in_stock_only)
        db.items in
    gets (λ _. (take limit (drop offset rows), length rows)) db

matches_status : Option ReservationStatus → ReservationStatus → Bool
matches_status none s = true
matches_status (some t) s = is_status s t

-- `list_reservations`
unfoldable pub list_reservations :
    Principal → Option ℕ → Option ReservationStatus → ℕ → Tx Db (List InventoryReservation)
unfolding matches_status
list_reservations principal shipment_id status limit = gets λ db. take limit (
    rows_where
      (λ r.
        matches shipment_id r.shipment_id
        && matches_status status r.status
        && in_warehouses (scoped_warehouse_ids principal) r.warehouse_id)
      db.reservations)

-- `movements`
unfoldable pub movements : ℕ → Principal → ℕ → Tx Db (List StockMovement)
movements item_id principal limit = do
  rows ← gets λ db. db.items
  item ← or_raise (first_where (λ i. i.id == item_id) rows) not_found
  raise_if (not (may_touch_warehouse principal item.warehouse_id)) not_found
  gets λ db. take limit (rows_where (λ m. m.inventory_item_id == item_id) db.movements)
