-- ===== src/Inventory/Reserve.antt =====
-- services/inventory/src/inventory/services/reservations.py: `reserve` and what it calls. The
-- service's setting `unconfirmed_hold` is a number of seconds.
pub mod Holding
pub mod Checks
pub mod Made
pub mod Replays
use smart_logistics.Base.{
  ℕ, ◌+◌, Bool, true, not, ◌&&◌, ◌||◌, Option, none, some, List, [], ◌∷◌, ◌++◌, map, leb, ◌==◌,
  is_none, is_some, if◌then◌else◌, pos, ltb_ℤ, rows_where, first_where, any, all, contains,
  min_time,
}
use smart_logistics.Platform.Errors.{
  Result, ok, err, not_found, conflict, insufficient_stock, reservation_mismatch, key_error,
}
use smart_logistics.Platform.Session.{Tx, ◌>>=◌, ◌>>◌, pure, gets, lift, modify, or_raise, raise_if}
use smart_logistics.Inventory.Models.{
  Db, Sku, InventoryItem, InventoryReservation, ReservationStatus, held, is_status, available_qty,
  flush, uuid4,
}
use smart_logistics.Inventory.Events.{emit_stock_event, stock_reserved}
use smart_logistics.Inventory.Schemas.{
  ReservationLineRequest, ReservationRequest, ReservedLine, ReservationResult,
}
use smart_logistics.Inventory.Replicas.{require_operational}
use smart_logistics.Inventory.Holds.{modify_item, for_each, reserve_qty}
use smart_logistics.Inventory.Reservations.{lock_items, for_shipment, expire_unconfirmed}

abbrev pub find_sku : ℕ → List Sku → Option Sku
find_sku sku_id skus = first_where (λ s. s.id == sku_id) skus

-- `_load_skus`: every id has an active SKU that is not deleted
unfoldable pub load_skus : List ℕ → Tx Db (List Sku)
load_skus sku_ids = do
  skus ← gets λ db. rows_where (λ s. contains sku_ids s.id && is_none s.deleted_at) db.skus
  raise_if (any (λ i. is_none (find_sku i skus)) sku_ids) not_found
  raise_if (any (λ s. not s.is_active) skus) conflict
  pure skus

-- `_load_skus_any`
unfoldable pub load_skus_any : List ℕ → Tx Db (List Sku)
load_skus_any sku_ids = gets λ db. rows_where (λ s. contains sku_ids s.id) db.skus

-- `sorted(holds, key=..sku_id)`, which is stable
unfoldable pub insert_by_sku :
    InventoryReservation → List InventoryReservation → List InventoryReservation
insert_by_sku h [] = h ∷ []
insert_by_sku h (k ∷ holds) =
    let rest = insert_by_sku h holds in if leb h.sku_id k.sku_id then h ∷ k ∷ holds else k ∷ rest

unfoldable pub sort_by_sku : List InventoryReservation → List InventoryReservation
unfolding insert_by_sku
sort_by_sku [] = []
sort_by_sku (h ∷ holds) = insert_by_sku h (sort_by_sku holds)

unfoldable pub reserved_line : InventoryReservation → Sku → ReservedLine
reserved_line h sku = record {
  sku_id = h.sku_id;
  quantity = h.quantity;
  sku_code = sku.code;
  sku_name = sku.name;
  unit_weight_g = sku.weight_g;
  unit_value = sku.unit_value;
  currency = sku.currency;
}

-- `skus[h.sku_id]` raises where the SKU is not in the dict
unfoldable pub reserved_lines : List Sku → List InventoryReservation → Result (List ReservedLine)
unfolding reserved_line
reserved_lines skus [] = ok []
reserved_lines skus (h ∷ holds) = elim (find_sku h.sku_id skus) [
  | none ↦ err key_error
  | some sku ↦ elim (reserved_lines skus holds) [
    | ok lines ↦ ok (reserved_line h sku ∷ lines)
    | err e ↦ err e
  ]
]

-- One status if all holds have it, `held` if they differ or there are none.
unfoldable pub common_status : List InventoryReservation → ReservationStatus
common_status [] = held
common_status (h ∷ holds) = if all (λ k. is_status k.status h.status) holds then h.status else held

unfoldable pub earliest_expiry : List InventoryReservation → Option ℕ
earliest_expiry [] = none
earliest_expiry (h ∷ holds) = min_time h.expires_at (earliest_expiry holds)

-- `_result`
unfoldable pub result : ℕ → ℕ → List InventoryReservation → List Sku → Result ReservationResult
unfolding sort_by_sku reserved_lines common_status earliest_expiry
result shipment_id warehouse_id holds skus = elim (reserved_lines skus (sort_by_sku holds)) [
  | err e ↦ err e
  | ok lines ↦ ok (record {
    shipment_id = shipment_id;
    warehouse_id = warehouse_id;
    status = common_status holds;
    confirmed = all (λ h. is_some h.confirmed_at) holds;
    expires_at = earliest_expiry holds;
    lines = lines;
  })
]

-- The pairs of a request and of holds, compared as sets.
abbrev pub wanted : ReservationRequest → List (ℕ × ℕ)
wanted request = map (λ l. (l.sku_id, l.quantity)) request.lines

abbrev pub held_pairs : List InventoryReservation → List (ℕ × ℕ)
held_pairs = map (λ r. (r.sku_id, r.quantity))

abbrev pub has_pair : List (ℕ × ℕ) → ℕ × ℕ → Bool
has_pair ps (a, b) = any (λ p. p.0 == a && p.1 == b) ps

abbrev pub same_set : List (ℕ × ℕ) → List (ℕ × ℕ) → Bool
same_set ps qs = all (has_pair qs) ps && all (has_pair ps) qs

-- `_replay` on the holds of the shipment, of which there is one
unfoldable pub replay :
    ReservationRequest → InventoryReservation → List InventoryReservation → Tx Db ReservationResult
replay request r existing = do
  raise_if
      (not (same_set (wanted request) (held_pairs (r ∷ existing)))
        || not (r.warehouse_id == request.warehouse_id))
      reservation_mismatch
  skus ← load_skus_any (map (λ h. h.sku_id) (r ∷ existing))
  lift (result request.shipment_id request.warehouse_id (r ∷ existing) skus)

-- `items[sku_id]`
abbrev pub item_id_for : List (ℕ × ℕ) → ℕ → Option ℕ
item_id_for items sku_id = elim (first_where (λ p. p.0 == sku_id) items) [
  | none ↦ none
  | some p ↦ some p.1
]

-- `self._available(items[line.sku_id]) < line.quantity`
unfoldable pub is_short : List (ℕ × ℕ) → List InventoryItem → ReservationLineRequest → Bool
is_short items rows line = elim (item_id_for items line.sku_id) [
  | none ↦ true
  | some item_id ↦ elim (first_where (λ i. i.id == item_id) rows) [
    | none ↦ true
    | some item ↦ ltb_ℤ (available_qty item) (pos line.quantity)
  ]
]

-- A hold as `reserve` makes it.
abbrev pub new_hold : ReservationRequest → ℕ → ReservationLineRequest → ℕ → ℕ → InventoryReservation
new_hold request expires_at line item_id hold_id = record {
  id = hold_id;
  inventory_item_id = item_id;
  shipment_id = request.shipment_id;
  warehouse_id = request.warehouse_id;
  sku_id = line.sku_id;
  quantity = line.quantity;
  status = held;
  expires_at = some expires_at;
  confirmed_at = none;
  committed_at = none;
  released_at = none;
  release_reason = none;
}

-- The body of the loop over the lines.
unfoldable pub hold_line :
    ReservationRequest → ℕ → List (ℕ × ℕ) → ReservationLineRequest → Tx Db Unit
hold_line request expires_at items line = do
  item_id ← or_raise (item_id_for items line.sku_id) key_error
  item ← modify_item item_id (reserve_qty line.quantity)
  hold_id ← uuid4
  modify λ db. record db {
    reservations = db.reservations ++ new_hold request expires_at line item.id hold_id ∷ [];
  }

-- From the loop on. The holds that it has made are those of the shipment: there were none before.
unfoldable pub hold_lines :
    ReservationRequest → ℕ → List (ℕ × ℕ) → List Sku → Tx Db ReservationResult
hold_lines request expires_at items skus = do
  for_each (hold_line request expires_at items) request.lines
  flush
  holds ← for_shipment request.shipment_id
  emit_stock_event stock_reserved request.shipment_id request.warehouse_id holds none
  lift (result request.shipment_id request.warehouse_id holds skus)

-- The tests for missing positions and for shortfalls, once lapsed holds are reclaimed.
unfoldable pub check_stock : List ReservationLineRequest → List (ℕ × ℕ) → List Sku → Tx Db Unit
check_stock lines items skus = do
  raise_if (any (λ s. is_none (item_id_for items s.id)) skus) insufficient_stock
  rows ← gets λ db. db.items
  raise_if (any (is_short items rows) lines) insufficient_stock

-- `reserve` for a shipment that has no hold yet
unfoldable pub hold_all : ℕ → ℕ → ReservationRequest → Tx Db ReservationResult
hold_all now unconfirmed_hold request = do
  require_operational request.warehouse_id
  skus ← load_skus (map (λ l. l.sku_id) request.lines)
  items ← lock_items request.warehouse_id (map (λ s. s.id) skus)
  expire_unconfirmed now (map (λ p. p.1) items)
  check_stock request.lines items skus
  hold_lines request (now + unconfirmed_hold) items skus

unfoldable pub reserve_after :
    ℕ → ℕ → ReservationRequest → List InventoryReservation → Tx Db (ReservationResult × Bool)
reserve_after now unconfirmed_hold request [] = do
  made ← hold_all now unconfirmed_hold request
  pure (made, true)
reserve_after now unconfirmed_hold request (r ∷ existing) = do
  known ← replay request r existing
  pure (known, Bool.false)

-- `reserve`: the result, and whether a hold was made
unfoldable pub reserve : ℕ → ℕ → ReservationRequest → Tx Db (ReservationResult × Bool)
reserve now unconfirmed_hold request = do
  existing ← for_shipment request.shipment_id
  reserve_after now unconfirmed_hold request existing
