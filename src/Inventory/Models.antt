-- ===== src/Inventory/Models.antt =====
-- services/inventory/src/inventory/models.py: the tables and their constraints, and the one
-- session over them. Identifiers are numbers, times are seconds since an epoch, a Decimal with two
-- places is a number of hundredths. The columns created_at, updated_at and synced_at, which only
-- listings read, are left out.
use smart_logistics.Base.{
  ℕ, ◌+◌, String, Bool, true, false, not, ◌&&◌, ◌||◌, Option, List, [], ◌∷◌, ltb, ◌==◌, str_eq,
  is_some, if◌then◌else◌, ℤ, pos, ◌-ℤ◌, leb_ℤ, eqb_ℤ, any, all, map,
}
use smart_logistics.Platform.Errors.{SqlState, integrity_error, ok, err}
use smart_logistics.Platform.Session.{Tx}
use smart_logistics.Platform.Outbox.{Outbox}

pub data ReservationStatus : Type 0 where
  held committed released : ReservationStatus

abbrev pub is_status : ReservationStatus → ReservationStatus → Bool
is_status held held = true
is_status committed committed = true
is_status released released = true
is_status _ _ = false

pub data StockMovementType : Type 0 where
  inbound_receipt outbound_dispatch return_receipt adjustment : StockMovementType
  damage_write_off transfer_in transfer_out : StockMovementType

pub record Sku : Type 0 where
  pub id : ℕ
  pub code : String
  pub name : String
  pub description : Option String
  pub category : Option String
  pub weight_g : ℕ
  pub length_mm : ℕ
  pub width_mm : ℕ
  pub height_mm : ℕ
  pub is_fragile : Bool
  pub is_hazmat : Bool
  pub requires_cold_chain : Bool
  pub unit_value : Option ℕ
  pub currency : String
  pub is_active : Bool
  pub deleted_at : Option ℕ
  pub deleted_by : Option ℕ

pub record InventoryItem : Type 0 where
  pub id : ℕ
  pub warehouse_id : ℕ
  pub sku_id : ℕ
  pub zone_id : Option ℕ
  pub on_hand_qty : ℤ
  pub reserved_qty : ℤ
  pub reorder_level : ℕ
  pub version : ℕ

-- The generated column.
abbrev pub available_qty : InventoryItem → ℤ
available_qty item = item.on_hand_qty -ℤ item.reserved_qty

pub record InventoryReservation : Type 0 where
  pub id : ℕ
  pub inventory_item_id : ℕ
  pub shipment_id : ℕ
  pub warehouse_id : ℕ
  pub sku_id : ℕ
  pub quantity : ℕ
  pub status : ReservationStatus
  pub expires_at : Option ℕ
  pub confirmed_at : Option ℕ
  pub committed_at : Option ℕ
  pub released_at : Option ℕ
  pub release_reason : Option String

pub record StockMovement : Type 0 where
  pub id : ℕ
  pub inventory_item_id : ℕ
  pub warehouse_id : ℕ
  pub sku_id : ℕ
  pub movement_type : StockMovementType
  pub quantity_delta : ℤ
  pub resulting_on_hand : ℤ
  pub reference_type : Option String
  pub reference_id : Option ℕ
  pub actor_id : Option ℕ
  pub notes : Option String

pub record WarehouseRef : Type 0 where
  pub id : ℕ
  pub code : String
  pub name : String
  pub status : String
  pub city : String
  pub is_deleted : Bool
  pub source_updated_at : ℕ

abbrev pub is_operational : WarehouseRef → Bool
is_operational ref = str_eq ref.status "active" && not ref.is_deleted

-- The payloads of the events that the service publishes (events.py and StockService.adjust).
pub data StockPayload : Type 0 where
  holds_changed : ℕ → ℕ → List (ℕ × ℕ) → Option String → StockPayload
  adjusted : ℕ → ℕ → ℕ → StockMovementType → ℤ → ℤ → StockPayload

-- The service's database. `next_id` is the next identifier that uuid4 generates: identifiers are
-- taken to be new whenever they are generated.
pub record Db : Type 0 where
  pub skus : List Sku
  pub items : List InventoryItem
  pub reservations : List InventoryReservation
  pub movements : List StockMovement
  pub warehouse_refs : List WarehouseRef
  pub outbox : Outbox StockPayload
  pub next_id : ℕ

-- on_hand_non_negative, reserved_non_negative, reserved_within_on_hand
abbrev pub item_checks : InventoryItem → Bool
item_checks item =
    leb_ℤ (pos 0) item.on_hand_qty
    && leb_ℤ (pos 0) item.reserved_qty
    && leb_ℤ item.reserved_qty item.on_hand_qty

-- quantity_positive, unconfirmed_holds_expire
abbrev pub reservation_checks : InventoryReservation → Bool
reservation_checks r =
    ltb 0 r.quantity
    && (not (is_status r.status held) || is_some r.confirmed_at || is_some r.expires_at)

-- delta_non_zero
abbrev pub movement_checks : StockMovement → Bool
movement_checks m = not (eqb_ℤ m.quantity_delta (pos 0))

-- No two rows agree on both columns: uq_inventory_warehouse_sku, uq_reservation_shipment_sku.
abbrev pub distinct_pairs : List (ℕ × ℕ) → Bool
distinct_pairs [] = true
distinct_pairs ((a, b) ∷ rest) = not (any (λ p. p.0 == a && p.1 == b) rest) && distinct_pairs rest

abbrev pub item_keys : List InventoryItem → List (ℕ × ℕ)
item_keys = map (λ i. (i.warehouse_id, i.sku_id))

abbrev pub reservation_keys : List InventoryReservation → List (ℕ × ℕ)
reservation_keys = map (λ r. (r.shipment_id, r.sku_id))

unfoldable pub check_constraints : Db → Bool
check_constraints db =
    all item_checks db.items
    && all reservation_checks db.reservations
    && all movement_checks db.movements

unfoldable pub unique_constraints : Db → Bool
unique_constraints db =
    distinct_pairs (item_keys db.items) && distinct_pairs (reservation_keys db.reservations)

-- `session.flush()`: Postgres refuses rows that break a constraint.
unfoldable pub flush : Tx Db Unit
flush db =
    if check_constraints db
    then (if unique_constraints db
        then ok (tt, db)
        else err (integrity_error SqlState.unique_violation))
    else err (integrity_error SqlState.check_violation)

-- `uuid.uuid4()`
unfoldable pub uuid4 : Tx Db ℕ
uuid4 db = ok (db.next_id, record db { next_id = db.next_id + 1 })
