-- ===== src/Shipment/Service/Requests.antt =====
-- services/shipment/src/shipment/schemas.py, and the parts of services/shipments.py that all
-- methods share: who may see and pack a shipment, the trail and the events.
use smart_logistics.Base.{
  ℕ, String, Bool, true, false, not, ◌&&◌, ◌||◌, Option, none, some, List, [], ◌∷◌, ◌++◌, map, leb,
  length, all, distinct, if◌then◌else◌,
}
use smart_logistics.Platform.Errors.{not_found, permission_denied}
use smart_logistics.Platform.Session.{Tx, ◌>>=◌, ◌>>◌, pure, modify, or_raise, raise_if}
use smart_logistics.Platform.Roles.{warehouse_operator, courier, is_role}
use smart_logistics.Platform.Auth.{Principal, is_admin, sees_all_warehouses, may_touch_warehouse}
use smart_logistics.Platform.Events.{Topic}
use smart_logistics.Platform.Outbox.{add_event}
use smart_logistics.Shipment.StateMachine.{ShipmentStatus}
use smart_logistics.Shipment.Models.{
  Db, Address, Shipment, PackageStatus, ServiceLevel, economy, standard, express, same_day,
  ShipmentPriority, ShipmentStatusHistory, Summary, ShipmentPayload, uuid4,
}
use smart_logistics.Shipment.Repository.{get_with_detail, equals}

pub record PackageCreate : Type 0 where
  pub weight_g : ℕ
  pub length_mm : Option ℕ
  pub width_mm : Option ℕ
  pub height_mm : Option ℕ

-- A field is unset, or set to a value that may be None.
pub record PackageUpdate : Type 0 where
  pub weight_g : Option (Option ℕ)
  pub length_mm : Option (Option ℕ)
  pub width_mm : Option (Option ℕ)
  pub height_mm : Option (Option ℕ)
  pub status : Option (Option PackageStatus)

pub record ShipmentItemCreate : Type 0 where
  pub sku_id : ℕ
  pub quantity : ℕ

-- The address is a row whose id is not chosen yet.
pub record ShipmentCreate : Type 0 where
  pub customer_reference : Option String
  pub origin_warehouse_id : ℕ
  pub service_level : ServiceLevel
  pub priority : ShipmentPriority
  pub destination_address : ℕ → Address
  pub items : List ShipmentItemCreate
  pub packages : List PackageCreate
  pub promised_delivery_at : Option ℕ
  pub declared_value : Option ℕ
  pub currency : String
  pub special_instructions : Option String

-- 1..200 items with quantities in 1..100_000, at most 50 parcels, and `unique_skus`
unfoldable pub accepts_create : ShipmentCreate → Bool
accepts_create payload =
    all (λ i. leb 1 i.quantity && leb i.quantity 100_000) payload.items
    && leb 1 (length payload.items)
    && leb (length payload.items) 200
    && leb (length payload.packages) 50
    && all (λ p. leb 1 p.weight_g && leb p.weight_g 1_000_000) payload.packages
    && distinct (map (λ i. i.sku_id) payload.items)

pub record ShipmentUpdate : Type 0 where
  pub customer_reference : Option (Option String)
  pub service_level : Option (Option ServiceLevel)
  pub priority : Option (Option ShipmentPriority)
  pub promised_delivery_at : Option (Option ℕ)
  pub declared_value : Option (Option ℕ)
  pub special_instructions : Option (Option String)

-- SERVICE_LEVEL_WINDOWS, in seconds
abbrev pub window : ServiceLevel → ℕ
window same_day = 28_800
window express = 86_400
window standard = 259_200
window economy = 432_000

-- `_visible`
unfoldable pub visible : Shipment → Principal → Bool
visible s p =
    if sees_all_warehouses p
    then true
    else if is_role p.role warehouse_operator
    then may_touch_warehouse p s.origin_warehouse_id
    else if is_role p.role courier
    then elim p.courier_id [ none ↦ false | some c ↦ equals (some c) s.courier_id ]
    else false

-- `get`
unfoldable pub get : ℕ → Principal → Tx Db Shipment
get shipment_id principal = do
  found ← get_with_detail shipment_id
  shipment ← or_raise found not_found
  raise_if (not (visible shipment principal)) not_found
  pure shipment

unfoldable pub can_pack : Shipment → Principal → Bool
can_pack s p =
    is_admin p || (is_role p.role warehouse_operator && may_touch_warehouse p s.origin_warehouse_id)

-- `_assert_can_pack`
unfoldable pub assert_can_pack : Shipment → Principal → Tx Db Unit
assert_can_pack s p = raise_if (not (can_pack s p)) permission_denied

-- A row of the trail.
abbrev pub trail_row :
    ℕ
    → ℕ
    → Option ShipmentStatus
    → ShipmentStatus
    → Principal
    → Option String
    → ShipmentStatusHistory
trail_row row_id shipment_id previous target principal reason = record {
  id = row_id;
  shipment_id = shipment_id;
  from_status = previous;
  to_status = target;
  actor_id = some principal.user_id;
  actor_role = some principal.role;
  reason = reason;
}

-- `_record`
unfoldable pub record_status :
    Shipment → Option ShipmentStatus → ShipmentStatus → Principal → Option String → Tx Db Unit
record_status shipment previous target principal reason = do
  row_id ← uuid4
  modify λ db. record db {
    history = db.history ++ trail_row row_id shipment.id previous target principal reason ∷ [];
  }

abbrev pub summary : Shipment → Summary
summary s = record {
  id = s.id;
  reference_no = s.reference_no;
  customer_reference = s.customer_reference;
  status = s.status;
  service_level = s.service_level;
  priority = s.priority;
  origin_warehouse_id = s.origin_warehouse_id;
  origin_warehouse_code = s.origin_warehouse_code;
  courier_id = s.courier_id;
  total_weight_g = s.total_weight_g;
  promised_delivery_at = s.promised_delivery_at;
  version = s.version;
}

-- `emit` and `emit_created`, whose payloads differ
unfoldable pub emit : String → ℕ → ShipmentPayload → Tx Db Unit
emit event_type key payload = do
  event_id ← uuid4
  modify λ db. record db {
    outbox = add_event Topic.shipment event_id event_type key payload db.outbox;
  }
