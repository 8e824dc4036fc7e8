-- ===== src/Shipment/Service/Create.antt =====
-- services/shipment/src/shipment/services/shipments.py: `shipment_id_for` and `create`.
use smart_logistics.Base.{
  ℕ, ◌+◌, ◌*◌, String, Option, none, some, List, [], ◌∷◌, ◌++◌, map, sum_by, rows_where,
  first_where, ◌==◌, if◌then◌else◌, str_eq,
}
use smart_logistics.Platform.Errors.{Result, key_error}
use smart_logistics.Platform.Session.{Tx, ◌>>=◌, ◌>>◌, pure, lift, gets, modify, or_raise}
use smart_logistics.Platform.Auth.{Principal}
use smart_logistics.Inventory.Models.{WarehouseRef}
use smart_logistics.Inventory.Schemas.{ReservedLine, ReservationResult}
use smart_logistics.Shipment.StateMachine.{created}
use smart_logistics.Shipment.Models.{
  Db, Address, Shipment, Package, PackageStatus, recorded, flush, uuid4,
}
use smart_logistics.Shipment.Repository.{get_with_detail, next_reference_no, require_operational}
use smart_logistics.Shipment.Service.Requests.{
  PackageCreate, ShipmentCreate, window, record_status, summary, emit,
}

-- `uuid5` of a namespace and of the text `<owner>:<key>` is a parameter.
abbrev pub shipment_id_for : (ℕ → String → ℕ) → ℕ → Option String → Tx Db ℕ
shipment_id_for uuid5 owner none = uuid4
shipment_id_for uuid5 owner (some key) = if str_eq key "" then uuid4 else pure (uuid5 owner key)

-- The lines of a reservation as items.
unfoldable pub add_items : ℕ → List ReservedLine → Tx Db Unit
add_items shipment_id [] = pure tt
add_items shipment_id (line ∷ lines) = do
  item_id ← uuid4
  modify λ db. record db {
    items =
        db.items
        ++ record {
          id = item_id;
          shipment_id = shipment_id;
          sku_id = line.sku_id;
          quantity = line.quantity;
          sku_code = line.sku_code;
          sku_name = line.sku_name;
          unit_weight_g = line.unit_weight_g;
          unit_value = line.unit_value;
        }
          ∷ [];
  }
  add_items shipment_id lines

-- A parcel as it is added.
abbrev pub new_package : ℕ → ℕ → ℕ → ℕ → PackageCreate → Package
new_package package_id shipment_id sequence_no barcode parcel = record {
  id = package_id;
  shipment_id = shipment_id;
  sequence_no = sequence_no;
  barcode = barcode;
  status = PackageStatus.pending;
  weight_g = parcel.weight_g;
  length_mm = parcel.length_mm;
  width_mm = parcel.width_mm;
  height_mm = parcel.height_mm;
  label_url = none;
  label_generated_at = none;
  packed_at = none;
}

-- `enumerate(payload.packages, start=1)`; the i-th parcel gets the i-th random barcode
unfoldable pub add_parcels : (ℕ → ℕ) → ℕ → ℕ → List PackageCreate → Tx Db Unit
add_parcels barcodes shipment_id index [] = pure tt
add_parcels barcodes shipment_id index (parcel ∷ packages) = do
  package_id ← uuid4
  modify λ db. record db {
    packages = db.packages ++ new_package package_id shipment_id index (barcodes index) parcel ∷ [];
  }
  add_parcels barcodes shipment_id (index + 1) packages

-- `payload.promised_delivery_at or now + window`
abbrev pub promise : ℕ → ShipmentCreate → ℕ
promise now payload = elim payload.promised_delivery_at [
  | some t ↦ t
  | none ↦ now + window payload.service_level
]

-- The shipment's row as `create` adds it.
abbrev pub new_shipment :
    ℕ → ℕ → ℕ → ℕ → WarehouseRef → ReservationResult → ShipmentCreate → Principal → Shipment
new_shipment now shipment_id reference_no address_id warehouse reservation payload principal =
    record {
      id = shipment_id;
      reference_no = reference_no;
      customer_reference = payload.customer_reference;
      status = created;
      service_level = payload.service_level;
      priority = payload.priority;
      origin_warehouse_id = warehouse.id;
      origin_warehouse_code = warehouse.code;
      courier_id = none;
      created_by = some principal.user_id;
      destination_address_id = address_id;
      total_weight_g = sum_by (λ l. l.unit_weight_g * l.quantity) reservation.lines;
      declared_value = payload.declared_value;
      currency = payload.currency;
      promised_delivery_at = some (promise now payload);
      dispatched_at = none;
      picked_up_at = none;
      delivered_at = none;
      cancelled_at = none;
      delivery_attempt_count = 0;
      failure_reason = none;
      special_instructions = payload.special_instructions;
      dispatch_workflow_id = none;
      version = 1;
      created_at = now;
      deleted_at = none;
      deleted_by = none;
    }

-- `created.destination_address.city`
abbrev pub city_of : ℕ → List Address → Option String
city_of address_id addresses = elim (first_where (λ a. a.id == address_id) addresses) [
  | none ↦ none
  | some a ↦ some a.city
]

-- The event shipment.created of a row that was just added.
unfoldable pub emit_created : ℕ → Tx Db Shipment
emit_created shipment_id = do
  found ← get_with_detail shipment_id
  s ← or_raise found key_error
  city ← gets λ db. city_of s.destination_address_id db.addresses
  lines ←
      gets
        λ db. map (λ i. (i.sku_id, i.quantity)) (rows_where (λ i. i.shipment_id == s.id) db.items)
  emit "shipment.created" s.id (recorded (summary s) s.created_by city lines)
  pure s

-- The items, the parcels and the trail of a shipment that was added.
unfoldable pub add_contents :
    (ℕ → ℕ) → Shipment → List ReservedLine → ShipmentCreate → Principal → Tx Db Unit
add_contents barcodes shipment lines payload principal = do
  add_items shipment.id lines
  add_parcels barcodes shipment.id 1 payload.packages
  record_status shipment none created principal none
  flush

-- `create`
unfoldable pub create :
    ℕ → Result ReservationResult → (ℕ → ℕ) → ShipmentCreate → Principal → ℕ → Tx Db Shipment
create now answer barcodes payload principal shipment_id = do
  warehouse ← require_operational payload.origin_warehouse_id
  reservation ← lift answer
  address_id ← uuid4
  modify λ db. record db { addresses = db.addresses ++ payload.destination_address address_id ∷ [] }
  flush
  reference_no ← next_reference_no
  let shipment =
      new_shipment now shipment_id reference_no address_id warehouse reservation payload principal
  modify λ db. record db { shipments = db.shipments ++ shipment ∷ [] }
  flush
  add_contents barcodes shipment reservation.lines payload principal
  emit_created shipment_id
