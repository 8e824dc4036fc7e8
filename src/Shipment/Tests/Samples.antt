-- ===== src/Shipment/Tests/Samples.antt =====
-- A small database of the Shipment service: one shipment (7) from the warehouse 10.
use smart_logistics.Base.{ℕ, ◌+◌, refl, false, none, some, [], ◌∷◌}
use smart_logistics.Platform.Errors.{ok, err}
use smart_logistics.Platform.Session.{Tx}
use smart_logistics.Inventory.Models.{held}
use smart_logistics.Inventory.Schemas.{ReservationResult}
use smart_logistics.Inventory.Tests.Samples.{warehouse, manager}
use smart_logistics.Shipment.StateMachine.{created}
use smart_logistics.Shipment.Models.{Db, Address, Shipment, express, normal}
use smart_logistics.Shipment.Service.Requests.{ShipmentCreate}
use smart_logistics.Shipment.Service.Create.{create}
use smart_logistics.Shipment.Trail.Kept.{IsTrailed}

abbrev pub left_by : {A : Type 0} → Tx Db A → Db → Db
left_by m db = elim (m db) [ ok (a, db') ↦ db' | err e ↦ db ]

abbrev value_of : {A : Type 0} → Tx Db A → Db → A → A
value_of m db a = elim (m db) [ ok (b, db') ↦ b | err e ↦ a ]

abbrev pub no_shipments : Db
no_shipments = record {
  addresses = [];
  shipments = [];
  items = [];
  packages = [];
  history = [];
  warehouse_refs = warehouse ∷ [];
  outbox = record { rows = []; next_seq = 1 };
  next_reference = 1;
  next_id = 100;
}

pub no_shipments-IsTrailed : IsTrailed no_shipments
no_shipments-IsTrailed = record { trails = tt; refers = tt; unique = refl }

abbrev address : ℕ → Address
address address_id = record {
  id = address_id;
  contact_name = "Ayesha Khan";
  contact_phone = "+923001234567";
  contact_email = none;
  line1 = "House 12";
  line2 = none;
  city = "Karachi";
  region = none;
  postal_code = none;
  country_code = "PK";
  latitude = none;
  longitude = none;
  map_place_id = none;
  delivery_instructions = none;
}

abbrev pub payload : ShipmentCreate
payload = record {
  customer_reference = none;
  origin_warehouse_id = 10;
  service_level = express;
  priority = normal;
  destination_address = address;
  items = record { sku_id = 1; quantity = 4 } ∷ [];
  packages = [];
  promised_delivery_at = none;
  declared_value = none;
  currency = "PKR";
  special_instructions = none;
}

abbrev pub reservation : ReservationResult
reservation = record {
  shipment_id = 7;
  warehouse_id = 10;
  status = held;
  confirmed = false;
  expires_at = some 500;
  lines =
      record {
        sku_id = 1;
        quantity = 4;
        sku_code = "SKU-1";
        sku_name = "Kettle";
        unit_weight_g = 900;
        unit_value = some 4500;
        currency = "PKR";
      }
      ∷ [];
}

abbrev pub barcodes : ℕ → ℕ
barcodes i = 1000 + i

abbrev pub creation : Tx Db Shipment
creation = create 200 (ok reservation) barcodes payload manager 7

-- The shipment as `create` adds it.
abbrev pub shipment : Shipment
shipment = record {
  id = 7;
  reference_no = 1;
  customer_reference = none;
  status = created;
  service_level = express;
  priority = normal;
  origin_warehouse_id = 10;
  origin_warehouse_code = "KHI-1";
  courier_id = none;
  created_by = some 2;
  destination_address_id = 100;
  total_weight_g = 3600;
  declared_value = none;
  currency = "PKR";
  promised_delivery_at = some 86600;
  dispatched_at = none;
  picked_up_at = none;
  delivered_at = none;
  cancelled_at = none;
  delivery_attempt_count = 0;
  failure_reason = none;
  special_instructions = none;
  dispatch_workflow_id = none;
  version = 1;
  created_at = 200;
  deleted_at = none;
  deleted_by = none;
}

abbrev pub with_one : Db
with_one = left_by creation no_shipments
