-- ===== src/Inventory/Tests/Samples.antt =====
-- One SKU (1) at one warehouse (10), on the position 5 with ten pieces on hand, and a request of
-- four of them for the shipment 7.
use smart_logistics.Base.{arith, ◌+ℤ◌, ℕ, Option, none, some, [], ◌∷◌, refl, pos, true, false}
use smart_logistics.Platform.Roles.{admin}
use smart_logistics.Platform.Auth.{Principal}
use smart_logistics.Inventory.Models.{
  Db, Sku, InventoryItem, InventoryReservation, StockMovement, WarehouseRef, held, inbound_receipt,
  adjustment, unique_constraints,
}
use smart_logistics.Base.{negsuc}
use smart_logistics.Inventory.Schemas.{ReservationRequest}
use smart_logistics.Inventory.Stock.{StockAdjustment}
use smart_logistics.Inventory.Accounts.Valid.{IsValid}

abbrev pub sku : Sku
sku = record {
  id = 1;
  code = "SKU-1";
  name = "Kettle";
  description = none;
  category = none;
  weight_g = 900;
  length_mm = 200;
  width_mm = 200;
  height_mm = 250;
  is_fragile = false;
  is_hazmat = false;
  requires_cold_chain = false;
  unit_value = some 4500;
  currency = "PKR";
  is_active = true;
  deleted_at = none;
  deleted_by = none;
}

abbrev pub warehouse : WarehouseRef
warehouse = record {
  id = 10;
  code = "KHI-1";
  name = "Karachi";
  status = "active";
  city = "Karachi";
  is_deleted = false;
  source_updated_at = 100;
}

abbrev pub receipt : StockMovement
receipt = record {
  id = 6;
  inventory_item_id = 5;
  warehouse_id = 10;
  sku_id = 1;
  movement_type = inbound_receipt;
  quantity_delta = pos 10;
  resulting_on_hand = pos 10;
  reference_type = some "opening";
  reference_id = none;
  actor_id = some 2;
  notes = some "Opening stock";
}

abbrev pub position : ℕ → InventoryItem
position reserved = record {
  id = 5;
  warehouse_id = 10;
  sku_id = 1;
  zone_id = none;
  on_hand_qty = pos 10;
  reserved_qty = pos reserved;
  reorder_level = 2;
  version = 1;
}

-- No hold yet.
abbrev pub stocked : Db
stocked = record {
  skus = sku ∷ [];
  items = position 0 ∷ [];
  reservations = [];
  movements = receipt ∷ [];
  warehouse_refs = warehouse ∷ [];
  outbox = record { rows = []; next_seq = 1 };
  next_id = 100;
}

pub stocked-IsValid : IsValid stocked
unfolding unique_constraints ◌+ℤ◌
stocked-IsValid = record {
  positions = ((refl, refl, omega arith), tt);
  references = tt;
  entries = (refl, tt);
  fresh = (omega arith, tt);
  holds = refl;
  ledger = refl;
  unique = refl;
}

abbrev pub hold : Option ℕ → InventoryReservation
hold confirmed_at = record {
  id = 8;
  inventory_item_id = 5;
  shipment_id = 7;
  warehouse_id = 10;
  sku_id = 1;
  quantity = 4;
  status = held;
  expires_at = some 500;
  confirmed_at = confirmed_at;
  committed_at = none;
  released_at = none;
  release_reason = none;
}

-- Four pieces are held for the shipment 7.
abbrev pub holding : Option ℕ → Db
holding confirmed_at = record stocked {
  items = position 4 ∷ [];
  reservations = hold confirmed_at ∷ [];
}

pub holding-IsValid : (confirmed_at : Option ℕ) → IsValid (holding confirmed_at)
unfolding unique_constraints ◌+ℤ◌
holding-IsValid confirmed_at = record {
  positions = ((refl, refl, omega arith), tt);
  references = (refl, tt);
  entries = (refl, tt);
  fresh = (omega arith, tt);
  holds = ground arith;
  ledger = refl;
  unique = refl;
}

abbrev pub request : ReservationRequest
request = record {
  shipment_id = 7;
  warehouse_id = 10;
  lines = record { sku_id = 1; quantity = 4 } ∷ [];
}

abbrev pub manager : Principal
manager = record { user_id = 2; role = admin; warehouse_ids = []; courier_id = none }

-- Three pieces were found broken.
abbrev pub breakage : StockAdjustment
breakage = record { movement_type = adjustment; quantity_delta = negsuc 2; notes = none }
