-- ===== src/Warehouse/Replicated.antt =====
-- Warehouses as Inventory sees them: the events of services/warehouse/src/warehouse/events.py, applied by
-- `upsert_warehouse` of services/inventory/src/inventory/services/replicas.py and read by
-- `require_operational`.
use smart_logistics.Base.{
  ℕ, ◌≡◌, refl, ap, ◌∙◌, Bool, true, false, not, Option, none, some, List, [], ◌∷◌, map, arith,
  if◌then◌else◌, str_eq, is_none, is_some, All,
}
use smart_logistics.Platform.Errors.{ok, err, warehouse_not_operational}
use smart_logistics.Inventory.Models as Inv
use smart_logistics.Inventory.Replicas.{upsert_warehouse, require_operational, find_ref}
use smart_logistics.Inventory.Replicas.Latest.{
  deliver_all, NotNewer, IsBefore, IsAmong, replica_latest,
}
use smart_logistics.Platform.Session.{finish}
use smart_logistics.Warehouse.Models.{
  Warehouse, WarehouseStatus, active, maintenance, inactive, status_value, is_status,
  is_operational, Snapshot,
}
use smart_logistics.Warehouse.Service.{snapshot}

-- The values that `upsert_warehouse` takes from a payload.
abbrev pub replica : Snapshot → Inv.WarehouseRef
replica s = record {
  id = s.id;
  code = s.code;
  name = s.name;
  status = s.status;
  city = s.city;
  is_deleted = s.deleted;
  source_updated_at = s.updated_at;
}

-- The replica of a row of Warehouse; what a payload adds to it is not kept.
abbrev pub replica_of : Warehouse → Inv.WarehouseRef
replica_of w = replica (snapshot w none)

-- The events of a topic, each in a transaction of its own.
abbrev pub consume : List Snapshot → Inv.Db → Inv.Db
consume [] db = db
consume (s ∷ rest) db = consume rest (finish db (upsert_warehouse (replica s) db)).1

consume-deliver_all :
    (list : List Snapshot) (db : Inv.Db)
    → (consume list db).warehouse_refs ≡ deliver_all (map replica list) db.warehouse_refs
unfolding upsert_warehouse
consume-deliver_all [] db = refl
consume-deliver_all (s ∷ rest) db =
    consume-deliver_all rest (finish db (upsert_warehouse (replica s) db)).1

active_text : (s : WarehouseStatus) → str_eq (status_value s) "active" ≡ is_status s active
active_text active = refl
active_text maintenance = refl
active_text inactive = refl

is_none-is_some {ℓ} : {A : Type ℓ} (o : Option A) → not (is_some o) ≡ is_none o
is_none-is_some none = refl
is_none-is_some (some a) = refl

-- Inventory decides as Warehouse would.
pub replica-operational : (w : Warehouse) → Inv.is_operational (replica_of w) ≡ is_operational w
replica-operational w = rw (active_text w.status, is_none-is_some w.deleted_at) refl

required :
    (warehouse_id : ℕ) (ref : Inv.WarehouseRef) (db : Inv.Db) (b : Bool)
    → find_ref warehouse_id db.warehouse_refs ≡ some ref
    → Inv.is_operational ref ≡ b
    → require_operational warehouse_id db
      ≡ (if b then ok (ref, db) else err warehouse_not_operational)
unfolding require_operational
required warehouse_id ref db true found e = ground arith
required warehouse_id ref db false found e = ground arith

-- Inventory follows Warehouse: whatever snapshots it has consumed, in whatever order and however
-- often each, if the latest row of a warehouse is among them, every other snapshot of that
-- warehouse is of an earlier time and Inventory knew nothing later, then stock may be held there
-- exactly if the warehouse is active and not deleted, and a request is refused with
-- warehouse_not_operational otherwise.
pub inventory_follows :
    (w : Warehouse) (list : List Snapshot) (db : Inv.Db)
    → IsAmong (replica_of w) (map replica list)
    → All (IsBefore (replica_of w)) (map replica list)
    → NotNewer (replica_of w) (find_ref w.id db.warehouse_refs)
    → require_operational w.id (consume list db) ≡ (
        if is_operational w
        then ok (replica_of w, consume list db)
        else err warehouse_not_operational)
inventory_follows w list db among before old =
    let found : find_ref w.id (consume list db).warehouse_refs ≡ some (replica_of w) =
      ap (λ (refs : List Inv.WarehouseRef). find_ref w.id refs) (consume-deliver_all list db)
      ∙ replica_latest (replica_of w) (map replica list) db.warehouse_refs among before old in
    required w.id (replica_of w) (consume list db) (is_operational w) found (replica-operational w)
