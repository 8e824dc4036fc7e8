-- ===== src/Warehouse/Service/Queries.antt =====
-- WarehouseService (services/warehouse/src/warehouse/services/warehouses.py): what it reads, and `snapshot` and `emit` of
-- events.py.
use smart_logistics.Base.{ℕ, String, Bool, true, false, not, Option, none, some, List, is_some}
use smart_logistics.Platform.Errors.{not_found, key_error}
use smart_logistics.Platform.Session.{Tx, ◌>>=◌, ◌>>◌, pure, modify, or_raise, raise_if}
use smart_logistics.Platform.Auth.{Principal, may_touch_warehouse, scoped_warehouse_ids}
use smart_logistics.Platform.Events.{Topic}
use smart_logistics.Platform.Outbox.{add_event}
use smart_logistics.Warehouse.Models.{Db, Warehouse, active, status_value, Snapshot, uuid4}
use smart_logistics.Warehouse.Repository as Repository
use smart_logistics.Warehouse.Repository.{
  Filters, list_warehouses, get_zone, list_hours, clear_hours, save_warehouse, save_zone,
}

-- WarehouseEvents
abbrev pub warehouse_created : String
warehouse_created = "warehouse.created"

abbrev pub warehouse_updated : String
warehouse_updated = "warehouse.updated"

abbrev pub warehouse_status_changed : String
warehouse_status_changed = "warehouse.status_changed"

abbrev pub warehouse_deleted : String
warehouse_deleted = "warehouse.deleted"

abbrev pub warehouse_restored : String
warehouse_restored = "warehouse.restored"

abbrev pub snapshot : Warehouse → Option (String × Option String) → Snapshot
snapshot w change = record {
  id = w.id;
  code = w.code;
  name = w.name;
  status = status_value w.status;
  city = w.city;
  deleted = is_some w.deleted_at;
  updated_at = w.updated_at;
  change = change;
}

unfoldable pub emit : String → Warehouse → Option (String × Option String) → Tx Db Unit
emit event_type w change = do
  event_id ← uuid4
  modify λ db. record db {
    outbox = add_event Topic.warehouse event_id event_type w.id (snapshot w change) db.outbox;
  }

unfoldable pub get : ℕ → Principal → Tx Db Warehouse
get warehouse_id principal = do
  found ← Repository.get warehouse_id false
  w ← or_raise found not_found
  raise_if (not (may_touch_warehouse principal warehouse_id)) not_found
  pure w

unfoldable pub list :
    (String → String → Bool) → Filters → ℕ → ℕ → Principal → Tx Db (List Warehouse × ℕ)
unfolding list_warehouses
list ilike f limit offset principal =
    list_warehouses ilike (record f { allowed_ids = scoped_warehouse_ids principal }) limit offset

unfoldable pub locations : (String → String → Bool) → Option String → Tx Db (List Warehouse)
unfolding list_warehouses
locations ilike city = do
  page ←
      list_warehouses ilike
        (record {
          city = city;
          type = none;
          status = some active;
          search = none;
          allowed_ids = none;
        })
        200 0
  pure page.0

-- `_reload`; its assertion is an exception that nothing handles
unfoldable pub reload : ℕ → Tx Db Warehouse
reload warehouse_id = do found ← Repository.get warehouse_id true; or_raise found key_error
