-- ===== src/Warehouse/Service/Layout.antt =====
-- WarehouseService (services/warehouse/src/warehouse/services/warehouses.py): the zones and opening
-- hours of a warehouse, and who may change them.
use smart_logistics.Base.{ℕ, Bool, false, not, ◌&&◌, ◌||◌, some, List, is_none, if◌then◌else◌}
use smart_logistics.Platform.Errors.{not_found, permission_denied, SqlState, integrity_error}
use smart_logistics.Platform.Session.{Tx, ◌>>=◌, ◌>>◌, pure, modify, or_raise, raise_if}
use smart_logistics.Platform.Roles.{warehouse_operator, courier, is_role}
use smart_logistics.Platform.Auth.{Principal, is_admin, may_touch_warehouse}
use smart_logistics.Warehouse.Models.{Db, WarehouseZone, WarehouseOperatingHours, flush, uuid4}
use smart_logistics.Warehouse.Schemas.{
  WeeklyScheduleUpdate, WarehouseZoneCreate, WarehouseZoneUpdate, is_null,
}
use smart_logistics.Warehouse.Repository as Repository
use smart_logistics.Warehouse.Repository.{
  Filters, list_warehouses, get_zone, list_hours, clear_hours, save_warehouse, save_zone,
}
use smart_logistics.Warehouse.Service.Rows.{new_zone, updated_zone}
use smart_logistics.Warehouse.Service.Queries.{get}
use smart_logistics.Warehouse.Service.Facilities.{add_zone_row, add_hours}

-- `_assert_can_manage`
abbrev pub manages : ℕ → Principal → Bool
manages warehouse_id principal =
    is_admin principal
    || (is_role principal.role warehouse_operator && may_touch_warehouse principal warehouse_id)

unfoldable pub assert_can_manage : ℕ → Principal → Tx Db Unit
assert_can_manage warehouse_id principal = do
  found ← Repository.get warehouse_id false
  raise_if (is_none found) not_found
  raise_if (not (manages warehouse_id principal)) permission_denied

unfoldable pub add_zone : ℕ → WarehouseZoneCreate → Principal → Tx Db WarehouseZone
unfolding assert_can_manage
add_zone warehouse_id payload principal = do
  assert_can_manage warehouse_id principal
  zone_id ← uuid4
  add_zone_row (new_zone zone_id warehouse_id payload)
  flush
  pure (new_zone zone_id warehouse_id payload)

abbrev pub write_zone : WarehouseZone → Tx Db Unit
write_zone z = modify λ db. record db { zones = save_zone z db.zones }

unfoldable pub update_zone : ℕ → WarehouseZoneUpdate → Principal → Tx Db WarehouseZone
unfolding assert_can_manage
update_zone zone_id payload principal = do
  found ← get_zone zone_id
  z ← or_raise found not_found
  assert_can_manage z.warehouse_id principal
  raise_if
      (is_null payload.name
        || is_null payload.type
        || is_null payload.capacity_units
        || is_null payload.is_active)
      (integrity_error SqlState.not_null_violation)
  write_zone (updated_zone payload z)
  flush
  pure (updated_zone payload z)

unfoldable pub delete_zone : ℕ → ℕ → Principal → Tx Db Unit
unfolding assert_can_manage
delete_zone now zone_id principal = do
  found ← get_zone zone_id
  z ← or_raise found not_found
  assert_can_manage z.warehouse_id principal
  write_zone
      (record z { is_active = false; deleted_at = some now; deleted_by = some principal.user_id })
  flush

-- Who may read the hours: a courier may, of any warehouse that is not deleted.
abbrev pub assert_sees_hours : ℕ → Principal → Tx Db Unit
assert_sees_hours warehouse_id principal =
    if not (is_role principal.role courier)
    then (do get warehouse_id principal; pure tt)
    else (do found ← Repository.get warehouse_id false; raise_if (is_none found) not_found)

unfoldable pub list_hours_of : ℕ → Principal → Tx Db (List WarehouseOperatingHours)
unfolding get list_hours
list_hours_of warehouse_id principal = do
  assert_sees_hours warehouse_id principal
  list_hours warehouse_id

unfoldable pub replace_hours :
    ℕ → WeeklyScheduleUpdate → Principal → Tx Db (List WarehouseOperatingHours)
unfolding assert_can_manage add_hours
replace_hours warehouse_id payload principal = do
  assert_can_manage warehouse_id principal
  clear_hours warehouse_id
  add_hours warehouse_id payload.days
  flush
  list_hours warehouse_id
