-- ===== src/Warehouse/Service/Facilities.antt =====
-- WarehouseService (services/warehouse/src/warehouse/services/warehouses.py): a warehouse is created, updated, deleted
-- and restored.
use smart_logistics.Base.{ℕ, String, true, Option, none, some, List, [], ◌∷◌, ◌++◌}
use smart_logistics.Platform.Errors.{not_found, SqlState, integrity_error}
use smart_logistics.Platform.Session.{Tx, ◌>>=◌, ◌>>◌, pure, modify, or_raise, raise_if}
use smart_logistics.Platform.Auth.{Principal}
use smart_logistics.Warehouse.Models.{
  Db, Warehouse, WarehouseStatus, status_value, WarehouseZone, WarehouseOperatingHours, flush,
  uuid4,
}
use smart_logistics.Warehouse.Schemas.{
  OperatingHoursWrite, WarehouseZoneCreate, WarehouseCreate, WarehouseUpdate,
}
use smart_logistics.Warehouse.Repository as Repository
use smart_logistics.Warehouse.Repository.{
  Filters, list_warehouses, get_zone, list_hours, clear_hours, save_warehouse, save_zone,
}
use smart_logistics.Warehouse.Service.Rows.{
  new_warehouse, new_zone, new_hours, updated, has_null, touched, deleted_warehouse,
  restored_warehouse,
}
use smart_logistics.Warehouse.Service.Queries.{
  warehouse_created, warehouse_updated, warehouse_status_changed, warehouse_deleted,
  warehouse_restored, emit, get, reload,
}

abbrev pub add_zone_row : WarehouseZone → Tx Db Unit
add_zone_row z = modify λ db. record db { zones = db.zones ++ z ∷ [] }

unfoldable pub add_zones : ℕ → List WarehouseZoneCreate → Tx Db Unit
add_zones warehouse_id [] = pure tt
add_zones warehouse_id (payload ∷ rest) = do
  zone_id ← uuid4
  add_zone_row (new_zone zone_id warehouse_id payload)
  add_zones warehouse_id rest

abbrev pub add_hours_row : WarehouseOperatingHours → Tx Db Unit
add_hours_row h = modify λ db. record db { hours = db.hours ++ h ∷ [] }

unfoldable pub add_hours : ℕ → List OperatingHoursWrite → Tx Db Unit
add_hours warehouse_id [] = pure tt
add_hours warehouse_id (day ∷ rest) = do
  hours_id ← uuid4
  add_hours_row (new_hours hours_id warehouse_id day)
  add_hours warehouse_id rest

unfoldable pub create : ℕ → WarehouseCreate → Tx Db Warehouse
unfolding add_zones add_hours emit reload
create now payload = do
  warehouse_id ← uuid4
  modify
      λ db. record db { warehouses = db.warehouses ++ new_warehouse now warehouse_id payload ∷ [] }
  flush
  add_zones warehouse_id payload.zones
  add_hours warehouse_id payload.operating_hours
  flush
  emit warehouse_created (new_warehouse now warehouse_id payload) none
  reload warehouse_id

abbrev pub write_warehouse : Warehouse → Tx Db Unit
write_warehouse w = modify λ db. record db { warehouses = save_warehouse w db.warehouses }

unfoldable pub update : ℕ → ℕ → WarehouseUpdate → Principal → Tx Db Warehouse
unfolding get emit reload has_null touched
update now warehouse_id payload principal = do
  w ← get warehouse_id principal
  raise_if (has_null payload) (integrity_error SqlState.not_null_violation)
  write_warehouse (touched now w (updated now payload w))
  flush
  emit warehouse_updated (touched now w (updated now payload w)) none
  reload warehouse_id

unfoldable pub change_status : ℕ → ℕ → WarehouseStatus → Option String → Principal → Tx Db Warehouse
unfolding get emit reload touched
change_status now warehouse_id status reason principal = do
  w ← get warehouse_id principal
  write_warehouse (touched now w (record w { status = status }))
  flush
  emit warehouse_status_changed (touched now w (record w { status = status }))
      (some (status_value w.status, reason))
  reload warehouse_id

unfoldable pub delete : ℕ → ℕ → Principal → Tx Db Unit
unfolding get emit touched
delete now warehouse_id principal = do
  w ← get warehouse_id principal
  write_warehouse (touched now w (deleted_warehouse now principal.user_id w))
  flush
  emit warehouse_deleted (touched now w (deleted_warehouse now principal.user_id w)) none

unfoldable pub restore : ℕ → ℕ → Tx Db Warehouse
unfolding emit reload touched
restore now warehouse_id = do
  found ← Repository.get warehouse_id true
  w ← or_raise found not_found
  write_warehouse (touched now w (restored_warehouse w))
  flush
  emit warehouse_restored (touched now w (restored_warehouse w)) none
  reload warehouse_id
