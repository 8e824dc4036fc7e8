-- ===== src/Warehouse/Service.antt =====
-- services/warehouse/src/warehouse/services/warehouses.py: WarehouseService.
pub mod Rows
pub mod Queries
pub mod Facilities
pub mod Layout
pub use smart_logistics.Warehouse.Service.Rows.{
  new_warehouse, new_zone, new_hours, updated, same_option, deleted_warehouse, restored_warehouse,
  updated_zone,
}
unfoldable pub use smart_logistics.Warehouse.Service.Rows.{has_null, is_same_row, touched}
pub use smart_logistics.Warehouse.Service.Queries.{
  warehouse_created, warehouse_updated, warehouse_status_changed, warehouse_deleted,
  warehouse_restored, snapshot,
}
unfoldable pub use smart_logistics.Warehouse.Service.Queries.{emit, get, list, locations, reload}
pub use smart_logistics.Warehouse.Service.Facilities.{add_zone_row, add_hours_row, write_warehouse}
unfoldable pub use smart_logistics.Warehouse.Service.Facilities.{
  add_zones, add_hours, create, update, change_status, delete, restore,
}
pub use smart_logistics.Warehouse.Service.Layout.{manages, write_zone, assert_sees_hours}
unfoldable pub use smart_logistics.Warehouse.Service.Layout.{
  assert_can_manage, add_zone, update_zone, delete_zone, list_hours_of, replace_hours,
}
