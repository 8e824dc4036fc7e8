-- ===== src/Warehouse/Api/Requests.antt =====
-- The requests that services/warehouse/src/warehouse/api/warehouses.py routes to a handler which
-- changes something.
use smart_logistics.Base.{ℕ, String, Option}
use smart_logistics.Warehouse.Models.{WarehouseStatus}
use smart_logistics.Warehouse.Schemas.{
  WeeklyScheduleUpdate, WarehouseZoneCreate, WarehouseZoneUpdate, WarehouseCreate, WarehouseUpdate,
}
use smart_logistics.Warehouse.Api as Api
use smart_logistics.Warehouse.Api.{Handler}

pub data Request : Type 0 where
  create_warehouse : WarehouseCreate → Request
  update_warehouse : ℕ → WarehouseUpdate → Request
  change_status : ℕ → WarehouseStatus → Option String → Request
  delete_warehouse restore_warehouse : ℕ → Request
  add_zone : ℕ → WarehouseZoneCreate → Request
  update_zone : ℕ → WarehouseZoneUpdate → Request
  delete_zone : ℕ → Request
  replace_hours : ℕ → WeeklyScheduleUpdate → Request

abbrev pub serve : ℕ → Request → Handler
serve now (create_warehouse payload) = Api.create_warehouse now payload
serve now (update_warehouse warehouse_id payload) = Api.update_warehouse now warehouse_id payload
serve now (change_status warehouse_id status reason) =
    Api.change_status now warehouse_id status reason
serve now (delete_warehouse warehouse_id) = Api.delete_warehouse now warehouse_id
serve now (restore_warehouse warehouse_id) = Api.restore_warehouse now warehouse_id
serve now (add_zone warehouse_id payload) = Api.add_zone warehouse_id payload
serve now (update_zone zone_id payload) = Api.update_zone zone_id payload
serve now (delete_zone zone_id) = Api.delete_zone now zone_id
serve now (replace_hours warehouse_id payload) = Api.replace_hours warehouse_id payload
