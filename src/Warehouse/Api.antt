-- ===== src/Warehouse/Api.antt =====
-- services/warehouse/src/warehouse/api/warehouses.py with api/deps.py: the routes that change
-- something, each with the roles that it asks for. `create_warehouse` is given for a request without
-- an Idempotency-Key.
pub mod Requests
pub mod Scopes
use smart_logistics.Base.{ℕ, String, Option, List, [], ◌∷◌}
use smart_logistics.Platform.Errors.{Result}
use smart_logistics.Platform.Roles.{UserRole, admin, customer_support, warehouse_operator}
use smart_logistics.Platform.Auth.{Principal, route}
use smart_logistics.Warehouse.Models.{Db, WarehouseStatus}
use smart_logistics.Warehouse.Schemas.{
  WeeklyScheduleUpdate, WarehouseZoneCreate, WarehouseZoneUpdate, WarehouseCreate, WarehouseUpdate,
}
use smart_logistics.Warehouse.Service as Service

-- AdminPrincipal and OperatorOrAdmin
abbrev pub admins : List UserRole
admins = admin ∷ []

abbrev pub operators_or_admins : List UserRole
operators_or_admins = admin ∷ warehouse_operator ∷ []

-- The answer to a caller, and the database afterwards.
abbrev pub Handler : Type 0
Handler = Principal → Db → Result (Unit {0}) × Db

unfoldable pub create_warehouse : ℕ → WarehouseCreate → Handler
create_warehouse now payload p = route admins p (Service.create now payload)

unfoldable pub update_warehouse : ℕ → ℕ → WarehouseUpdate → Handler
update_warehouse now warehouse_id payload p =
    route admins p (Service.update now warehouse_id payload p)

unfoldable pub change_status : ℕ → ℕ → WarehouseStatus → Option String → Handler
change_status now warehouse_id status reason p =
    route admins p (Service.change_status now warehouse_id status reason p)

unfoldable pub delete_warehouse : ℕ → ℕ → Handler
delete_warehouse now warehouse_id p = route admins p (Service.delete now warehouse_id p)

unfoldable pub restore_warehouse : ℕ → ℕ → Handler
restore_warehouse now warehouse_id p = route admins p (Service.restore now warehouse_id)

unfoldable pub add_zone : ℕ → WarehouseZoneCreate → Handler
add_zone warehouse_id payload p =
    route operators_or_admins p (Service.add_zone warehouse_id payload p)

unfoldable pub update_zone : ℕ → WarehouseZoneUpdate → Handler
update_zone zone_id payload p = route operators_or_admins p (Service.update_zone zone_id payload p)

unfoldable pub delete_zone : ℕ → ℕ → Handler
delete_zone now zone_id p = route operators_or_admins p (Service.delete_zone now zone_id p)

unfoldable pub replace_hours : ℕ → WeeklyScheduleUpdate → Handler
replace_hours warehouse_id payload p =
    route operators_or_admins p (Service.replace_hours warehouse_id payload p)
