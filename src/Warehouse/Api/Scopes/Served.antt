-- ===== src/Warehouse/Api/Scopes/Served.antt =====
-- The routes of services/warehouse/src/warehouse/api/warehouses.py that change something.
use smart_logistics.Base.{ℕ, ◌≡◌, true, false, distinct}
use smart_logistics.Platform.Auth.{Principal, is_admin}
use smart_logistics.Warehouse.Models.{Db}
use smart_logistics.Warehouse.Service as Service
use smart_logistics.Warehouse.Api as Api
use smart_logistics.Warehouse.Api.{operators_or_admins}
use smart_logistics.Warehouse.Api.Requests.{
  Request, create_warehouse, update_warehouse, change_status, delete_warehouse, restore_warehouse,
  add_zone, update_zone, delete_zone, replace_hours, serve,
}
use smart_logistics.Warehouse.Api.Scopes.{zone_ids, Scoped, route-Scoped, admins-Scoped}
use smart_logistics.Warehouse.Api.Scopes.Zones.{
  add_zone-Scoped, update_zone-Scoped, delete_zone-Scoped,
}
use smart_logistics.Warehouse.Api.Scopes.Hours.{replace_hours-Scoped}

-- A caller who is no administrator changes no warehouse, sends no event, and changes, adds and
-- removes zones and operating hours only of warehouses that an operator is assigned to: whatever
-- the request and however it ends, in a database whose zones have distinct ids.
pub served-Scoped :
    (now : ℕ) (r : Request) (p : Principal) (db : Db)
    → is_admin p ≡ false
    → distinct (zone_ids db.zones) ≡ true
    → Scoped p db (serve now r p db).1
unfolding Api.create_warehouse Api.update_warehouse Api.change_status Api.delete_warehouse
    Api.restore_warehouse Api.add_zone Api.update_zone Api.delete_zone Api.replace_hours
served-Scoped now (create_warehouse payload) p db other d =
    admins-Scoped p (Service.create now payload) db other
served-Scoped now (update_warehouse w payload) p db other d =
    admins-Scoped p (Service.update now w payload p) db other
served-Scoped now (change_status w status reason) p db other d =
    admins-Scoped p (Service.change_status now w status reason p) db other
served-Scoped now (delete_warehouse w) p db other d =
    admins-Scoped p (Service.delete now w p) db other
served-Scoped now (restore_warehouse w) p db other d =
    admins-Scoped p (Service.restore now w) db other
served-Scoped now (add_zone w payload) p db other d =
    route-Scoped operators_or_admins p (Service.add_zone w payload p) db
      (λ a db'. add_zone-Scoped p w payload a db db')
served-Scoped now (update_zone z payload) p db other d =
    route-Scoped operators_or_admins p (Service.update_zone z payload p) db
      (λ a db'. update_zone-Scoped z payload p a db db' d)
served-Scoped now (delete_zone z) p db other d =
    route-Scoped operators_or_admins p (Service.delete_zone now z p) db
      (λ a db'. delete_zone-Scoped now z p db db' d)
served-Scoped now (replace_hours w payload) p db other d =
    route-Scoped operators_or_admins p (Service.replace_hours w payload p) db
      (λ a db'. replace_hours-Scoped w payload p a db db')
