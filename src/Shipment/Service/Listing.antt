-- ===== src/Shipment/Service/Listing.antt =====
-- services/shipment/src/shipment/services/shipments.py: `list`, with the scope
-- of the caller.
use smart_logistics.Base.{
  ℕ, String, Bool, ◌&&◌, Option, none, some, List, [], rows_where, if◌then◌else◌,
}
use smart_logistics.Platform.Session.{Tx, pure}
use smart_logistics.Platform.Roles.{courier, is_role}
use smart_logistics.Platform.Auth.{Principal, scoped_warehouse_ids}
use smart_logistics.Shipment.Models.{Db, Shipment}
use smart_logistics.Shipment.Repository.{Filters, passes, list_shipments}
use smart_logistics.Shipment.Service.Requests.{visible}

-- The scope that the caller's role sets; couriers without a profile are shown nothing.
abbrev pub scoped_to_courier : ℕ → Filters → Filters
scoped_to_courier c f = record f { allowed_warehouse_ids = none; restrict_to_courier_id = some c }

abbrev pub scoped_to_warehouses : Option (List ℕ) → Filters → Filters
scoped_to_warehouses ids f = record f { allowed_warehouse_ids = ids; restrict_to_courier_id = none }

module _ (ilike : String → String → Bool) (print : ℕ → String) (now : ℕ) where
  unfoldable pub list : Filters → ℕ → ℕ → Principal → Tx Db (List Shipment × ℕ)
  list f limit offset p =
      if is_role p.role courier
      then elim p.courier_id [
        | none ↦ pure ([], 0)
        | some c ↦ list_shipments ilike print now (scoped_to_courier c f) limit offset
      ]
      else list_shipments ilike print now (scoped_to_warehouses (scoped_warehouse_ids p) f) limit
          offset

  -- The rows that pass the filters and that the caller may see.
  abbrev pub shown : Filters → Principal → Db → List Shipment
  shown f p db =
      rows_where (λ s. visible s p && passes ilike print now f db.addresses s) db.shipments
