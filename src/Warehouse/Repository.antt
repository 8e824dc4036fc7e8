-- ===== src/Warehouse/Repository.antt =====
-- services/warehouse/src/warehouse/repository.py: the queries. `ilike` compares a column with
-- `%<text stripped>%`, which the database does. What is loaded with a warehouse is the rows of the
-- other tables. A listing's rows come in the order of the table.
use smart_logistics.Base.{
  ℕ, String, Bool, true, not, ◌&&◌, ◌||◌, Option, none, some, List, [], ◌∷◌, ltb, ◌==◌, str_eq,
  is_none, if◌then◌else◌, satisfies, rows_where, first_where, update_where, length,
}
use smart_logistics.Platform.Errors.{ok}
use smart_logistics.Platform.Session.{Tx, gets, modify}
use smart_logistics.Inventory.Stock.{take, drop, in_warehouses}
use smart_logistics.Warehouse.Models.{
  Db, Warehouse, WarehouseType, WarehouseStatus, WarehouseZone, WarehouseOperatingHours, is_type,
  is_status,
}

abbrev pub warehouse_with_id : ℕ → List Warehouse → Option Warehouse
warehouse_with_id warehouse_id rows = first_where (λ w. w.id == warehouse_id) rows

abbrev pub unless_deleted : Bool → Option Warehouse → Option Warehouse
unless_deleted include_deleted none = none
unless_deleted include_deleted (some w) =
    if is_none w.deleted_at || include_deleted then some w else none

-- WarehouseRepository.get
unfoldable pub get : ℕ → Bool → Tx Db (Option Warehouse)
get warehouse_id include_deleted =
    gets λ db. unless_deleted include_deleted (warehouse_with_id warehouse_id db.warehouses)

-- `if city:`, and `if search:` on two columns
abbrev pub in_city : (String → String → Bool) → Option String → Warehouse → Bool
in_city ilike none w = true
in_city ilike (some city) w = str_eq city "" || ilike city w.city

abbrev pub is_found : (String → String → Bool) → Option String → Warehouse → Bool
is_found ilike none w = true
is_found ilike (some text) w = str_eq text "" || ilike text w.code || ilike text w.name

pub record Filters : Type 0 where
  pub city : Option String
  pub type : Option WarehouseType
  pub status : Option WarehouseStatus
  pub search : Option String
  pub allowed_ids : Option (List ℕ)

unfoldable pub is_listed : (String → String → Bool) → Filters → Warehouse → Bool
is_listed ilike f w =
    is_none w.deleted_at
    && in_city ilike f.city w
    && satisfies is_type f.type w.type
    && satisfies is_status f.status w.status
    && is_found ilike f.search w
    && in_warehouses f.allowed_ids w.id

-- One page, and the number of all rows.
unfoldable pub list_warehouses :
    (String → String → Bool) → Filters → ℕ → ℕ → Tx Db (List Warehouse × ℕ)
unfolding is_listed
list_warehouses ilike f limit offset db =
    let rows = rows_where (is_listed ilike f) db.warehouses in
    ok ((take limit (drop offset rows), length rows), db)

-- A live row, or none.
abbrev pub live_zone : Option WarehouseZone → Option WarehouseZone
live_zone none = none
live_zone (some z) = if is_none z.deleted_at then some z else none

unfoldable pub get_zone : ℕ → Tx Db (Option WarehouseZone)
get_zone zone_id = gets λ db. live_zone (first_where (λ z. z.id == zone_id) db.zones)

-- `order_by(day_of_week)`
unfoldable pub insert_day :
    WarehouseOperatingHours → List WarehouseOperatingHours → List WarehouseOperatingHours
insert_day h [] = h ∷ []
insert_day h (g ∷ rest) =
    let later = insert_day h rest in
    if ltb g.day_of_week h.day_of_week then g ∷ later else h ∷ g ∷ rest

unfoldable pub sort_days : List WarehouseOperatingHours → List WarehouseOperatingHours
unfolding insert_day
sort_days [] = []
sort_days (h ∷ rest) = insert_day h (sort_days rest)

abbrev pub hours_of : ℕ → List WarehouseOperatingHours → List WarehouseOperatingHours
hours_of warehouse_id = rows_where (λ h. h.warehouse_id == warehouse_id)

unfoldable pub list_hours : ℕ → Tx Db (List WarehouseOperatingHours)
unfolding sort_days
list_hours warehouse_id = gets λ db. sort_days (hours_of warehouse_id db.hours)

unfoldable pub clear_hours : ℕ → Tx Db Unit
clear_hours warehouse_id =
    modify
      λ db. record db { hours = rows_where (λ h. not (h.warehouse_id == warehouse_id)) db.hours }

-- UPDATE .. WHERE id = ..
abbrev pub save_warehouse : Warehouse → List Warehouse → List Warehouse
save_warehouse w = update_where (λ v. v.id == w.id) (λ _. w)

abbrev pub save_zone : WarehouseZone → List WarehouseZone → List WarehouseZone
save_zone z = update_where (λ y. y.id == z.id) (λ _. z)
