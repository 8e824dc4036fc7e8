-- ===== src/Warehouse/Api/Scopes.antt =====
-- What a caller who is no administrator leaves as it is, through the routes of
-- services/warehouse/src/warehouse/api/warehouses.py.
pub mod Zones
pub mod Hours
pub mod Served
use mathlib.Core.Path.{subst}
use smart_logistics.Base.{
  ℕ, ◌+◌, ◌≡◌, ◌⊎◌, refl, sym, ap, ◌∙◌, String, Bool, true, false, not, ◌&&◌, ◌||◌, Option, none,
  some, List, [], ◌∷◌, ◌++◌, map, arith, ◌==◌, ==_iff, ==_refl, if◌then◌else◌, rows_where,
  update_where, first_where, contains, distinct, distinct_tail, found-head, found-true, All,
  Bool-cases, Option-cases, inl, inr, is_none,
}
use smart_logistics.Platform.Errors.{
  Result, ok, err, ok-injective, not_found, permission_denied, SqlState, integrity_error,
}
use smart_logistics.Platform.Session.{
  Tx, ◌>>=◌, ◌>>◌, >>-eq-ok, >>=-eq-ok, raise_if-ok, or_raise, raise_if, pure, finish,
}
use smart_logistics.Platform.Roles.{UserRole}
use smart_logistics.Platform.Auth.{Principal, is_admin, route, require, require-admins, bodiless}
use smart_logistics.Warehouse.Models.{Db, WarehouseZone, WarehouseOperatingHours, flush, uuid4}
use smart_logistics.Warehouse.Schemas.{
  OperatingHoursWrite, WeeklyScheduleUpdate, WarehouseZoneCreate, WarehouseZoneUpdate, is_null,
}
use smart_logistics.Warehouse.Repository as Repository
use smart_logistics.Warehouse.Repository.{
  get_zone, live_zone, save_zone, clear_hours, list_hours, sort_days, hours_of,
}
use smart_logistics.Warehouse.Service as Service
use smart_logistics.Warehouse.Service.{
  manages, assert_can_manage, new_zone, new_hours, add_hours, updated_zone,
}
use smart_logistics.Warehouse.Api.{admins}

-- Rows of warehouses that the caller does not manage.
abbrev pub foreign_zones : Principal → List WarehouseZone → List WarehouseZone
foreign_zones p = rows_where (λ z. not (manages z.warehouse_id p))

abbrev pub foreign_hours : Principal → List WarehouseOperatingHours → List WarehouseOperatingHours
foreign_hours p = rows_where (λ h. not (manages h.warehouse_id p))

abbrev pub zone_ids : List WarehouseZone → List ℕ
zone_ids = map (λ z. z.id)

-- What a caller who is no administrator leaves as it is.
pub record Scoped (p : Principal) (db db' : Db) : Type 0 where
  pub warehouses : db'.warehouses ≡ db.warehouses
  pub zones : foreign_zones p db'.zones ≡ foreign_zones p db.zones
  pub hours : foreign_hours p db'.hours ≡ foreign_hours p db.hours
  pub outbox : db'.outbox ≡ db.outbox

pub same-Scoped : (p : Principal) (db : Db) → Scoped p db db
same-Scoped p db = record { warehouses = refl; zones = refl; hours = refl; outbox = refl }

pub then-Scoped : (p : Principal) (a b c : Db) → Scoped p a b → Scoped p b c → Scoped p a c
then-Scoped p a b c f g = record {
  warehouses = g.warehouses ∙ f.warehouses;
  zones = g.zones ∙ f.zones;
  hours = g.hours ∙ f.hours;
  outbox = g.outbox ∙ f.outbox;
}

-- A route ends as its transaction does, or changes nothing.
pub route-Scoped :
    {A : Type 0} (roles : List UserRole) (p : Principal) (m : Tx Db A) (db : Db)
    → ((a : A) (db' : Db) → m db ≡ ok (a, db') → Scoped p db db')
    → Scoped p db (route roles p m db).1
unfolding route
route-Scoped {A} roles p m db step =
    elim (require roles p)
      as (λ r.
        Scoped p db
          (elim r as (λ _. Result (Unit {0}) × Db) [
            | err e ↦ (err e, db)
            | ok _ ↦ bodiless (finish db (m db))
          ]).1) [ err e ↦ same-Scoped p db | ok _ ↦ go (m db) refl ]
  where
    go : (r : Result (A × Db)) → m db ≡ r → Scoped p db (bodiless (finish db r)).1
    go (err e) run = same-Scoped p db
    go (ok (a, db')) run = step a db' run

-- An administrators' route refuses everybody else.
pub admins-Scoped :
    {A : Type 0} (p : Principal) (m : Tx Db A) (db : Db)
    → is_admin p ≡ false
    → Scoped p db (route admins p m db).1
unfolding route
admins-Scoped p m db other = rw (route, require-admins p other) (same-Scoped p db)

-- What a manager's check lets through.
pub can_manage-ok :
    (warehouse_id : ℕ) (p : Principal) (s s' : Db)
    → assert_can_manage warehouse_id p s ≡ ok (tt, s')
    → (s ≡ s') × (manages warehouse_id p ≡ true)
unfolding assert_can_manage Repository.get
can_manage-ok warehouse_id p s s' run =
    let (_, r) =
      raise_if-ok
        (is_none (
          Repository.unless_deleted false (Repository.warehouse_with_id warehouse_id s.warehouses)))
        not_found _ run in
    go (manages warehouse_id p) refl r
  where
    go :
        (b : Bool)
        → manages warehouse_id p ≡ b
        → raise_if (not b) permission_denied s ≡ ok (tt, s')
        → (s ≡ s') × (manages warehouse_id p ≡ true)
    go true e r = (ap (λ (x : Unit {0} × Db). x.1) (ok-injective (tt, s) (tt, s') r), e)
    go false e r = absurd (cc r)

pub flush-eq : (s s' : Db) → flush s ≡ ok (tt, s') → s ≡ s'
unfolding flush
flush-eq s s' run = ground arith

-- A row is added that a query does not select.
pub rows_where-append :
    {A : Type 0} (q : A → Bool) (rows : List A) (a : A)
    → q a ≡ false
    → rows_where q (rows ++ a ∷ []) ≡ rows_where q rows
rows_where-append q [] a out = rw out refl
rows_where-append q (r ∷ rows) a out = rw (rows_where-append q rows a out) refl
