-- ===== src/Warehouse/Api/Scopes/Hours.antt =====
-- replace_hours of WarehouseService (services/warehouse/src/warehouse/services/warehouses.py).
use mathlib.Core.Path.{subst}
use smart_logistics.Base.{
  ℕ, ◌+◌, ◌≡◌, refl, sym, ap, ◌∙◌, true, not, List, [], ◌∷◌, ◌++◌, ◌==◌, ==_iff, rows_where,
  Bool-cases, inl, inr,
}
use smart_logistics.Platform.Errors.{ok, ok-injective}
use smart_logistics.Platform.Session.{>>-eq-ok}
use smart_logistics.Platform.Auth.{Principal}
use smart_logistics.Warehouse.Models.{Db, WarehouseOperatingHours, flush, uuid4}
use smart_logistics.Warehouse.Schemas.{OperatingHoursWrite, WeeklyScheduleUpdate}
use smart_logistics.Warehouse.Repository.{clear_hours, list_hours}
use smart_logistics.Warehouse.Service as Service
use smart_logistics.Warehouse.Service.{
  manages, assert_can_manage, new_zone, new_hours, add_hours, updated_zone,
}
use smart_logistics.Warehouse.Api.Scopes.{
  foreign_hours, Scoped, same-Scoped, then-Scoped, can_manage-ok, flush-eq, rows_where-append,
}

-- The days of a warehouse are deleted.
cleared-foreign :
    (p : Principal) (warehouse_id : ℕ) (hours : List WarehouseOperatingHours)
    → manages warehouse_id p ≡ true
    → foreign_hours p (rows_where (λ h. not (h.warehouse_id == warehouse_id)) hours)
      ≡ foreign_hours p hours
cleared-foreign p warehouse_id [] m = refl
cleared-foreign p warehouse_id (h ∷ hours) m = elim (Bool-cases (h.warehouse_id == warehouse_id)) [
  | inl own ↦
      let mine : manages h.warehouse_id p ≡ true =
        ap (λ (k : ℕ). manages k p) ((==_iff h.warehouse_id warehouse_id).0 own) ∙ m in
      rw (own, mine) (cleared-foreign p warehouse_id hours m)
  | inr other ↦ rw other (rw (cleared-foreign p warehouse_id hours m) refl)
]

add_hours-Scoped :
    (p : Principal) (warehouse_id : ℕ) (days : List OperatingHoursWrite) (db db' : Db)
    → manages warehouse_id p ≡ true
    → add_hours warehouse_id days db ≡ ok (tt, db')
    → Scoped p db db'
unfolding add_hours uuid4
add_hours-Scoped p warehouse_id [] db db' m run =
    subst (Scoped p db) (ap (λ (x : Unit {0} × Db). x.1) (ok-injective (tt, db) (tt, db') run))
      (same-Scoped p db)
add_hours-Scoped p warehouse_id (day ∷ days) db db' m run =
    then-Scoped p db _ db'
      (record {
        warehouses = refl;
        zones = refl;
        hours = rows_where-append _ db.hours (new_hours db.next_id warehouse_id day) (rw m refl);
        outbox = refl;
      })
      (add_hours-Scoped p warehouse_id days
        (record db {
          hours = db.hours ++ new_hours db.next_id warehouse_id day ∷ [];
          next_id = db.next_id + 1;
        })
        db' m run)

pub replace_hours-Scoped :
    (warehouse_id : ℕ) (payload : WeeklyScheduleUpdate) (p : Principal)
    (a : List WarehouseOperatingHours) (db db' : Db)
    → Service.replace_hours warehouse_id payload p db ≡ ok (a, db')
    → Scoped p db db'
unfolding Service.replace_hours clear_hours list_hours
replace_hours-Scoped warehouse_id payload p a db db' run =
    let (_, db1, may, r) = >>-eq-ok (assert_can_manage warehouse_id p) _ run in
    let (same, m) = can_manage-ok warehouse_id p db db1 may in
    let (_, db2, added, r') = >>-eq-ok (add_hours warehouse_id payload.days) _ r in
    let (_, db3, flushed, r'') = >>-eq-ok flush _ r' in
    let done : db3 ≡ db' =
      ap (λ (x : List WarehouseOperatingHours × Db). x.1) (ok-injective _ (a, db') r'') in
    subst (Scoped p db) (flush-eq db2 db3 flushed ∙ done) (
      subst (λ (d : Db). Scoped p d db2) (sym same)
        (then-Scoped p db1 _ db2
          (record {
            warehouses = refl;
            zones = refl;
            hours = cleared-foreign p warehouse_id db1.hours m;
            outbox = refl;
          })
          (add_hours-Scoped p warehouse_id payload.days _ db2 m added)))
