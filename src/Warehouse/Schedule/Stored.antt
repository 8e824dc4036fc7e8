-- ===== src/Warehouse/Schedule/Stored.antt =====
-- replace_hours and list_hours of WarehouseService
-- (services/warehouse/src/warehouse/services/warehouses.py): the week that is written and read again.
use mathlib.Core.List.{Perm}
use mathlib.Core.List.Perm
use smart_logistics.Base.{
  ℕ, ◌+◌, ◌≡◌, refl, ap, ◌∙◌, Bool, true, false, ◌&&◌, ◌||◌, Option, none, some, List, ◌++◌, map,
  arith, is_none, contains, length, all, distinct, if◌then◌else◌,
}
use mathlib.Core.Path.{subst}
use smart_logistics.Platform.Errors.{Result, ok}
use smart_logistics.Platform.Session.{◌>>◌, >>-ok, pure}
use smart_logistics.Platform.Roles.{
  UserRole, admin, customer_support, warehouse_operator, courier, is_role, is_unrestricted,
}
use smart_logistics.Platform.Auth.{Principal}
use smart_logistics.Warehouse.Models.{
  Db, Warehouse, WarehouseOperatingHours, flush, check_constraints, unique_constraints,
  warehouse_checks, zone_checks, hours_checks, distinct_codes,
}
use smart_logistics.Inventory.Models.{distinct_pairs}
use smart_logistics.Identity.Models.{distinct_texts}
use smart_logistics.Warehouse.Schemas.{
  OperatingHoursWrite, WeeklyScheduleUpdate, is_valid_schedule, is_weekday, check_window,
}
use smart_logistics.Warehouse.Repository as Repository
use smart_logistics.Warehouse.Repository.{
  warehouse_with_id, unless_deleted, sort_days, list_hours, clear_hours,
}
use smart_logistics.Warehouse.Service as Service
use smart_logistics.Warehouse.Service.{
  assert_sees_hours, manages, assert_can_manage, add_hours, replace_hours, list_hours_of,
}
use smart_logistics.Warehouse.Schedule.{numbered, written, written-numbered, add_hours-ok}
use smart_logistics.Warehouse.Schedule.Constraints.{
  day_keys, days_of, of_others, replaced-checks, replaced-distinct,
}
use smart_logistics.Warehouse.Schedule.Week.{
  in_week_order, sort_days-Perm, sort_days-in_week_order, replaced-hours_of,
}

-- The database after a week was written.
abbrev with_week : ℕ → List OperatingHoursWrite → Db → Db
with_week warehouse_id days db = record db {
  hours = of_others warehouse_id db.hours ++ numbered db.next_id warehouse_id days;
  next_id = db.next_id + length days;
}

-- What a request that was accepted is known to be.
valid-days :
    (payload : WeeklyScheduleUpdate)
    → is_valid_schedule payload ≡ true
    → (all (λ d. is_weekday d.day_of_week && check_window d) payload.days ≡ true)
      × (distinct (days_of payload.days) ≡ true)
unfolding is_valid_schedule
valid-days payload v = (ground arith, ground arith)

-- The parts of the constraints.
checks-parts :
    (db : Db)
    → check_constraints db ≡ true
    → (all warehouse_checks db.warehouses ≡ true)
      × (all zone_checks db.zones ≡ true)
      × (all hours_checks db.hours ≡ true)
unfolding check_constraints
checks-parts db c = (ground arith, ground arith, ground arith)

unique-parts :
    (db : Db)
    → unique_constraints db ≡ true
    → (distinct_texts (map (λ w. w.code) db.warehouses) ≡ true)
      × (distinct_codes db.zones ≡ true)
      × (distinct_pairs (day_keys db.hours) ≡ true)
unfolding unique_constraints
unique-parts db u = (ground arith, ground arith, ground arith)

week-flush :
    (warehouse_id : ℕ) (payload : WeeklyScheduleUpdate) (db : Db)
    → is_valid_schedule payload ≡ true
    → check_constraints db ≡ true
    → unique_constraints db ≡ true
    → flush (with_week warehouse_id payload.days db)
      ≡ ok (tt, with_week warehouse_id payload.days db)
unfolding flush check_constraints unique_constraints
week-flush warehouse_id payload db v c u =
    let (valid, apart) = valid-days payload v in
    let (ws, zs, hs) = checks-parts db c in
    let (codes, zone_codes, keys) = unique-parts db u in
    rw
      (
        ws,
        zs,
        replaced-checks db.next_id warehouse_id payload.days db.hours valid hs,
        codes,
        zone_codes,
        replaced-distinct db.next_id warehouse_id payload.days db.hours apart keys,
      )
      refl

live-kept : (w : Warehouse) → w.deleted_at ≡ none → unless_deleted false (some w) ≡ some w
live-kept w live = ap (λ (o : Option ℕ). if is_none o || false then some w else none) live

may_manage :
    (warehouse_id : ℕ) (p : Principal) (w : Warehouse) (db : Db)
    → manages warehouse_id p ≡ true
    → warehouse_with_id warehouse_id db.warehouses ≡ some w
    → w.deleted_at ≡ none
    → assert_can_manage warehouse_id p db ≡ ok (tt, db)
unfolding assert_can_manage Repository.get
may_manage warehouse_id p w db m found live = rw (found, live-kept w live, m) refl

-- Who manages a warehouse may read its hours.
may_read :
    (warehouse_id : ℕ) (p : Principal) (w : Warehouse) (db : Db)
    → manages warehouse_id p ≡ true
    → warehouse_with_id warehouse_id db.warehouses ≡ some w
    → w.deleted_at ≡ none
    → assert_sees_hours warehouse_id p db ≡ ok (tt, db)
unfolding Service.get Repository.get
may_read warehouse_id p w db m found live =
    let (drives, sees) = manager (contains p.warehouse_ids warehouse_id) p.role m in
    let got : ◌≡◌ {A = Result (Warehouse × Db)} (Service.get warehouse_id p db) (ok (w, db)) =
      rw (found, live-kept w live, sees) refl in
    rw drives (>>-ok (Service.get warehouse_id p) (pure tt) got)
  where
    manager :
        (assigned : Bool) (r : UserRole)
        → (is_role r admin || (is_role r warehouse_operator && (is_unrestricted r || assigned)))
          ≡ true
        → (is_role r courier ≡ false) × ((is_unrestricted r || assigned) ≡ true)
    manager assigned admin h = (refl, refl)
    manager assigned customer_support h = (refl, refl)
    manager assigned warehouse_operator h = (refl, h)
    manager assigned courier h = absurd (cc h)

-- A week that is stored: the rows of the answer are those of the request, Monday first, and are what
-- the caller reads afterwards.
pub record IsStored (warehouse_id : ℕ) (days : List OperatingHoursWrite) (p : Principal)
    (rows : List WarehouseOperatingHours) (db : Db) : Type 0 where
  pub week : Perm (map written rows) days
  pub order : in_week_order rows ≡ true
  pub reads : list_hours_of warehouse_id p db ≡ ok (rows, db)

-- A week that is written is read again. Where the caller manages a warehouse that is not deleted, and
-- the request passed its validators, `replace_hours` succeeds on a database that meets its
-- constraints: it answers with exactly the days of the request, in the order of the week, the
-- caller's `list_hours` then gives the same rows, and the constraints hold again.
pub replace_hours-IsStored :
    (warehouse_id : ℕ) (payload : WeeklyScheduleUpdate) (p : Principal) (w : Warehouse) (db : Db)
    → manages warehouse_id p ≡ true
    → warehouse_with_id warehouse_id db.warehouses ≡ some w
    → w.deleted_at ≡ none
    → is_valid_schedule payload ≡ true
    → check_constraints db ≡ true
    → unique_constraints db ≡ true
    → (rows : List WarehouseOperatingHours) × (db' : Db) × (replace_hours warehouse_id payload p db
        ≡ ok (rows, db'))
      × IsStored warehouse_id payload.days p rows db'
      × (flush db' ≡ ok (tt, db'))
unfolding replace_hours clear_hours list_hours list_hours_of
replace_hours-IsStored warehouse_id payload p w db m found live v c u =
    let rows = sort_days (numbered db.next_id warehouse_id payload.days) in
    let db' = with_week warehouse_id payload.days db in
    let flushed = week-flush warehouse_id payload db v c u in
    let shown = replaced-hours_of db.next_id warehouse_id payload.days db.hours in
    (
      rows,
      db',
      >>-ok (assert_can_manage warehouse_id p) _ (may_manage warehouse_id p w db m found live)
          ∙ >>-ok (add_hours warehouse_id payload.days) (flush >> list_hours warehouse_id) (
              add_hours-ok warehouse_id payload.days
                (record db { hours = of_others warehouse_id db.hours }))
          ∙ >>-ok flush (list_hours warehouse_id) flushed
          ∙ rw shown refl,
      record {
        week =
            subst (λ (ds : List OperatingHoursWrite). Perm (map written rows) ds)
              (written-numbered db.next_id warehouse_id payload.days)
              (Perm.map written (sort_days-Perm (numbered db.next_id warehouse_id payload.days)));
        order = sort_days-in_week_order (numbered db.next_id warehouse_id payload.days);
        reads =
            >>-ok (assert_sees_hours warehouse_id p) (list_hours warehouse_id)
              (may_read warehouse_id p w db' m found live)
            ∙ rw shown refl;
      },
      flushed,
    )
