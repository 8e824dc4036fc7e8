-- ===== src/Warehouse/Schedule.antt =====
-- The operating hours of services/warehouse/src/warehouse: replace_hours of services/warehouses.py,
-- with the schemas and the constraints of the table that it meets.
pub mod Constraints
pub mod Week
pub mod Stored
use smart_logistics.Base.{
  ℕ, ◌+◌, ◌≡◌, refl, true, false, not, ◌&&◌, ◌||◌, Bool, some, none, Option, List, [], ◌∷◌, ◌++◌,
  map, arith, ◌==◌, rows_where, any, all, leb, ltb, is_some, is_none, if◌then◌else◌, ==_refl,
  Bool-cases, inl, inr, length, ap, suc,
}
use smart_logistics.Warehouse.Models.{WarehouseOperatingHours, valid_window, hours_checks}
use smart_logistics.Warehouse.Schemas.{OperatingHoursWrite, check_window, closes_later}
use smart_logistics.Warehouse.Service.{new_hours, add_hours}
use smart_logistics.Warehouse.Models.{Db, uuid4}
use smart_logistics.Platform.Errors.{Result, ok}

-- The rows of a schedule, with ids from n on.
abbrev pub numbered : ℕ → ℕ → List OperatingHoursWrite → List WarehouseOperatingHours
numbered n warehouse_id [] = []
numbered n warehouse_id (day ∷ days) =
    new_hours n warehouse_id day ∷ numbered (n + 1) warehouse_id days

-- The fields of a row that a request writes.
abbrev pub written : WarehouseOperatingHours → OperatingHoursWrite
written h = record {
  day_of_week = h.day_of_week;
  opens_at = h.opens_at;
  closes_at = h.closes_at;
  is_closed = h.is_closed;
}

-- The schema's validator accepts exactly what the table's constraint does.
pub check_window-valid_window :
    (d : OperatingHoursWrite) → check_window d ≡ valid_window d.is_closed d.opens_at d.closes_at
unfolding check_window
check_window-valid_window d = windows d.is_closed d.opens_at d.closes_at
  where
    windows :
        (c : Bool) (opens closes : Option ℕ)
        → (if c then not (is_some opens || is_some closes) else closes_later opens closes)
          ≡ valid_window c opens closes
    windows true none none = refl
    windows true none (some y) = refl
    windows true (some x) none = refl
    windows true (some x) (some y) = refl
    windows false none none = refl
    windows false none (some y) = refl
    windows false (some x) none = refl
    windows false (some x) (some y) = ground arith

pub written-numbered :
    (n warehouse_id : ℕ) (days : List OperatingHoursWrite)
    → map written (numbered n warehouse_id days) ≡ days
written-numbered n warehouse_id [] = refl
written-numbered n warehouse_id (day ∷ days) =
    ap (λ (ds : List OperatingHoursWrite). day ∷ ds) (written-numbered (n + 1) warehouse_id days)

++_assoc_row :
    (xs ys : List WarehouseOperatingHours) (h : WarehouseOperatingHours)
    → (xs ++ h ∷ []) ++ ys ≡ xs ++ h ∷ ys
++_assoc_row [] ys h = refl
++_assoc_row (x ∷ xs) ys h = rw (++_assoc_row xs ys h) refl

++_nil : (xs : List WarehouseOperatingHours) → xs ++ [] ≡ xs
++_nil [] = refl
++_nil (x ∷ xs) = ap (λ (ys : List WarehouseOperatingHours). x ∷ ys) (++_nil xs)

add_none : (n : ℕ) → n + 0 ≡ n
add_none n = omega arith

add_later : (n k : ℕ) → n + 1 + k ≡ n + suc k
add_later n k = omega arith

-- What the loop over the days writes.
pub add_hours-ok :
    (warehouse_id : ℕ) (days : List OperatingHoursWrite) (db : Db)
    → ◌≡◌ {A = Result (Unit {0} × Db)} (add_hours warehouse_id days db) (
        ok (
          tt,
          record db {
            hours = db.hours ++ numbered db.next_id warehouse_id days;
            next_id = db.next_id + length days;
          },
        ))
unfolding add_hours uuid4
add_hours-ok warehouse_id [] db = rw (++_nil db.hours, add_none db.next_id) refl
add_hours-ok warehouse_id (day ∷ days) db =
    let h = new_hours db.next_id warehouse_id day in
    rw
      (
        add_hours-ok warehouse_id days
            (record db { hours = db.hours ++ h ∷ []; next_id = db.next_id + 1 }),
        ++_assoc_row db.hours (numbered (db.next_id + 1) warehouse_id days) h,
        add_later db.next_id (length days),
      )
      refl
