-- ===== src/Warehouse/Schedule/Week.antt =====
-- The listing of operating hours (services/warehouse/src/warehouse/repository.py), in the order of the
-- week.
use mathlib.Core.List.{Perm}
use mathlib.Core.List.Perm
use smart_logistics.Base.{
  ℕ, ◌+◌, ◌≡◌, refl, ap, ◌∙◌, Bool, true, ◌&&◌, List, [], ◌∷◌, ◌++◌, arith, ◌==◌, ==_refl, leb, ltb,
  Bool-cases, inl, inr,
}
use smart_logistics.Warehouse.Models.{WarehouseOperatingHours}
use smart_logistics.Warehouse.Schemas.{OperatingHoursWrite}
use smart_logistics.Warehouse.Service.{new_hours}
use smart_logistics.Warehouse.Repository.{insert_day, sort_days, hours_of}
use smart_logistics.Warehouse.Schedule.{numbered}
use smart_logistics.Warehouse.Schedule.Constraints.{of_others, both}

abbrev starts_before : ℕ → List WarehouseOperatingHours → Bool
starts_before day [] = true
starts_before day (h ∷ rest) = leb day h.day_of_week

-- Monday first.
abbrev pub in_week_order : List WarehouseOperatingHours → Bool
in_week_order [] = true
in_week_order (h ∷ rest) = starts_before h.day_of_week rest && in_week_order rest

insert_day-Perm :
    (h : WarehouseOperatingHours) (hours : List WarehouseOperatingHours)
    → Perm (insert_day h hours) (h ∷ hours)
unfolding insert_day
insert_day-Perm h [] = Perm.rfl
insert_day-Perm h (g ∷ hours) = elim (Bool-cases (ltb g.day_of_week h.day_of_week)) [
  | inl before ↦
      rw before (Perm.trans (Perm.cons g (insert_day-Perm h hours)) (Perm.swap h g hours))
  | inr after ↦ rw after Perm.rfl
]

pub sort_days-Perm : (hours : List WarehouseOperatingHours) → Perm (sort_days hours) hours
unfolding sort_days
sort_days-Perm [] = Perm.rfl
sort_days-Perm (h ∷ hours) =
    Perm.trans (insert_day-Perm h (sort_days hours)) (Perm.cons h (sort_days-Perm hours))

others-hours_of :
    (n warehouse_id : ℕ) (days : List OperatingHoursWrite) (hours : List WarehouseOperatingHours)
    → hours_of warehouse_id (of_others warehouse_id hours ++ numbered n warehouse_id days)
      ≡ hours_of warehouse_id (numbered n warehouse_id days)
others-hours_of n warehouse_id days [] = refl
others-hours_of n warehouse_id days (h ∷ hours) =
    let there = others-hours_of n warehouse_id days hours in
    elim (Bool-cases (h.warehouse_id == warehouse_id)) [
      | inl own ↦ rw own there
      | inr other ↦ rw other (rw other there)
    ]

numbered-hours_of :
    (n warehouse_id : ℕ) (days : List OperatingHoursWrite)
    → hours_of warehouse_id (numbered n warehouse_id days) ≡ numbered n warehouse_id days
numbered-hours_of n warehouse_id [] = refl
numbered-hours_of n warehouse_id (d ∷ days) = rw (==_refl warehouse_id) (
    ap (λ (hs : List WarehouseOperatingHours). new_hours n warehouse_id d ∷ hs)
      (numbered-hours_of (n + 1) warehouse_id days))

pub replaced-hours_of :
    (n warehouse_id : ℕ) (days : List OperatingHoursWrite) (hours : List WarehouseOperatingHours)
    → hours_of warehouse_id (of_others warehouse_id hours ++ numbered n warehouse_id days)
      ≡ numbered n warehouse_id days
replaced-hours_of n warehouse_id days hours =
    others-hours_of n warehouse_id days hours ∙ numbered-hours_of n warehouse_id days

-- A row keeps its place before the rows that follow it.
starts_before-insert_day :
    (day : ℕ) (h : WarehouseOperatingHours) (hours : List WarehouseOperatingHours)
    → leb day h.day_of_week ≡ true
    → starts_before day hours ≡ true
    → starts_before day (insert_day h hours) ≡ true
unfolding insert_day
starts_before-insert_day day h [] e s = e
starts_before-insert_day day h (g ∷ hours) e s =
    elim (Bool-cases (ltb g.day_of_week h.day_of_week)) [
      | inl before ↦ rw before s
      | inr after ↦ rw after e
    ]

insert_day-in_week_order :
    (h : WarehouseOperatingHours) (hours : List WarehouseOperatingHours)
    → in_week_order hours ≡ true
    → in_week_order (insert_day h hours) ≡ true
unfolding insert_day
insert_day-in_week_order h [] s = refl
insert_day-in_week_order h (g ∷ hours) s =
    let (first, rest) = both (starts_before g.day_of_week hours) (in_week_order hours) s in
    elim (Bool-cases (ltb g.day_of_week h.day_of_week)) [
      | inl before ↦ rw before (
          rw
            (
              starts_before-insert_day g.day_of_week h hours (ground arith) first,
              insert_day-in_week_order h hours rest,
            )
            refl)
      | inr after ↦
          let le : leb h.day_of_week g.day_of_week ≡ true = ground arith in rw after (rw le s)
    ]

pub sort_days-in_week_order :
    (hours : List WarehouseOperatingHours) → in_week_order (sort_days hours) ≡ true
unfolding sort_days
sort_days-in_week_order [] = refl
sort_days-in_week_order (h ∷ hours) =
    insert_day-in_week_order h (sort_days hours) (sort_days-in_week_order hours)
