-- ===== src/Warehouse/Schedule/Constraints.antt =====
-- The constraints of the table of operating hours (services/warehouse/src/warehouse/models.py), after
-- the days of a warehouse were replaced.
use smart_logistics.Base.{
  ℕ, ◌+◌, ◌≡◌, refl, sym, Bool, true, false, not, ◌&&◌, List, [], ◌∷◌, ◌++◌, map, arith, ◌==◌,
  ==_refl, rows_where, any, all, Bool-cases, inl, inr, contains, distinct, distinct_tail,
}
use smart_logistics.Inventory.Models.{distinct_pairs}
use smart_logistics.Warehouse.Models.{WarehouseOperatingHours, hours_checks}
use smart_logistics.Warehouse.Schemas.{OperatingHoursWrite, is_weekday, check_window}
use smart_logistics.Warehouse.Service.{new_hours}
use smart_logistics.Warehouse.Schedule.{numbered, check_window-valid_window}

abbrev pub days_of : List OperatingHoursWrite → List ℕ
days_of = map (λ d. d.day_of_week)

abbrev pub day_keys : List WarehouseOperatingHours → List (ℕ × ℕ)
day_keys = map (λ h. (h.warehouse_id, h.day_of_week))

-- What is left when the rows of a warehouse are deleted.
abbrev pub of_others : ℕ → List WarehouseOperatingHours → List WarehouseOperatingHours
of_others warehouse_id = rows_where (λ h. not (h.warehouse_id == warehouse_id))

abbrev is_valid_day : OperatingHoursWrite → Bool
is_valid_day d = is_weekday d.day_of_week && check_window d

pub both : (a b : Bool) → (a && b) ≡ true → (a ≡ true) × (b ≡ true)
both a b h = (ground arith, ground arith)

day-checks :
    (n warehouse_id : ℕ) (d : OperatingHoursWrite)
    → is_valid_day d ≡ true
    → hours_checks (new_hours n warehouse_id d) ≡ true
day-checks n warehouse_id d here =
    let (week, window) = both (is_weekday d.day_of_week) (check_window d) here in
    rw (week, sym (check_window-valid_window d), window) refl

-- A request that was accepted meets the CHECK constraints.
numbered-checks :
    (n warehouse_id : ℕ) (days : List OperatingHoursWrite)
    → all (λ d. is_weekday d.day_of_week && check_window d) days ≡ true
    → all hours_checks (numbered n warehouse_id days) ≡ true
numbered-checks n warehouse_id [] valid = refl
numbered-checks n warehouse_id (d ∷ days) valid =
    let (here, later) = both (is_valid_day d) (all is_valid_day days) valid in
    rw (day-checks n warehouse_id d here, numbered-checks (n + 1) warehouse_id days later) refl

pub replaced-checks :
    (n warehouse_id : ℕ) (days : List OperatingHoursWrite) (hours : List WarehouseOperatingHours)
    → all (λ d. is_weekday d.day_of_week && check_window d) days ≡ true
    → all hours_checks hours ≡ true
    → all hours_checks (of_others warehouse_id hours ++ numbered n warehouse_id days) ≡ true
replaced-checks n warehouse_id days [] valid c = numbered-checks n warehouse_id days valid
replaced-checks n warehouse_id days (h ∷ hours) valid c =
    let (here, later) = both (hours_checks h) (all hours_checks hours) c in
    let there = replaced-checks n warehouse_id days hours valid later in
    elim (Bool-cases (h.warehouse_id == warehouse_id)) [
      | inl own ↦ rw own there
      | inr other ↦ rw other (rw here there)
    ]

-- A key that is among the rows of a schedule.
numbered-any :
    (n warehouse_id day : ℕ) (days : List OperatingHoursWrite)
    → any (λ p. p.0 == warehouse_id && p.1 == day) (day_keys (numbered n warehouse_id days))
      ≡ contains (days_of days) day
numbered-any n warehouse_id day [] = refl
numbered-any n warehouse_id day (d ∷ days) =
    rw (numbered-any (n + 1) warehouse_id day days, ==_refl warehouse_id) (ground arith)

numbered-distinct :
    (n warehouse_id : ℕ) (days : List OperatingHoursWrite)
    → distinct (days_of days) ≡ true
    → distinct_pairs (day_keys (numbered n warehouse_id days)) ≡ true
numbered-distinct n warehouse_id [] d = refl
numbered-distinct n warehouse_id (day ∷ days) d =
    let (fresh, d') = distinct_tail day.day_of_week (days_of days) d in
    rw (numbered-any (n + 1) warehouse_id day.day_of_week days, fresh)
      (numbered-distinct (n + 1) warehouse_id days d')

-- The rows of another warehouse have other keys.
other-none :
    (n warehouse_id a day : ℕ) (days : List OperatingHoursWrite)
    → (a == warehouse_id) ≡ false
    → any (λ p. p.0 == a && p.1 == day) (day_keys (numbered n warehouse_id days)) ≡ false
other-none n warehouse_id a day [] other = refl
other-none n warehouse_id a day (d ∷ days) other =
    let there = other-none (n + 1) warehouse_id a day days other in ground arith

replaced-none :
    (n warehouse_id a day : ℕ) (days : List OperatingHoursWrite)
    (hours : List WarehouseOperatingHours)
    → (a == warehouse_id) ≡ false
    → any (λ p. p.0 == a && p.1 == day) (day_keys hours) ≡ false
    → any
        (λ p. p.0 == a && p.1 == day)
        (day_keys (of_others warehouse_id hours ++ numbered n warehouse_id days))
      ≡ false
replaced-none n warehouse_id a day days [] other gone = other-none n warehouse_id a day days other
replaced-none n warehouse_id a day days (h ∷ hours) other gone =
    elim (Bool-cases (h.warehouse_id == a && h.day_of_week == day)) [
      | inl same ↦ absurd (cc (rw same at gone))
      | inr differs ↦
          let there = replaced-none n warehouse_id a day days hours other (rw differs at gone) in
          elim (Bool-cases (h.warehouse_id == warehouse_id)) [
            | inl own ↦ rw own there
            | inr foreign ↦ rw foreign (rw differs there)
          ]
    ]

pub replaced-distinct :
    (n warehouse_id : ℕ) (days : List OperatingHoursWrite) (hours : List WarehouseOperatingHours)
    → distinct (days_of days) ≡ true
    → distinct_pairs (day_keys hours) ≡ true
    → distinct_pairs (day_keys (of_others warehouse_id hours ++ numbered n warehouse_id days))
      ≡ true
replaced-distinct n warehouse_id days [] d u = numbered-distinct n warehouse_id days d
replaced-distinct n warehouse_id days (h ∷ hours) d u =
    let (here, later) =
      both (not (any (λ p. p.0 == h.warehouse_id && p.1 == h.day_of_week) (day_keys hours)))
        (distinct_pairs (day_keys hours)) u in
    let there = replaced-distinct n warehouse_id days hours d later in
    elim (Bool-cases (h.warehouse_id == warehouse_id)) [
      | inl own ↦ rw own there
      | inr other ↦
          let fresh =
            replaced-none n warehouse_id h.warehouse_id h.day_of_week days hours other
              (is_false here) in
          rw other (rw fresh there)
    ]
  where
    is_false : {b : Bool} → not b ≡ true → b ≡ false
    is_false e = ground arith
