-- ===== src/Warehouse/Schemas.antt =====
-- services/warehouse/src/warehouse/schemas.py: the requests, with the validators that compare fields.
-- A field of an update is unset, or set to a value that may be None.
use smart_logistics.Base.{
  ℕ, String, Bool, true, false, not, ◌&&◌, ◌||◌, Option, none, some, List, map, leb, all, distinct,
  is_some, length, if◌then◌else◌, ℤ,
}
use smart_logistics.Warehouse.Models.{WarehouseType, ZoneType}

pub record OperatingHoursWrite : Type 0 where
  pub day_of_week : ℕ
  pub opens_at : Option ℕ
  pub closes_at : Option ℕ
  pub is_closed : Bool

-- `self.closes_at <= self.opens_at` raises
abbrev pub closes_later : Option ℕ → Option ℕ → Bool
closes_later (some opens) (some closes) = not (leb closes opens)
closes_later _ _ = false

-- OperatingHoursBase.check_window; every time of the day is true.
unfoldable pub check_window : OperatingHoursWrite → Bool
check_window h =
    if h.is_closed
    then not (is_some h.opens_at || is_some h.closes_at)
    else closes_later h.opens_at h.closes_at

-- Weekday
abbrev pub is_weekday : ℕ → Bool
is_weekday d = leb 1 d && leb d 7

pub record WeeklyScheduleUpdate : Type 0 where
  pub days : List OperatingHoursWrite

-- WeeklyScheduleUpdate: what the request is checked for
unfoldable pub is_valid_schedule : WeeklyScheduleUpdate → Bool
unfolding check_window
is_valid_schedule payload =
    leb 1 (length payload.days)
    && leb (length payload.days) 7
    && all (λ d. is_weekday d.day_of_week && check_window d) payload.days
    && distinct (map (λ d. d.day_of_week) payload.days)

pub record WarehouseZoneCreate : Type 0 where
  pub code : String
  pub name : String
  pub type : ZoneType
  pub capacity_units : ℕ

pub record WarehouseZoneUpdate : Type 0 where
  pub name : Option (Option String)
  pub type : Option (Option ZoneType)
  pub capacity_units : Option (Option ℕ)
  pub is_active : Option (Option Bool)

pub record WarehouseCreate : Type 0 where
  pub code : String
  pub name : String
  pub type : WarehouseType
  pub address_line1 : String
  pub address_line2 : Option String
  pub city : String
  pub region : Option String
  pub postal_code : Option String
  pub country_code : String
  pub latitude : Option ℤ
  pub longitude : Option ℤ
  pub entrance_latitude : Option ℤ
  pub entrance_longitude : Option ℤ
  pub map_place_id : Option String
  pub geofence_radius_m : ℕ
  pub capacity_units : ℕ
  pub max_daily_outbound : Option ℕ
  pub timezone : String
  pub contact_name : Option String
  pub contact_email : Option String
  pub contact_phone : Option String
  pub notes : Option String
  pub zones : List WarehouseZoneCreate
  pub operating_hours : List OperatingHoursWrite

pub record WarehouseUpdate : Type 0 where
  pub name : Option (Option String)
  pub type : Option (Option WarehouseType)
  pub address_line1 : Option (Option String)
  pub address_line2 : Option (Option String)
  pub city : Option (Option String)
  pub region : Option (Option String)
  pub postal_code : Option (Option String)
  pub country_code : Option (Option String)
  pub latitude : Option (Option ℤ)
  pub longitude : Option (Option ℤ)
  pub entrance_latitude : Option (Option ℤ)
  pub entrance_longitude : Option (Option ℤ)
  pub map_place_id : Option (Option String)
  pub geofence_radius_m : Option (Option ℕ)
  pub capacity_units : Option (Option ℕ)
  pub max_daily_outbound : Option (Option ℕ)
  pub timezone : Option (Option String)
  pub contact_name : Option (Option String)
  pub contact_email : Option (Option String)
  pub contact_phone : Option (Option String)
  pub notes : Option (Option String)

-- A column that may not be NULL is set to None.
abbrev pub is_null : {A : Type 0} → Option (Option A) → Bool
is_null none = false
is_null (some none) = true
is_null (some (some a)) = false

-- The value of a column, as an update leaves it. An update that is null is refused by the database.
abbrev pub kept : {A : Type 0} → A → Option (Option A) → A
kept old none = old
kept old (some none) = old
kept old (some (some new)) = new

-- The value of a column that may be NULL.
abbrev pub value : {A : Type 0} → Option A → Option (Option A) → Option A
value old none = old
value old (some new) = new
