-- ===== src/Warehouse/Models.antt =====
-- services/warehouse/src/warehouse/models.py: the tables and their constraints, and the one session
-- over them. Identifiers are numbers, times are seconds since an epoch, a time of the day is a number
-- of seconds, and a coordinate is a signed number of millionths of a degree.
use smart_logistics.Base.{
  ℕ, ◌+◌, ◌-◌, ◌*◌, String, Bool, true, false, not, ◌&&◌, Option, none, some, List, [], ◌∷◌, map,
  ltb, leb, ◌==◌, str_eq, is_none, if◌then◌else◌, ℤ, pos, negsuc, leb_ℤ, any, all,
}
use smart_logistics.Platform.Errors.{SqlState, integrity_error, ok, err}
use smart_logistics.Platform.Session.{Tx}
use smart_logistics.Platform.Outbox.{Outbox}
use smart_logistics.Inventory.Models.{distinct_pairs}
use smart_logistics.Identity.Models.{distinct_texts}

pub data WarehouseType : Type 0 where
  fulfillment_center distribution_hub regional_depot returns_center : WarehouseType

pub data WarehouseStatus : Type 0 where
  active maintenance inactive : WarehouseStatus

-- The value of a status, as it is stored and sent.
abbrev pub status_value : WarehouseStatus → String
status_value active = "active"
status_value maintenance = "maintenance"
status_value inactive = "inactive"

abbrev pub is_status : WarehouseStatus → WarehouseStatus → Bool
is_status active active = true
is_status maintenance maintenance = true
is_status inactive inactive = true
is_status _ _ = false

abbrev pub is_type : WarehouseType → WarehouseType → Bool
is_type fulfillment_center fulfillment_center = true
is_type distribution_hub distribution_hub = true
is_type regional_depot regional_depot = true
is_type returns_center returns_center = true
is_type _ _ = false

pub data ZoneType : Type 0 where
  receiving storage picking packing staging dispatch returns quarantine : ZoneType

pub record Warehouse : Type 0 where
  pub id : ℕ
  pub code : String
  pub name : String
  pub type : WarehouseType
  pub status : WarehouseStatus
  pub address_line1 : String
  pub address_line2 : Option String
  pub city : String
  pub region : Option String
  pub postal_code : Option String
  pub country_code : String
  pub latitude : Option ℤ
  pub longitude : Option ℤ
  pub entrance_latitude : Option ℤ
  pub entrance_longitude : Option ℤ
  pub map_place_id : Option String
  pub geofence_radius_m : ℕ
  pub geocoded_at : Option ℕ
  pub capacity_units : ℕ
  pub max_daily_outbound : Option ℕ
  pub timezone : String
  pub contact_name : Option String
  pub contact_email : Option String
  pub contact_phone : Option String
  pub notes : Option String
  pub updated_at : ℕ
  pub deleted_at : Option ℕ
  pub deleted_by : Option ℕ

abbrev pub is_operational : Warehouse → Bool
is_operational w = is_status w.status active && is_none w.deleted_at

pub record WarehouseZone : Type 0 where
  pub id : ℕ
  pub warehouse_id : ℕ
  pub code : String
  pub name : String
  pub type : ZoneType
  pub capacity_units : ℕ
  pub is_active : Bool
  pub deleted_at : Option ℕ
  pub deleted_by : Option ℕ

pub record WarehouseOperatingHours : Type 0 where
  pub id : ℕ
  pub warehouse_id : ℕ
  pub day_of_week : ℕ
  pub opens_at : Option ℕ
  pub closes_at : Option ℕ
  pub is_closed : Bool

-- The payload of an event: `snapshot` of events.py, less the columns that no consumer reads, and the
-- extra fields of a change of status.
pub record Snapshot : Type 0 where
  pub id : ℕ
  pub code : String
  pub name : String
  pub status : String
  pub city : String
  pub deleted : Bool
  pub updated_at : ℕ
  pub change : Option (String × Option String)

pub record Db : Type 0 where
  pub warehouses : List Warehouse
  pub zones : List WarehouseZone
  pub hours : List WarehouseOperatingHours
  pub outbox : Outbox Snapshot
  pub next_id : ℕ

-- `x IS NULL OR (x BETWEEN -90 AND 90)`, for a limit in whole degrees that is not 0
abbrev pub in_range : ℕ → Option ℤ → Bool
in_range degrees none = true
in_range degrees (some x) =
    leb_ℤ (negsuc (degrees * 1000000 - 1)) x && leb_ℤ x (pos (degrees * 1000000))

abbrev pub warehouse_checks : Warehouse → Bool
warehouse_checks w =
    ltb 0 w.capacity_units
    && in_range 90 w.latitude
    && in_range 180 w.longitude
    && in_range 90 w.entrance_latitude
    && in_range 180 w.entrance_longitude
    && ltb 0 w.geofence_radius_m

abbrev pub zone_checks : WarehouseZone → Bool
zone_checks z = ltb 0 z.capacity_units

-- valid_window: a day is closed and has no times, or is open and closes after it opens
abbrev pub valid_window : Bool → Option ℕ → Option ℕ → Bool
valid_window is_closed none none = is_closed
valid_window is_closed (some opens) (some closes) = not is_closed && ltb opens closes
valid_window is_closed _ _ = false

-- day_of_week_range and valid_window
abbrev pub hours_checks : WarehouseOperatingHours → Bool
hours_checks h =
    leb 1 h.day_of_week && leb h.day_of_week 7 && valid_window h.is_closed h.opens_at h.closes_at

unfoldable pub check_constraints : Db → Bool
check_constraints db =
    all warehouse_checks db.warehouses && all zone_checks db.zones && all hours_checks db.hours

-- uq_warehouse_zone_code, of deleted zones too
abbrev pub distinct_codes : List WarehouseZone → Bool
distinct_codes [] = true
distinct_codes (z ∷ rest) =
    not (any (λ y. y.warehouse_id == z.warehouse_id && str_eq y.code z.code) rest)
    && distinct_codes rest

-- The unique column code, uq_warehouse_zone_code and uq_warehouse_operating_day
unfoldable pub unique_constraints : Db → Bool
unique_constraints db =
    distinct_texts (map (λ w. w.code) db.warehouses)
    && distinct_codes db.zones
    && distinct_pairs (map (λ h. (h.warehouse_id, h.day_of_week)) db.hours)

-- `session.flush()`
unfoldable pub flush : Tx Db Unit
flush db =
    if check_constraints db
    then (if unique_constraints db
        then ok (tt, db)
        else err (integrity_error SqlState.unique_violation))
    else err (integrity_error SqlState.check_violation)

-- `uuid.uuid4()`
unfoldable pub uuid4 : Tx Db ℕ
uuid4 db = ok (db.next_id, record db { next_id = db.next_id + 1 })
