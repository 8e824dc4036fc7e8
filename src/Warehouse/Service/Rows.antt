-- ===== src/Warehouse/Service/Rows.antt =====
-- The rows that WarehouseService (services/warehouse/src/warehouse/services/warehouses.py) adds and changes.
use smart_logistics.Base.{
  ℕ, Bool, true, false, ◌&&◌, ◌||◌, Option, none, some, ◌==◌, str_eq, is_some, if◌then◌else◌, eqb_ℤ,
}
use smart_logistics.Warehouse.Models.{
  Warehouse, active, inactive, is_status, is_type, WarehouseZone, WarehouseOperatingHours,
}
use smart_logistics.Warehouse.Schemas.{
  OperatingHoursWrite, WarehouseZoneCreate, WarehouseZoneUpdate, WarehouseCreate, WarehouseUpdate,
  is_null, kept, value,
}

abbrev pub new_warehouse : ℕ → ℕ → WarehouseCreate → Warehouse
new_warehouse now warehouse_id payload = record {
  id = warehouse_id;
  code = payload.code;
  name = payload.name;
  type = payload.type;
  status = active;
  address_line1 = payload.address_line1;
  address_line2 = payload.address_line2;
  city = payload.city;
  region = payload.region;
  postal_code = payload.postal_code;
  country_code = payload.country_code;
  latitude = payload.latitude;
  longitude = payload.longitude;
  entrance_latitude = payload.entrance_latitude;
  entrance_longitude = payload.entrance_longitude;
  map_place_id = payload.map_place_id;
  geofence_radius_m = payload.geofence_radius_m;
  geocoded_at = if is_some payload.latitude && is_some payload.longitude then some now else none;
  capacity_units = payload.capacity_units;
  max_daily_outbound = payload.max_daily_outbound;
  timezone = payload.timezone;
  contact_name = payload.contact_name;
  contact_email = payload.contact_email;
  contact_phone = payload.contact_phone;
  notes = payload.notes;
  updated_at = now;
  deleted_at = none;
  deleted_by = none;
}

abbrev pub new_zone : ℕ → ℕ → WarehouseZoneCreate → WarehouseZone
new_zone zone_id warehouse_id payload = record {
  id = zone_id;
  warehouse_id = warehouse_id;
  code = payload.code;
  name = payload.name;
  type = payload.type;
  capacity_units = payload.capacity_units;
  is_active = true;
  deleted_at = none;
  deleted_by = none;
}

abbrev pub new_hours : ℕ → ℕ → OperatingHoursWrite → WarehouseOperatingHours
new_hours hours_id warehouse_id day = record {
  id = hours_id;
  warehouse_id = warehouse_id;
  day_of_week = day.day_of_week;
  opens_at = day.opens_at;
  closes_at = day.closes_at;
  is_closed = day.is_closed;
}

-- The columns that an update writes.
abbrev pub updated : ℕ → WarehouseUpdate → Warehouse → Warehouse
updated now payload w = record w {
  name = kept w.name payload.name;
  type = kept w.type payload.type;
  address_line1 = kept w.address_line1 payload.address_line1;
  address_line2 = value w.address_line2 payload.address_line2;
  city = kept w.city payload.city;
  region = value w.region payload.region;
  postal_code = value w.postal_code payload.postal_code;
  country_code = kept w.country_code payload.country_code;
  latitude = value w.latitude payload.latitude;
  longitude = value w.longitude payload.longitude;
  entrance_latitude = value w.entrance_latitude payload.entrance_latitude;
  entrance_longitude = value w.entrance_longitude payload.entrance_longitude;
  map_place_id = value w.map_place_id payload.map_place_id;
  geofence_radius_m = kept w.geofence_radius_m payload.geofence_radius_m;
  capacity_units = kept w.capacity_units payload.capacity_units;
  max_daily_outbound = value w.max_daily_outbound payload.max_daily_outbound;
  timezone = kept w.timezone payload.timezone;
  contact_name = value w.contact_name payload.contact_name;
  contact_email = value w.contact_email payload.contact_email;
  contact_phone = value w.contact_phone payload.contact_phone;
  notes = value w.notes payload.notes;
  geocoded_at =
      if is_some payload.latitude || is_some payload.longitude then some now else w.geocoded_at;
}

-- A column that may not be NULL is set to None.
unfoldable pub has_null : WarehouseUpdate → Bool
has_null payload =
    is_null payload.name
    || is_null payload.type
    || is_null payload.address_line1
    || is_null payload.city
    || is_null payload.country_code
    || is_null payload.geofence_radius_m
    || is_null payload.capacity_units
    || is_null payload.timezone

abbrev pub same_option : {A : Type 0} → (A → A → Bool) → Option A → Option A → Bool
same_option same none none = true
same_option same (some a) (some b) = same a b
same_option same _ _ = false

-- The session finds no column changed.
unfoldable pub is_same_row : Warehouse → Warehouse → Bool
is_same_row v w =
    str_eq v.name w.name
    && is_type v.type w.type
    && is_status v.status w.status
    && str_eq v.address_line1 w.address_line1
    && same_option str_eq v.address_line2 w.address_line2
    && str_eq v.city w.city
    && same_option str_eq v.region w.region
    && same_option str_eq v.postal_code w.postal_code
    && str_eq v.country_code w.country_code
    && same_option eqb_ℤ v.latitude w.latitude
    && same_option eqb_ℤ v.longitude w.longitude
    && same_option eqb_ℤ v.entrance_latitude w.entrance_latitude
    && same_option eqb_ℤ v.entrance_longitude w.entrance_longitude
    && same_option str_eq v.map_place_id w.map_place_id
    && v.geofence_radius_m == w.geofence_radius_m
    && same_option (λ a b. a == b) v.geocoded_at w.geocoded_at
    && v.capacity_units == w.capacity_units
    && same_option (λ a b. a == b) v.max_daily_outbound w.max_daily_outbound
    && str_eq v.timezone w.timezone
    && same_option str_eq v.contact_name w.contact_name
    && same_option str_eq v.contact_email w.contact_email
    && same_option str_eq v.contact_phone w.contact_phone
    && same_option str_eq v.notes w.notes
    && same_option (λ a b. a == b) v.deleted_at w.deleted_at
    && same_option (λ a b. a == b) v.deleted_by w.deleted_by

-- `onupdate=utcnow`: the row of an UPDATE, which the session makes only if a column changed.
unfoldable pub touched : ℕ → Warehouse → Warehouse → Warehouse
unfolding is_same_row
touched now old new = record new {
  updated_at = if is_same_row old new then old.updated_at else now;
}

abbrev pub deleted_warehouse : ℕ → ℕ → Warehouse → Warehouse
deleted_warehouse now user_id w = record w {
  status = inactive;
  deleted_at = some now;
  deleted_by = some user_id;
}

abbrev pub restored_warehouse : Warehouse → Warehouse
restored_warehouse w = record w { status = active; deleted_at = none; deleted_by = none }

abbrev pub updated_zone : WarehouseZoneUpdate → WarehouseZone → WarehouseZone
updated_zone payload z = record z {
  name = kept z.name payload.name;
  type = kept z.type payload.type;
  capacity_units = kept z.capacity_units payload.capacity_units;
  is_active = kept z.is_active payload.is_active;
}
