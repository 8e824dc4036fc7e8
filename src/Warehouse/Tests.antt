-- ===== src/Warehouse/Tests.antt =====
-- A warehouse (10) that was closed for maintenance, and Inventory, which hears of it late and twice;
-- an operator who
-- deletes a zone of it and changes its opening hours.
use smart_logistics.Base.{
  false, ◌≡◌, refl, none, some, List, [], ◌∷◌, arith, inl, inr, pos, map, Option, true, ℕ,
}
use smart_logistics.Platform.Errors.{ok, err, warehouse_not_operational}
use smart_logistics.Inventory.Replicas.{require_operational}
use smart_logistics.Inventory.Tests.Samples.{stocked}
use smart_logistics.Platform.Auth.{Principal, route}
use smart_logistics.Platform.Roles.{warehouse_operator}
use smart_logistics.Warehouse.Models.{
  Db, WarehouseOperatingHours, flush, check_constraints, unique_constraints, Warehouse,
  fulfillment_center, active, maintenance, Snapshot, WarehouseZone, picking,
}
use smart_logistics.Warehouse.Schemas.{OperatingHoursWrite, WeeklyScheduleUpdate, is_valid_schedule}
use smart_logistics.Warehouse.Schedule.Stored.{IsStored, replace_hours-IsStored}
use smart_logistics.Warehouse.Api as Api
use smart_logistics.Warehouse.Api.Requests.{delete_zone, serve}
use smart_logistics.Warehouse.Api.Scopes.{Scoped}
use smart_logistics.Warehouse.Api.Scopes.Served.{served-Scoped}
use smart_logistics.Warehouse.Repository as Repository
use smart_logistics.Warehouse.Repository.{get_zone}
use smart_logistics.Warehouse.Service as Service
use smart_logistics.Warehouse.Service.{snapshot, new_hours, assert_can_manage, replace_hours}
use smart_logistics.Warehouse.Replicated.{consume, inventory_follows}

abbrev karachi : Warehouse
karachi = record {
  id = 10;
  code = "KHI-1";
  name = "Karachi";
  type = fulfillment_center;
  status = active;
  address_line1 = "Plot 42";
  address_line2 = none;
  city = "Karachi";
  region = none;
  postal_code = none;
  country_code = "PK";
  latitude = some (pos 24860700);
  longitude = some (pos 67001100);
  entrance_latitude = none;
  entrance_longitude = none;
  map_place_id = none;
  geofence_radius_m = 150;
  geocoded_at = some 90;
  capacity_units = 50000;
  max_daily_outbound = none;
  timezone = "Asia/Karachi";
  contact_name = none;
  contact_email = none;
  contact_phone = none;
  notes = none;
  updated_at = 100;
  deleted_at = none;
  deleted_by = none;
}

abbrev closed_now : Warehouse
closed_now = record karachi { status = maintenance; updated_at = 140 }

abbrev delivered : List Snapshot
delivered =
    snapshot closed_now (some ("active", none))
    ∷ snapshot (record karachi { updated_at = 120 }) none
    ∷ snapshot closed_now (some ("active", none))
    ∷ []

inventory_follows_example :
    require_operational 10 (consume delivered stocked) ≡ err warehouse_not_operational
inventory_follows_example =
    inventory_follows closed_now delivered stocked (inl refl)
      (inr (inr refl), (inr (inl (omega arith)), (inr (inr refl), tt))) (omega arith)

abbrev zone : ℕ → ℕ → WarehouseZone
zone zone_id warehouse_id = record {
  id = zone_id;
  warehouse_id = warehouse_id;
  code = "P-1";
  name = "Picking";
  type = picking;
  capacity_units = 400;
  is_active = true;
  deleted_at = none;
  deleted_by = none;
}

abbrev two_sites : Db
two_sites = record {
  warehouses = karachi ∷ record karachi { id = 11; code = "LHE-1" } ∷ [];
  zones = zone 20 10 ∷ zone 21 11 ∷ [];
  hours = [];
  outbox = record { rows = []; next_seq = 1 };
  next_id = 100;
}

-- The operator of the warehouse 10
abbrev operator : Principal
operator = record {
  user_id = 2;
  role = warehouse_operator;
  warehouse_ids = 10 ∷ [];
  courier_id = none;
}

deleted_zones : ℕ → List (Option ℕ)
unfolding Api.delete_zone route
deleted_zones zone_id =
    map (λ z. z.deleted_at) (serve 500 (delete_zone zone_id) operator two_sites).1.zones

own_zone-deleted : deleted_zones 20 ≡ some 500 ∷ none ∷ []
unfolding deleted_zones Service.delete_zone get_zone assert_can_manage Repository.get flush
    check_constraints unique_constraints
own_zone-deleted = refl

other_zone-kept : deleted_zones 21 ≡ none ∷ none ∷ []
unfolding deleted_zones Service.delete_zone get_zone assert_can_manage Repository.get flush
    check_constraints unique_constraints
other_zone-kept = refl

served-Scoped_example : Scoped operator two_sites (serve 500 (delete_zone 20) operator two_sites).1
served-Scoped_example = served-Scoped 500 (delete_zone 20) operator two_sites refl refl

abbrev open_on : ℕ → OperatingHoursWrite
open_on day = record {
  day_of_week = day;
  opens_at = some 28800;
  closes_at = some 72000;
  is_closed = false;
}

-- Open from 8 to 20 on Sundays of the warehouse 10 and on Mondays of 11.
abbrev with_hours : Db
with_hours = record two_sites {
  hours = new_hours 30 10 (open_on 7) ∷ new_hours 31 11 (open_on 1) ∷ [];
}

-- Closed on Sundays, and open on Mondays
abbrev new_week : WeeklyScheduleUpdate
new_week = record {
  days =
      record { day_of_week = 7; opens_at = none; closes_at = none; is_closed = true }
      ∷ open_on 1
      ∷ [];
}

replace_hours-IsStored_example :
    (rows : List WarehouseOperatingHours) × (db : Db) × (replace_hours 10 new_week operator
        with_hours
      ≡ ok (rows, db))
    × IsStored 10 new_week.days operator rows db
    × (flush db ≡ ok (tt, db))
unfolding is_valid_schedule check_constraints unique_constraints
replace_hours-IsStored_example =
    replace_hours-IsStored 10 new_week operator karachi with_hours refl refl refl refl refl refl
