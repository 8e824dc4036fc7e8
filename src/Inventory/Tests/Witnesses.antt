-- ===== src/Inventory/Tests/Witnesses.antt =====
-- The theorems of the Inventory service at work on the sample database.
use smart_logistics.Base.{
  ℕ, ◌≡◌, ◌≢◌, refl, Option, none, some, [], ◌∷◌, pos, true, false, ◌+ℤ◌, ◌-ℤ◌, rows_where, ◌==◌,
  first_where,
}
use smart_logistics.Platform.Errors.{ok, err}
use smart_logistics.Platform.Session.{Tx}
use smart_logistics.Platform.Outbox.{add_event}
use smart_logistics.Inventory.Models.{
  Db, InventoryItem, held, flush, check_constraints, unique_constraints, uuid4,
}
use smart_logistics.Inventory.Events.{emit, emit_stock_event}
use smart_logistics.Inventory.Replicas.{require_operational}
use smart_logistics.Inventory.Schemas.{ReservationResult}
use smart_logistics.Inventory.Holds.{
  modify_item, for_each, release_position, add_movement, commit_position,
}
use smart_logistics.Inventory.Reservations.{
  lock_item_ids, lock_items, lock_held, lock_holds, for_shipment, commit, commit_holds, release,
  release_holds, expire_holds, expire_unconfirmed, sweep, release_expired,
}
use smart_logistics.Inventory.Reservations.Lifecycle.{open_holds}
use smart_logistics.Inventory.Reservations.Retries.{release_twice, commit_twice}
use smart_logistics.Inventory.Reservations.Expiry.{sweep_keeps_confirmed, is_confirmed}
use smart_logistics.Inventory.Reserve.{
  reserve, reserve_after, load_skus, insert_by_sku, sort_by_sku, reserved_line, reserved_lines,
  common_status, earliest_expiry, result, is_short, hold_line, hold_lines, check_stock, hold_all,
}
use smart_logistics.Inventory.Reserve.Made.{reserve-outcome, ReserveOutcome, holds_of}
use smart_logistics.Inventory.Stock.{
  manages, assert_manages, record_opening, open_position, adjust_item, adjust, InventoryItemCreate,
  new_item,
}
use smart_logistics.Inventory.Stock.Adjusting.{adjust-Adjusts, Adjusts}
use smart_logistics.Inventory.Stock.Opening.{open_position-Opens, Opens}
use smart_logistics.Inventory.Accounts.Valid.{IsValid}
use smart_logistics.Inventory.System.{reserves, here, next, Reach-IsValid}
use smart_logistics.Inventory.Tests.Samples.{
  stocked, stocked-IsValid, holding, holding-IsValid, request, manager, breakage, position, sku,
}

-- The state that a method leaves.
abbrev left_by : {A : Type 0} → Tx Db A → Db → Db
left_by m db = elim (m db) [ ok (a, db') ↦ db' | err e ↦ db ]

abbrev promised : ReservationResult
promised = record {
  shipment_id = 7;
  warehouse_id = 10;
  status = held;
  confirmed = false;
  expires_at = some 500;
  lines =
      record {
        sku_id = 1;
        quantity = 4;
        sku_code = "SKU-1";
        sku_name = "Kettle";
        unit_weight_g = 900;
        unit_value = some 4500;
        currency = "PKR";
      }
      ∷ [];
}

abbrev reserved : Db
reserved = left_by (reserve 200 300 request) stocked

reserve_run : reserve 200 300 request stocked ≡ ok ((promised, true), reserved)
unfolding reserve for_shipment reserve_after hold_all hold_lines check_stock require_operational
    load_skus lock_items expire_unconfirmed expire_holds is_short for_each hold_line modify_item
    uuid4 flush check_constraints unique_constraints emit_stock_event emit add_event result
    sort_by_sku insert_by_sku reserved_lines reserved_line common_status earliest_expiry ◌+ℤ◌ ◌-ℤ◌
reserve_run = refl

reserve-outcome_example :
    ReserveOutcome 200 300 request stocked true reserved (holds_of request.shipment_id stocked)
reserve-outcome_example =
    reserve-outcome 200 300 request promised true stocked reserved stocked-IsValid reserve_run

-- The stock is held, and leaves.
abbrev committed_db : Db
committed_db = left_by (commit 350 (some 2) 7) (holding (some 300))

commit_run : commit 350 (some 2) 7 (holding (some 300)) ≡ ok (1, committed_db)
unfolding commit lock_holds lock_held lock_item_ids commit_holds for_each commit_position
    modify_item add_movement uuid4 flush check_constraints unique_constraints emit_stock_event emit
    add_event ◌+ℤ◌ ◌-ℤ◌
commit_run = refl

release_run :
    release 350 7 "Cancelled" (holding none)
    ≡ ok (1, left_by (release 350 7 "Cancelled") (holding none))
unfolding release lock_holds lock_held lock_item_ids release_holds for_each release_position
    modify_item uuid4 flush check_constraints unique_constraints emit_stock_event emit add_event
    ◌+ℤ◌ ◌-ℤ◌
release_run = refl

Reach-IsValid_example : IsValid reserved
Reach-IsValid_example =
    Reach-IsValid {start = stocked} {db = reserved}
      (next here (reserves 200 300 request promised true reserve_run)) stocked-IsValid

release_twice_example :
    release 360 7 "Again" (left_by (release 350 7 "Cancelled") (holding none))
    ≡ ok (0, left_by (release 350 7 "Cancelled") (holding none))
release_twice_example =
    release_twice 350 360 7 1 "Cancelled" "Again" (holding none)
      (left_by (release 350 7 "Cancelled") (holding none)) (holding-IsValid none) release_run

one_open : (confirmed_at : Option ℕ) → open_holds 7 (holding confirmed_at) ≢ []
one_open confirmed_at e = cc

commit_twice_example : commit 400 none 7 committed_db ≡ ok (0, committed_db)
commit_twice_example =
    commit_twice 350 400 7 1 (some 2) none (holding (some 300)) committed_db
      (holding-IsValid (some 300)) (one_open (some 300)) commit_run

sweep_run : release_expired 600 none (holding (some 300)) ≡ ok (0, holding (some 300))
unfolding release_expired sweep
sweep_run = refl

sweep_keeps_confirmed_example :
    rows_where is_confirmed (holding (some 300)).reservations
    ≡ rows_where is_confirmed (holding (some 300)).reservations
sweep_keeps_confirmed_example =
    sweep_keeps_confirmed 600 0 none (holding (some 300)) (holding (some 300))
      (holding-IsValid (some 300)) sweep_run

adjust_run :
    adjust 5 breakage manager (holding none)
    ≡ ok (
      record (position 4) { on_hand_qty = pos 7; version = 2 },
      left_by (adjust 5 breakage manager) (holding none),
    )
unfolding adjust adjust_item assert_manages manages modify_item add_movement uuid4 flush
    check_constraints unique_constraints emit add_event ◌+ℤ◌ ◌-ℤ◌
adjust_run = refl

adjust-Adjusts_example :
    (found : InventoryItem) × (first_where (λ i. i.id == 5) (holding none).items ≡ some found)
    × Adjusts manager breakage found
        (record (position 4) { on_hand_qty = pos 7; version = 2 })
        (holding none)
        (left_by (adjust 5 breakage manager) (holding none))
adjust-Adjusts_example =
    adjust-Adjusts 5 breakage manager (record (position 4) { on_hand_qty = pos 7; version = 2 })
      (holding none) (left_by (adjust 5 breakage manager) (holding none)) (holding-IsValid none)
      adjust_run

-- Another SKU comes to the warehouse.
abbrev wider : Db
wider = record stocked { skus = sku ∷ record sku { id = 2; code = "SKU-2" } ∷ [] }

wider-IsValid : IsValid wider
unfolding unique_constraints
wider-IsValid = record {
  positions = stocked-IsValid.positions;
  references = tt;
  entries = stocked-IsValid.entries;
  fresh = stocked-IsValid.fresh;
  holds = refl;
  ledger = refl;
  unique = refl;
}

abbrev opening : InventoryItemCreate
opening = record {
  warehouse_id = 10;
  sku_id = 2;
  zone_id = none;
  on_hand_qty = 3;
  reorder_level = 1;
}

open_run :
    open_position opening manager wider
    ≡ ok (new_item opening 100, left_by (open_position opening manager) wider)
unfolding open_position assert_manages manages require_operational record_opening add_movement uuid4
    flush check_constraints unique_constraints
open_run = refl

open_position-Opens_example :
    Opens opening manager
      (new_item opening 100)
      wider
      (left_by (open_position opening manager) wider)
open_position-Opens_example =
    open_position-Opens opening manager (new_item opening 100) wider
      (left_by (open_position opening manager) wider) wider-IsValid open_run

-- The hold was released, and the request comes again.
abbrev expired_db : Db
expired_db = left_by (release 350 7 "Cancelled") (holding none)
