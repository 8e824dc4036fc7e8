-- ===== src/Shipment/Tests.antt =====
-- The theorems of the Shipment service at work on a small database: one shipment (7) from the
-- warehouse 10, ready for dispatch.
pub mod Samples
use smart_logistics.Base.{ℕ, ◌+◌, ◌≡◌, ◌≢◌, refl, String, true, false, none, some, [], ◌∷◌}
use smart_logistics.Shipment.Tests.Samples.{
  left_by, no_shipments, no_shipments-IsTrailed, payload, reservation, barcodes, creation, shipment,
  with_one,
}
use smart_logistics.Platform.Errors.{ok, err, stale_data}
use smart_logistics.Platform.Session.{Tx}
use smart_logistics.Platform.Roles.{warehouse_operator}
use smart_logistics.Platform.Auth.{Principal}
use smart_logistics.Platform.Outbox.{add_event}
use smart_logistics.Inventory.Models.{held}
use smart_logistics.Inventory.Schemas.{ReservationResult}
use smart_logistics.Inventory.Tests.Samples.{warehouse, manager}
use smart_logistics.Shipment.StateMachine.{
  ShipmentStatus, created, ready_for_dispatch, dispatching, dispatched, picked_up, cancelled,
  can_transition, assert_transition, allowed_transitions, transition_roles,
}
use smart_logistics.Shipment.StateMachine.Paths.{
  StatusPath, stays, moves, has_left, no_cancel_after_dispatch,
}
use smart_logistics.Shipment.Models.{
  Db, Address, Shipment, express, normal, flush, check_constraints, unique_constraints, uuid4,
}
use smart_logistics.Shipment.Repository.{
  Filters, get_with_detail, save, next_reference_no, require_operational,
}
use smart_logistics.Shipment.Service.Requests.{
  ShipmentCreate, get, visible, record_status, emit, trail_row,
}
use smart_logistics.Shipment.Service.Create.{
  create, add_items, add_parcels, add_contents, emit_created,
}
use smart_logistics.Shipment.Service.Changes.{move, moved_row, assert_may_move}
use smart_logistics.Shipment.Service.Moves.{Moves}
use smart_logistics.Shipment.Service.Stale.{lost_update-refused}
use smart_logistics.Shipment.Trail.Created.{Creates, create-Creates}
use smart_logistics.Shipment.Trail.Kept.{IsTrailed}
use smart_logistics.Shipment.Trail.System.{
  creates, here, next, Reach-IsTrailed, left_warehouse-not_cancelled,
}

create_run : creation no_shipments ≡ ok (shipment, with_one)
unfolding create require_operational uuid4 flush check_constraints unique_constraints
    next_reference_no add_contents add_items add_parcels record_status emit_created get_with_detail
    emit add_event
create_run = refl

create-Creates_example : Creates 7 manager no_shipments with_one
create-Creates_example =
    create-Creates 200 (ok reservation) barcodes payload manager 7 shipment no_shipments with_one
      create_run

-- A table with that shipment in the state DISPATCHING.
abbrev leaving : Shipment
leaving = record shipment { status = dispatching; version = 3 }

abbrev pub loaded : Db
loaded = record no_shipments { shipments = leaving ∷ [] }

abbrev gone : Shipment
gone = record leaving { status = dispatched; dispatched_at = some 300; version = 4 }

abbrev after_dispatch : Db
after_dispatch = left_by (move 300 leaving dispatched manager none (some 3)) loaded

move_run : move 300 leaving dispatched manager none (some 3) loaded ≡ ok (gone, after_dispatch)
unfolding move assert_may_move transition_roles assert_transition can_transition allowed_transitions
    record_status uuid4 save moved_row flush check_constraints unique_constraints emit add_event get
    get_with_detail visible
move_run = refl

guards_pass :
    assert_may_move leaving ShipmentStatus.dispatch_failed manager none after_dispatch
    ≡ ok (tt, after_dispatch)
unfolding assert_may_move transition_roles assert_transition can_transition allowed_transitions
guards_pass = refl

lost_update-refused_example :
    move 301 leaving ShipmentStatus.dispatch_failed manager (some "no truck") none after_dispatch
    ≡ err stale_data
lost_update-refused_example =
    lost_update-refused 300 301 leaving dispatched ShipmentStatus.dispatch_failed manager manager
      none (some "no truck") (some 3) none gone loaded after_dispatch move_run guards_pass

Reach-IsTrailed_example : IsTrailed with_one
Reach-IsTrailed_example =
    Reach-IsTrailed {start = no_shipments} {db = with_one}
      (next here (creates 200 (ok reservation) barcodes payload manager 7 shipment create_run))
      no_shipments-IsTrailed

-- A shipment with the history of one that was dispatched.
abbrev dispatched_db : Db
dispatched_db = record no_shipments {
  shipments = record shipment { status = dispatched; version = 4 } ∷ [];
  history =
      trail_row 1 7 none created manager none
      ∷ trail_row 2 7 (some created) ready_for_dispatch manager none
      ∷ trail_row 3 7 (some ready_for_dispatch) dispatching manager none
      ∷ trail_row 4 7 (some dispatching) dispatched manager none
      ∷ [];
}

dispatched_db-IsTrailed : IsTrailed dispatched_db
unfolding can_transition allowed_transitions
dispatched_db-IsTrailed = record {
  trails = ((refl, refl, (refl, refl, (refl, refl, (refl, refl, refl)))), tt);
  refers = (refl, (refl, (refl, (refl, tt))));
  unique = refl;
}

left_warehouse-not_cancelled_example : dispatched ≢ cancelled
left_warehouse-not_cancelled_example =
    left_warehouse-not_cancelled {start = dispatched_db} {db = dispatched_db} 7
      (record shipment { status = dispatched; version = 4 }) here dispatched_db-IsTrailed refl refl

dispatched_to_picked_up : StatusPath dispatched picked_up
unfolding can_transition allowed_transitions
dispatched_to_picked_up = moves refl stays

no_cancel_after_dispatch_example : (has_left picked_up ≡ true) × (picked_up ≢ cancelled)
no_cancel_after_dispatch_example = no_cancel_after_dispatch dispatched_to_picked_up refl

abbrev operator : Principal
operator = record {
  user_id = 4;
  role = warehouse_operator;
  warehouse_ids = 10 ∷ [];
  courier_id = none;
}

abbrev no_filters : Filters
no_filters = record {
  status = none;
  service_level = none;
  priority = none;
  origin_warehouse_id = none;
  courier_id = none;
  created_by = none;
  city = none;
  search = none;
  created_from = none;
  created_to = none;
  overdue_only = none;
  allowed_warehouse_ids = none;
  restrict_to_courier_id = none;
}

abbrev number_text : ℕ → String
number_text n = "SL"
