-- ===== src/Shipment/Saga/Tests.antt =====
-- A create that fails because the identifier of the shipment is taken, and its compensation.
use smart_logistics.Base.{refl, ◌≡◌, ◌+ℤ◌, ◌-ℤ◌}
use smart_logistics.Platform.Errors.{Result, err, integrity_error, SqlState}
use smart_logistics.Platform.Session.{transact}
use smart_logistics.Platform.Outbox.{add_event}
use smart_logistics.Inventory.Models as Inv
use smart_logistics.Inventory.Events.{emit_stock_event}
use smart_logistics.Inventory.Events as Events
use smart_logistics.Inventory.Replicas as Replicas
use smart_logistics.Inventory.Holds.{modify_item, for_each, release_position}
use smart_logistics.Inventory.Reservations.{
  lock_item_ids, lock_items, lock_held, lock_holds, for_shipment, release, release_holds,
  expire_holds, expire_unconfirmed,
}
use smart_logistics.Inventory.Reserve.{
  reserve, reserve_after, load_skus, insert_by_sku, sort_by_sku, reserved_line, reserved_lines,
  common_status, earliest_expiry, result, is_short, hold_line, hold_lines, check_stock, hold_all,
}
use smart_logistics.Inventory.Tests.Samples.{stocked, stocked-IsValid, manager}
use smart_logistics.Shipment.Models as Ship
use smart_logistics.Shipment.Models.{Shipment}
use smart_logistics.Shipment.Repository.{get_with_detail, next_reference_no, require_operational}
use smart_logistics.Shipment.Service.Requests.{record_status, emit}
use smart_logistics.Shipment.Service.Create.{
  create, add_items, add_parcels, add_contents, emit_created,
}
use smart_logistics.Shipment.Tests.{loaded}
use smart_logistics.Shipment.Tests.Samples.{payload, barcodes}
use smart_logistics.Shipment.Saga.{
  World, answered, reserve_answer, call_reserve, compensate, settle, create_called, create_shipment,
}
use smart_logistics.Shipment.Saga.Compensated.{Unheld, create_shipment-Unheld}

-- The shipment 7 is there already.
abbrev world : World
world = record { inventory = stocked; shipments = loaded }

abbrev outcome : Result Shipment × World
outcome = create_shipment (λ e. e) answered answered 200 300 barcodes payload manager 7 world

failed_run : outcome ≡ (err (integrity_error SqlState.unique_violation), outcome.1)
unfolding create_shipment create_called settle compensate call_reserve reserve_answer transact
    reserve for_shipment reserve_after hold_all hold_lines check_stock Replicas.require_operational
    load_skus lock_items expire_unconfirmed expire_holds is_short for_each hold_line modify_item
    Inv.uuid4 Inv.flush Inv.check_constraints Inv.unique_constraints emit_stock_event Events.emit
    add_event result sort_by_sku insert_by_sku reserved_lines reserved_line common_status
    earliest_expiry ◌+ℤ◌ ◌-ℤ◌ release lock_holds lock_held lock_item_ids release_holds
    release_position create require_operational Ship.uuid4 Ship.flush Ship.check_constraints
    Ship.unique_constraints next_reference_no add_contents add_items add_parcels record_status
    emit_created get_with_detail emit
failed_run = refl

create_shipment-Unheld_example :
    Unheld 7 outcome.1.inventory × (outcome.1.shipments ≡ world.shipments)
create_shipment-Unheld_example =
    create_shipment-Unheld (λ e. e) 200 300 barcodes payload manager 7
      (integrity_error SqlState.unique_violation) world outcome.1
      (record { valid = stocked-IsValid; nothing = refl }) failed_run
