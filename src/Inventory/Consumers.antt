-- ===== src/Inventory/Consumers.antt =====
-- services/inventory/src/inventory/events.py: the events that the service consumes. Stock follows
-- the lifecycle of shipments.
pub mod Delivered
pub mod Follows
use smart_logistics.Base.{ℕ, Bool, ◌||◌, String, Option, none, some, str_eq, if◌then◌else◌}
use smart_logistics.Platform.Errors.{key_error}
use smart_logistics.Platform.Session.{Tx, ◌>>=◌, ◌>>◌, pure, raise}
use smart_logistics.Platform.Events.{EventEnvelope}
use smart_logistics.Platform.Consumer.{Handlers}
use smart_logistics.Inventory.Models.{Db, WarehouseRef}
use smart_logistics.Inventory.Replicas.{upsert_warehouse}
use smart_logistics.Inventory.Reservations.{confirm, commit, release}

-- The fields that the handlers read: a snapshot, or a shipment's id, status and reason.
pub data ConsumedPayload : Type 0 where
  warehouse_snapshot : WarehouseRef → ConsumedPayload
  shipment_event : ℕ → String → Option String → ConsumedPayload

unfoldable pub on_warehouse_snapshot : EventEnvelope ConsumedPayload → Tx Db Unit
on_warehouse_snapshot event = elim event.payload [
  | warehouse_snapshot snapshot ↦ upsert_warehouse snapshot
  | shipment_event shipment_id status reason ↦ raise key_error
]

unfoldable pub on_shipment_created : ℕ → EventEnvelope ConsumedPayload → Tx Db Unit
on_shipment_created now event = elim event.payload [
  | warehouse_snapshot snapshot ↦ raise key_error
  | shipment_event shipment_id status reason ↦ (do confirm now shipment_id; pure tt)
]

-- `event.payload.get("reason") or "Shipment cancelled"`
abbrev pub reason_or_default : Option String → String
reason_or_default none = "Shipment cancelled"
reason_or_default (some reason) = if str_eq reason "" then "Shipment cancelled" else reason

-- Dispatched commits, cancelled releases.
unfoldable pub follow_status : ℕ → ℕ → String → Option String → Tx Db Unit
follow_status now shipment_id status reason =
    if str_eq status "dispatched"
    then (do commit now none shipment_id; pure tt)
    else if str_eq status "cancelled"
    then (do release now shipment_id (reason_or_default reason); pure tt)
    else pure tt

unfoldable pub on_shipment_status_changed : ℕ → EventEnvelope ConsumedPayload → Tx Db Unit
on_shipment_status_changed now event = elim event.payload [
  | warehouse_snapshot snapshot ↦ raise key_error
  | shipment_event shipment_id status reason ↦ follow_status now shipment_id status reason
]

-- `"warehouse.created"` and the other events with a snapshot
abbrev pub is_snapshot : String → Bool
is_snapshot event_type =
    str_eq event_type "warehouse.created"
    || str_eq event_type "warehouse.updated"
    || str_eq event_type "warehouse.status_changed"
    || str_eq event_type "warehouse.deleted"
    || str_eq event_type "warehouse.restored"

-- The handlers of `build_processor`.
unfoldable pub processor_handlers : ℕ → Handlers Db ConsumedPayload
processor_handlers now event_type =
    if is_snapshot event_type
    then some on_warehouse_snapshot
    else if str_eq event_type "shipment.created"
    then some (on_shipment_created now)
    else if str_eq event_type "shipment.status_changed"
    then some (on_shipment_status_changed now)
    else none
