-- ===== src/Shipment/Models.antt =====
-- services/shipment/src/shipment/models.py and events.py: the tables, their constraints, and the
-- events that the service publishes. A coordinate is a number of millionths of a degree, a
-- reference number is the number that its sequence drew, and created_at is kept for shipments
-- alone. The columns updated_at, occurred_at and synced_at are left out: no method reads them.
use smart_logistics.Base.{
  ℕ, ◌+◌, ◌*◌, String, Bool, true, ◌&&◌, Option, none, some, List, map, ltb, if◌then◌else◌, ℤ, pos,
  ◌-ℤ◌, leb_ℤ, all, distinct,
}
use smart_logistics.Platform.Errors.{SqlState, integrity_error, ok, err}
use smart_logistics.Platform.Session.{Tx}
use smart_logistics.Platform.Roles.{UserRole}
use smart_logistics.Platform.Outbox.{Outbox}
use smart_logistics.Inventory.Models.{distinct_pairs, WarehouseRef}
use smart_logistics.Shipment.StateMachine.{ShipmentStatus}

pub data ServiceLevel : Type 0 where
  economy standard express same_day : ServiceLevel

pub data ShipmentPriority : Type 0 where
  low normal high critical : ShipmentPriority

pub data PackageStatus : Type 0 where
  pending packed labelled dispatched : PackageStatus

pub record Address : Type 0 where
  pub id : ℕ
  pub contact_name : String
  pub contact_phone : String
  pub contact_email : Option String
  pub line1 : String
  pub line2 : Option String
  pub city : String
  pub region : Option String
  pub postal_code : Option String
  pub country_code : String
  pub latitude : Option ℤ
  pub longitude : Option ℤ
  pub map_place_id : Option String
  pub delivery_instructions : Option String

pub record Shipment : Type 0 where
  pub id : ℕ
  pub reference_no : ℕ
  pub customer_reference : Option String
  pub status : ShipmentStatus
  pub service_level : ServiceLevel
  pub priority : ShipmentPriority
  pub origin_warehouse_id : ℕ
  pub origin_warehouse_code : String
  pub courier_id : Option ℕ
  pub created_by : Option ℕ
  pub destination_address_id : ℕ
  pub total_weight_g : ℕ
  pub declared_value : Option ℕ
  pub currency : String
  pub promised_delivery_at : Option ℕ
  pub dispatched_at : Option ℕ
  pub picked_up_at : Option ℕ
  pub delivered_at : Option ℕ
  pub cancelled_at : Option ℕ
  pub delivery_attempt_count : ℕ
  pub failure_reason : Option String
  pub special_instructions : Option String
  pub dispatch_workflow_id : Option String
  pub version : ℕ
  pub created_at : ℕ
  pub deleted_at : Option ℕ
  pub deleted_by : Option ℕ

pub record ShipmentItem : Type 0 where
  pub id : ℕ
  pub shipment_id : ℕ
  pub sku_id : ℕ
  pub quantity : ℕ
  pub sku_code : String
  pub sku_name : String
  pub unit_weight_g : ℕ
  pub unit_value : Option ℕ

pub record Package : Type 0 where
  pub id : ℕ
  pub shipment_id : ℕ
  pub sequence_no : ℕ
  pub barcode : ℕ
  pub status : PackageStatus
  pub weight_g : ℕ
  pub length_mm : Option ℕ
  pub width_mm : Option ℕ
  pub height_mm : Option ℕ
  pub label_url : Option String
  pub label_generated_at : Option ℕ
  pub packed_at : Option ℕ

pub record ShipmentStatusHistory : Type 0 where
  pub id : ℕ
  pub shipment_id : ℕ
  pub from_status : Option ShipmentStatus
  pub to_status : ShipmentStatus
  pub actor_id : Option ℕ
  pub actor_role : Option UserRole
  pub reason : Option String

-- events.py, `summary`
pub record Summary : Type 0 where
  pub id : ℕ
  pub reference_no : ℕ
  pub customer_reference : Option String
  pub status : ShipmentStatus
  pub service_level : ServiceLevel
  pub priority : ShipmentPriority
  pub origin_warehouse_id : ℕ
  pub origin_warehouse_code : String
  pub courier_id : Option ℕ
  pub total_weight_g : ℕ
  pub promised_delivery_at : Option ℕ
  pub version : ℕ

-- The payloads of the events: the summary, and what each adds to it.
pub data ShipmentPayload : Type 0 where
  recorded : Summary → Option ℕ → Option String → List (ℕ × ℕ) → ShipmentPayload
  changed : Summary → List String → ShipmentPayload
  moved : Summary → ShipmentStatus → Option String → ℕ → ShipmentPayload

pub record Db : Type 0 where
  pub addresses : List Address
  pub shipments : List Shipment
  pub items : List ShipmentItem
  pub packages : List Package
  pub history : List ShipmentStatusHistory
  pub warehouse_refs : List WarehouseRef
  pub outbox : Outbox ShipmentPayload
  pub next_reference : ℕ
  pub next_id : ℕ

-- `latitude IS NULL OR (latitude BETWEEN -n AND n)`, with n degrees
abbrev pub in_range : ℕ → Option ℤ → Bool
in_range n none = true
in_range n (some x) = leb_ℤ (pos 0 -ℤ pos (n * 1_000_000)) x && leb_ℤ x (pos (n * 1_000_000))

abbrev pub address_checks : Address → Bool
address_checks a = in_range 90 a.latitude && in_range 180 a.longitude

abbrev pub package_checks : Package → Bool
package_checks p = ltb 0 p.weight_g && ltb 0 p.sequence_no

-- Numbers are not negative, so weight_non_negative and attempts_non_negative hold.
unfoldable pub check_constraints : Db → Bool
check_constraints db =
    all address_checks db.addresses
    && all (λ i. ltb 0 i.quantity) db.items
    && all package_checks db.packages

abbrev pub shipment_ids : List Shipment → List ℕ
shipment_ids = map (λ s. s.id)

-- The primary key of shipments, which the service chooses, and the unique columns. Other primary
-- keys are generated.
unfoldable pub unique_constraints : Db → Bool
unique_constraints db =
    distinct (shipment_ids db.shipments)
    && distinct (map (λ s. s.reference_no) db.shipments)
    && distinct_pairs (map (λ i. (i.shipment_id, i.sku_id)) db.items)
    && distinct_pairs (map (λ p. (p.shipment_id, p.sequence_no)) db.packages)
    && distinct (map (λ p. p.barcode) db.packages)

unfoldable pub flush : Tx Db Unit
flush db =
    if check_constraints db
    then (if unique_constraints db
        then ok (tt, db)
        else err (integrity_error SqlState.unique_violation))
    else err (integrity_error SqlState.check_violation)

-- `uuid.uuid4()`
unfoldable pub uuid4 : Tx Db ℕ
uuid4 db = ok (db.next_id, record db { next_id = db.next_id + 1 })
