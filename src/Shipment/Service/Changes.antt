-- ===== src/Shipment/Service/Changes.antt =====
-- services/shipment/src/shipment/services/shipments.py: `update`, `change_status`, `add_package`
-- and `update_package`.
use smart_logistics.Base.{
  ℕ, ◌+◌, String, Bool, true, false, not, ◌&&◌, ◌||◌, Option, none, some, List, [], ◌∷◌, ◌++◌, ◌==◌,
  str_eq, if◌then◌else◌, is_none, first_where, update_where,
}
use smart_logistics.Platform.Errors.{
  SqlState, integrity_error, conflict, permission_denied, concurrent_update, not_found,
}
use smart_logistics.Platform.Session.{Tx, ◌>>=◌, ◌>>◌, pure, lift, gets, modify, or_raise, raise_if}
use smart_logistics.Platform.Roles.{UserRole, warehouse_operator, is_role}
use smart_logistics.Platform.Auth.{Principal, may_touch_warehouse}
use smart_logistics.Shipment.StateMachine.{
  ShipmentStatus, dispatched, picked_up, delivered, cancelled, delivery_failed, is_editable,
  transition_roles, assert_transition,
}
use smart_logistics.Shipment.Models.{
  Db, Shipment, Package, PackageStatus, changed, moved, flush, uuid4,
}
use smart_logistics.Shipment.Repository.{save, next_package_sequence, is_level, is_priority}
use smart_logistics.Shipment.Service.Requests.{
  PackageCreate, PackageUpdate, ShipmentUpdate, window, get, assert_can_pack, record_status,
  summary, emit,
}
use smart_logistics.Shipment.Service.Create.{new_package}

-- `in`, on the roles of a transition
abbrev pub is_among : UserRole → List UserRole → Bool
is_among r [] = false
is_among r (s ∷ roles) = is_role r s || is_among r roles

-- The columns that a change of status sets.
unfoldable pub moved_row : ℕ → ShipmentStatus → Option String → Shipment → Shipment
moved_row now dispatched reason s = record s { status = dispatched; dispatched_at = some now }
moved_row now picked_up reason s = record s { status = picked_up; picked_up_at = some now }
moved_row now delivered reason s = record s { status = delivered; delivered_at = some now }
moved_row now cancelled reason s = record s {
  status = cancelled;
  cancelled_at = some now;
  failure_reason = reason;
}
moved_row now delivery_failed reason s = record s {
  status = delivery_failed;
  delivery_attempt_count = s.delivery_attempt_count + 1;
  failure_reason = reason;
}
moved_row now target reason s = record s { status = target }

-- `expected_version is not None and expected_version != shipment.version`
abbrev pub is_outdated : Option ℕ → ℕ → Bool
is_outdated none version = false
is_outdated (some expected) version = not (expected == version)

-- The guards of `change_status` on the row that it read.
unfoldable pub assert_may_move : Shipment → ShipmentStatus → Principal → Option ℕ → Tx Db Unit
assert_may_move shipment target principal expected_version = do
  raise_if (not (is_among principal.role (transition_roles target))) permission_denied
  raise_if
      (is_role principal.role warehouse_operator
        && not (may_touch_warehouse principal shipment.origin_warehouse_id))
      permission_denied
  raise_if (is_outdated expected_version shipment.version) concurrent_update
  lift (assert_transition shipment.status target)

-- `change_status` after the row was read: the flush writes the trail and then the row.
unfoldable pub move :
    ℕ → Shipment → ShipmentStatus → Principal → Option String → Option ℕ → Tx Db Shipment
move now shipment target principal reason expected_version = do
  assert_may_move shipment target principal expected_version
  record_status shipment (some shipment.status) target principal reason
  saved ← save shipment (moved_row now target reason shipment)
  flush
  emit "shipment.status_changed" saved.id
      (moved (summary saved) shipment.status reason principal.user_id)
  get shipment.id principal

unfoldable pub change_status :
    ℕ → ℕ → ShipmentStatus → Principal → Option String → Option ℕ → Tx Db Shipment
change_status now shipment_id target principal reason expected_version = do
  shipment ← get shipment_id principal
  move now shipment target principal reason expected_version

-- A field that is set.
abbrev pub given : {A : Type 0} → Option A → A → A
given none old = old
given (some new) old = new

-- A field that is set to a value: None in it was refused.
abbrev pub given_value : {A : Type 0} → Option (Option A) → A → A
given_value (some (some new)) old = new
given_value _ old = old

-- `required in changes and changes[required] is None`
abbrev pub is_cleared : {A : Type 0} → Option (Option A) → Bool
is_cleared (some none) = true
is_cleared _ = false

-- A new service level moves the promise, unless the caller set one.
abbrev pub moved_promise : ShipmentUpdate → Shipment → Option ℕ
moved_promise payload s = elim payload.promised_delivery_at [
  | some t ↦ t
  | none ↦ elim payload.service_level [
    | some level ↦ some (s.created_at + window (given_value (some level) s.service_level))
    | none ↦ s.promised_delivery_at
  ]
]

unfoldable pub updated_row : ShipmentUpdate → Shipment → Shipment
updated_row payload s = record s {
  customer_reference = given payload.customer_reference s.customer_reference;
  service_level = given_value payload.service_level s.service_level;
  priority = given_value payload.priority s.priority;
  promised_delivery_at = moved_promise payload s;
  declared_value = given payload.declared_value s.declared_value;
  special_instructions = given payload.special_instructions s.special_instructions;
}

-- `==` on columns that may be NULL
abbrev pub same_option : {A : Type 0} → (A → A → Bool) → Option A → Option A → Bool
same_option same none none = true
same_option same (some a) (some b) = same a b
same_option same _ _ = false

-- The columns that `update` sets are all as they were: then no UPDATE is issued.
unfoldable pub is_unchanged : Shipment → Shipment → Bool
is_unchanged s t =
    same_option str_eq s.customer_reference t.customer_reference
    && is_level s.service_level t.service_level
    && is_priority s.priority t.priority
    && same_option (λ a b. a == b) s.promised_delivery_at t.promised_delivery_at
    && same_option (λ a b. a == b) s.declared_value t.declared_value
    && same_option str_eq s.special_instructions t.special_instructions

unfoldable pub save_if_changed : Shipment → Shipment → Tx Db Shipment
save_if_changed read new = if is_unchanged read new then pure read else save read new

-- `sorted(changes)`
abbrev pub named : {A : Type 0} → Option A → String → List String → List String
named none name names = names
named (some a) name names = name ∷ names

abbrev pub changed_names : ShipmentUpdate → List String
changed_names payload = named payload.customer_reference "customer_reference" (
    named payload.declared_value "declared_value" (
      named payload.priority "priority" (
        named payload.promised_delivery_at "promised_delivery_at" (
          named payload.service_level "service_level"
            (named payload.special_instructions "special_instructions" [])))))

unfoldable pub update : ℕ → ShipmentUpdate → Principal → Tx Db Shipment
update shipment_id payload principal = do
  shipment ← get shipment_id principal
  raise_if (not (is_editable shipment.status)) conflict
  raise_if (is_cleared payload.service_level || is_cleared payload.priority) conflict
  saved ← save_if_changed shipment (updated_row payload shipment)
  flush
  emit "shipment.updated" saved.id (changed (summary saved) (changed_names payload))
  get shipment_id principal

unfoldable pub add_package : ℕ → ℕ → PackageCreate → Principal → Tx Db Package
add_package barcode shipment_id payload principal = do
  shipment ← get shipment_id principal
  assert_can_pack shipment principal
  raise_if (not (is_editable shipment.status)) conflict
  sequence_no ← next_package_sequence shipment.id
  package_id ← uuid4
  let added = new_package package_id shipment.id sequence_no barcode payload
  modify λ db. record db { packages = db.packages ++ added ∷ [] }
  flush
  pure added

-- `changes.get("status") is PackageStatus.PACKED and package.packed_at is None`
abbrev pub packed_time : ℕ → PackageUpdate → Package → Option ℕ
packed_time now payload p = elim payload.status [
  | some (some PackageStatus.packed) ↦ (if is_none p.packed_at then some now else p.packed_at)
  | _ ↦ p.packed_at
]

unfoldable pub updated_package : ℕ → PackageUpdate → Package → Package
updated_package now payload p = record p {
  weight_g = given_value payload.weight_g p.weight_g;
  length_mm = given payload.length_mm p.length_mm;
  width_mm = given payload.width_mm p.width_mm;
  height_mm = given payload.height_mm p.height_mm;
  status = given_value payload.status p.status;
  packed_at = packed_time now payload p;
}

-- The flush refuses NULL in a column that may not hold it.
unfoldable pub update_package : ℕ → ℕ → PackageUpdate → Principal → Tx Db Package
update_package now package_id payload principal = do
  rows ← gets λ db. db.packages
  found ← or_raise (first_where (λ p. p.id == package_id) rows) not_found
  shipment ← get found.shipment_id principal
  assert_can_pack shipment principal
  raise_if (is_cleared payload.weight_g || is_cleared payload.status)
      (integrity_error SqlState.not_null_violation)
  modify λ db. record db {
    packages = update_where (λ p. p.id == package_id) (updated_package now payload) db.packages;
  }
  flush
  pure (updated_package now payload found)
