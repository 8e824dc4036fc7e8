-- ===== src/Shipment/StateMachine.antt =====
-- services/shipment/src/shipment/state_machine.py: the legal transitions and who may make them.
pub mod Paths
use smart_logistics.Base.{ℕ, Bool, true, false, not, ◌&&◌, ◌||◌, List, [], ◌∷◌, ◌==◌, if◌then◌else◌}
use smart_logistics.Platform.Errors.{Result, ok, err, conflict}
use smart_logistics.Platform.Roles.{UserRole, admin, customer_support, warehouse_operator, courier}

-- models.py, ShipmentStatus
pub data ShipmentStatus : Type 0 where
  created ready_for_dispatch dispatching dispatch_failed dispatched : ShipmentStatus
  picked_up in_transit out_for_delivery delivered delivery_failed : ShipmentStatus
  return_initiated returned cancelled : ShipmentStatus

-- The place of a member in its enumeration.
abbrev pub ordinal : ShipmentStatus → ℕ
ordinal created = 0
ordinal ready_for_dispatch = 1
ordinal dispatching = 2
ordinal dispatch_failed = 3
ordinal dispatched = 4
ordinal picked_up = 5
ordinal in_transit = 6
ordinal out_for_delivery = 7
ordinal delivered = 8
ordinal delivery_failed = 9
ordinal return_initiated = 10
ordinal returned = 11
ordinal cancelled = 12

-- `a is b`
abbrev pub is_same : ShipmentStatus → ShipmentStatus → Bool
is_same a b = ordinal a == ordinal b

-- `a in statuses`
abbrev pub is_in : ShipmentStatus → List ShipmentStatus → Bool
is_in a [] = false
is_in a (s ∷ statuses) = is_same a s || is_in a statuses

unfoldable pub allowed_transitions : ShipmentStatus → List ShipmentStatus
allowed_transitions created = ready_for_dispatch ∷ cancelled ∷ []
allowed_transitions ready_for_dispatch = dispatching ∷ cancelled ∷ []
allowed_transitions dispatching = dispatched ∷ dispatch_failed ∷ []
allowed_transitions dispatch_failed = ready_for_dispatch ∷ cancelled ∷ []
allowed_transitions dispatched = picked_up ∷ []
allowed_transitions picked_up = in_transit ∷ []
allowed_transitions in_transit = out_for_delivery ∷ []
allowed_transitions out_for_delivery = delivered ∷ delivery_failed ∷ []
allowed_transitions delivery_failed = out_for_delivery ∷ return_initiated ∷ []
allowed_transitions return_initiated = returned ∷ []
allowed_transitions delivered = []
allowed_transitions returned = []
allowed_transitions cancelled = []

-- TERMINAL_STATES
unfoldable pub is_terminal : ShipmentStatus → Bool
unfolding allowed_transitions
is_terminal s = elim (allowed_transitions s) [ [] ↦ true | t ∷ rest ↦ false ]

-- EDITABLE_STATES
abbrev pub is_editable : ShipmentStatus → Bool
is_editable s = is_in s (created ∷ ready_for_dispatch ∷ dispatch_failed ∷ [])

-- OPEN_STATES
abbrev pub is_open : ShipmentStatus → Bool
is_open s = not (is_terminal s) && not (is_same s return_initiated)

-- TRANSITION_ROLES; no role may move a shipment into `created`.
unfoldable pub transition_roles : ShipmentStatus → List UserRole
transition_roles created = []
transition_roles ready_for_dispatch = admin ∷ warehouse_operator ∷ []
transition_roles dispatching = admin ∷ []
transition_roles dispatched = admin ∷ []
transition_roles dispatch_failed = admin ∷ []
transition_roles picked_up = admin ∷ courier ∷ []
transition_roles in_transit = admin ∷ courier ∷ []
transition_roles out_for_delivery = admin ∷ courier ∷ []
transition_roles delivered = admin ∷ courier ∷ []
transition_roles delivery_failed = admin ∷ courier ∷ []
transition_roles return_initiated = admin ∷ customer_support ∷ []
transition_roles returned = admin ∷ warehouse_operator ∷ []
transition_roles cancelled = admin ∷ customer_support ∷ []

unfoldable pub can_transition : ShipmentStatus → ShipmentStatus → Bool
unfolding allowed_transitions
can_transition current target = is_in target (allowed_transitions current)

unfoldable pub assert_transition : ShipmentStatus → ShipmentStatus → Result (Unit {0})
unfolding can_transition
assert_transition current target =
    if is_same current target
    then err conflict
    else if not (can_transition current target)
    then err conflict
    else ok tt
