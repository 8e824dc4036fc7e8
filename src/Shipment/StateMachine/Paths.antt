-- ===== src/Shipment/StateMachine/Paths.antt =====
-- The paths that a shipment can take through the transitions of state_machine.py.
use smart_logistics.Base.{◌≡◌, ◌≢◌, Bool, true, false, arith}
use smart_logistics.Shipment.StateMachine.{
  ShipmentStatus, created, ready_for_dispatch, dispatching, dispatch_failed, cancelled,
  can_transition, allowed_transitions, is_terminal,
}

-- Any number of legal transitions.
pub data StatusPath : ShipmentStatus → ShipmentStatus → Type 0 where
  stays : {s : ShipmentStatus} → StatusPath s s
  moves : {s t u : ShipmentStatus} → can_transition s t ≡ true → StatusPath t u → StatusPath s u

-- The goods have left the warehouse.
abbrev pub has_left : ShipmentStatus → Bool
has_left created = false
has_left ready_for_dispatch = false
has_left dispatching = false
has_left dispatch_failed = false
has_left cancelled = false
has_left _ = true

stays_out :
    (s t : ShipmentStatus) → can_transition s t ≡ true → has_left s ≡ true → has_left t ≡ true
unfolding can_transition allowed_transitions
stays_out s t h out = ground arith

-- Once the goods have left the warehouse, no sequence of transitions brings the shipment back to a
-- state before that or cancels it.
pub no_cancel_after_dispatch :
    {s t : ShipmentStatus}
    → StatusPath s t
    → has_left s ≡ true
    → (has_left t ≡ true) × (t ≢ cancelled)
no_cancel_after_dispatch (stays {s}) out = (out, λ e. cc)
no_cancel_after_dispatch (moves {s} {t} h p) out = no_cancel_after_dispatch p (stays_out s t h out)

-- A shipment in a terminal state takes no transition.
pub terminal-final : (s t : ShipmentStatus) → is_terminal s ≡ true → can_transition s t ≡ false
unfolding is_terminal can_transition allowed_transitions
terminal-final s t h = ground arith
