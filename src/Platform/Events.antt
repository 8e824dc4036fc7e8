-- ===== src/Platform/Events.antt =====
-- libs/sl-platform/src/sl_platform/events.py: the envelope of an event, over the type of its
-- payload. The time of the event and its trace context are read by no code of the repository and
-- are left out.
use smart_logistics.Base.{ℕ, String}

pub data Topic : Type 0 where
  identity warehouse inventory shipment : Topic

pub record EventEnvelope (P : Type 0) : Type 0 where
  pub event_id : ℕ
  pub event_type : String
  pub key : ℕ
  pub payload : P
