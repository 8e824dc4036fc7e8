-- ===== src/Platform/Outbox/Order.antt =====
-- The pending events of the outbox, before and after a run of the relay.
use smart_logistics.Base.{ℕ, List, map, rows_where}
use smart_logistics.Platform.Events.{EventEnvelope}
use smart_logistics.Platform.Outbox.{OutboxEvent, Outbox, is_pending}

module _ {P : Type 0} where
  abbrev pub pending : List (OutboxEvent P) → List (OutboxEvent P)
  pending table = rows_where is_pending table

  abbrev pub seqs : List (OutboxEvent P) → List ℕ
  seqs = map (λ r. r.seq)

  abbrev pub envelopes : List (OutboxEvent P) → List (EventEnvelope P)
  envelopes = map (λ r. r.envelope)
