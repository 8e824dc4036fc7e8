-- ===== src/Platform/Outbox.antt =====
-- libs/sl-platform/src/sl_platform/outbox.py and models.py (OutboxEvent): an event is written
-- with the change that it reports. `P` is the type of the service's payloads.
pub mod Order
use smart_logistics.Base.{
  ℕ, zero, suc, ◌+◌, String, Bool, Option, none, some, List, [], ◌∷◌, ◌++◌, ◌==◌, is_none,
  if◌then◌else◌, rows_where, update_where,
}
use smart_logistics.Platform.Events.{Topic, EventEnvelope}

pub record OutboxEvent (P : Type 0) : Type 0 where
  pub seq : ℕ
  pub topic : Topic
  pub envelope : EventEnvelope P
  pub published_at : Option ℕ
  pub attempts : ℕ

-- The table with its identity column: rows in the order of `seq`.
pub record Outbox (P : Type 0) : Type 0 where
  pub rows : List (OutboxEvent P)
  pub next_seq : ℕ

unfoldable pub add_event : {P : Type 0} → Topic → ℕ → String → ℕ → P → Outbox P → Outbox P
add_event topic event_id event_type key payload outbox = record {
  rows =
      outbox.rows
      ++ record {
        seq = outbox.next_seq;
        topic = topic;
        envelope = record {
          event_id = event_id;
          event_type = event_type;
          key = key;
          payload = payload;
        };
        published_at = none;
        attempts = 0;
      }
        ∷ [];
  next_seq = outbox.next_seq + 1;
}

-- `row.published_at.is_(None)`
abbrev pub is_pending : {P : Type 0} → OutboxEvent P → Bool
is_pending row = is_none row.published_at

-- The first rows of a list: LIMIT.
abbrev pub batch {ℓ} : {A : Type ℓ} → ℕ → List A → List A
batch zero rows = []
batch (suc n) [] = []
batch (suc n) (row ∷ rows) = row ∷ batch n rows

-- A write to the row of a sequence number.
abbrev pub write_row :
    {P : Type 0} → ℕ → (OutboxEvent P → OutboxEvent P) → List (OutboxEvent P) → List (OutboxEvent P)
write_row seq f = update_where (λ r. r.seq == seq) f

abbrev pub published : {P : Type 0} → ℕ → OutboxEvent P → OutboxEvent P
published now row = record row { published_at = some now }

abbrev pub failed : {P : Type 0} → OutboxEvent P → OutboxEvent P
failed row = record row { attempts = row.attempts + 1 }

-- The loop of `OutboxRelay.run_once` over the selected rows: the events that went out, in the order
-- they were sent, and the table. `sends` tells for which rows the publisher does not raise; the first
-- that fails ends the loop.
unfoldable pub send_rows :
    {P : Type 0}
    → (OutboxEvent P → Bool)
    → ℕ
    → List (OutboxEvent P)
    → List (OutboxEvent P)
    → List (EventEnvelope P) × List (OutboxEvent P)
send_rows sends now [] table = ([], table)
send_rows sends now (row ∷ rows) table =
    let (sent, after) = send_rows sends now rows (write_row row.seq (published now) table) in
    if sends row then (row.envelope ∷ sent, after) else ([], write_row row.seq failed table)

-- `run_once`: rows come in the order of `seq`, as the table has them. Its result is the number of
-- the events that went out.
unfoldable pub run_once :
    {P : Type 0} → (OutboxEvent P → Bool) → ℕ → ℕ → Outbox P → List (EventEnvelope P) × Outbox P
unfolding send_rows
run_once sends batch_size now outbox =
    let (sent, after) =
      send_rows sends now (batch batch_size (rows_where is_pending outbox.rows)) outbox.rows in
    (sent, record outbox { rows = after })
