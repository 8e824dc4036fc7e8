-- ===== src/Platform/Tests.antt =====
-- The theorems on the consumer, on idempotency keys and on the outbox at work on small examples, where the
-- database is a number.
use smart_logistics.Base.{
  Bool, not, ◌*◌, ℕ, ◌+◌, ◌≡◌, ◌⊎◌, refl, Option, none, some, List, [], ◌∷◌, arith, ◌==◌,
  if◌then◌else◌,
}
use smart_logistics.Platform.Errors.{
  Error, ok, err, conflict, request_in_progress, idempotency_conflict,
}
use smart_logistics.Platform.Session.{Tx}
use smart_logistics.Platform.Events.{Topic, EventEnvelope}
use smart_logistics.Platform.Outbox.{OutboxEvent, Outbox}
use smart_logistics.Platform.Consumer.{Handlers, handle_all, handle, attempt, process, run_handler}
use smart_logistics.Platform.Consumer.Once.{Once}
use smart_logistics.Platform.Idempotency.{
  Keys, Times, Request, claim, new_key, fresh, replay, run_keyed, run_outcome, run_claimed,
  record_response, completed,
}
use smart_logistics.Platform.Idempotency.Replays.{run_keyed-replays, inserted, claim-free}
use smart_logistics.Platform.Idempotency.Leases.{claim-excludes}

abbrev add_payload : EventEnvelope ℕ → Tx ℕ Unit
add_payload envelope db = ok (tt, db + envelope.payload)

abbrev fails : EventEnvelope ℕ → Tx ℕ Unit
fails envelope db = err conflict

-- Fails the first time, and works when three more attempts are left.
abbrev flaky : ℕ → Handlers ℕ ℕ
flaky n event_type = if n == 3 then some add_payload else some fails

abbrev event : ℕ → ℕ → EventEnvelope ℕ
event event_id payload = record {
  event_id = event_id;
  event_type = "stock.added";
  key = 1;
  payload = payload;
}

-- The event 1 twice, the event 2 once, and a message that is no event.
abbrev messages : List ((ℕ → Handlers ℕ ℕ) × Option (EventEnvelope ℕ))
messages =
    (flaky, some (event 1 10))
    ∷ (flaky, some (event 1 10))
    ∷ (flaky, none)
    ∷ (flaky, some (event 2 5))
    ∷ []

handled_once : (handle_all 5 messages (record { db = 100; processed = [] })).db ≡ 115
unfolding handle_all handle attempt process run_handler
handled_once = refl

abbrev times : Times
times = record { ttl = 86_400; lease = 60 }

abbrev call : Request
call = record { key = "k1"; owner = "2"; endpoint = "POST /api/v1/shipments"; request_hash = 77 }

abbrev no_keys : Keys ℕ
no_keys = record { rows = []; next_id = 1 }

abbrev count_up : Tx ℕ ℕ
count_up db = ok (db, db + 1)

abbrev answered : Keys ℕ
answered = record { rows = completed 1000 201 5 (new_key times 1000 call 1) ∷ []; next_id = 2 }

first_run : run_keyed times 1000 call 201 count_up (5, no_keys) ≡ (ok (fresh 5), 6, answered)
unfolding run_keyed claim run_outcome run_claimed record_response
first_run = refl

run_keyed-replays_example :
    run_keyed times 2000 call 201 count_up (6, answered) ≡ (ok (replay 201 (some 5)), 6, answered)
run_keyed-replays_example =
    run_keyed-replays times 1000 2000 call 201 201 count_up count_up 5 6 no_keys answered 5 refl
      (omega arith) refl first_run

claim-excludes_example :
    (e : Error) × (claim times 1030 call (inserted times 1000 call no_keys)
      ≡ (err e, inserted times 1000 call no_keys))
    × ((e ≡ request_in_progress) ⊎ (e ≡ idempotency_conflict))
claim-excludes_example =
    claim-excludes times 1000 1030 1 call call (new_key times 1000 call 1) no_keys
      (inserted times 1000 call no_keys) (claim-free times 1000 call no_keys refl) refl refl refl
      (omega arith) (omega arith)

-- Three pending events; the publisher fails on the second.
abbrev row : ℕ → OutboxEvent ℕ
row n = record {
  seq = n;
  topic = Topic.inventory;
  envelope = event n (n * 10);
  published_at = none;
  attempts = 0;
}

abbrev staged : Outbox ℕ
staged = record { rows = row 1 ∷ row 2 ∷ row 3 ∷ []; next_seq = 4 }

abbrev broken_link : OutboxEvent ℕ → Bool
broken_link r = not (r.seq == 2)
