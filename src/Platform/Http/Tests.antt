-- ===== src/Platform/Http/Tests.antt =====
-- Calls of a service that is down, and of one that answers at the second attempt.
use smart_logistics.Base.{ℕ, ◌+◌, ◌≡◌, refl, true, none, some, [], ◌∷◌}
use Prim.Native.Nat.{zero, suc}
use smart_logistics.Platform.Errors.{ok}
use smart_logistics.Platform.Http.{
  new_breaker, is_open, record_failure, record_success, transport_error, responds, attempts, Call,
  request,
}
use smart_logistics.Platform.Http.Trace.{calls, is_barred, breaker-refines}

abbrev down : ℕ → Call
down now = record {
  net = λ i. (now + i, transport_error);
  now = now;
  method = "GET";
  idempotency_key = none;
}

abbrev slow_start : Call
slow_start = record {
  net = λ i. (i, elim i [ zero ↦ responds 503 "" | suc j ↦ responds 200 "" ]);
  now = 0;
  method = "POST";
  idempotency_key = some "release:7";
}

-- Two calls of three attempts each open a breaker of five failures.
trips : is_open 130 (calls 2 (down 100 ∷ down 120 ∷ []) [] (new_breaker 5 30)).1 ≡ true
unfolding request attempts record_failure is_open
trips = refl

second_attempt : (request 2 slow_start (new_breaker 5 30)).answer ≡ ok 200
unfolding request attempts record_failure record_success is_open
second_attempt = refl

breaker-refines_example :
    is_open 130 (calls 2 (down 100 ∷ down 120 ∷ []) [] (new_breaker 5 30)).1
    ≡ is_barred 5 30 130 (calls 2 (down 100 ∷ down 120 ∷ []) [] (new_breaker 5 30)).0
breaker-refines_example = breaker-refines 5 30 2 130 (down 100 ∷ down 120 ∷ [])
