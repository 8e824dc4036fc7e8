-- ===== src/Platform/Http.antt =====
-- libs/sl-platform/src/sl_platform/http.py: the circuit breaker, and the calls of another service
-- with their retries. Waits are in tenths of a second. What the network does with each attempt is an
-- argument, and so is the time at which it is done.
pub mod Trace
pub mod Bounds
pub mod Tests
use smart_logistics.Base.{
  ℕ, zero, suc, ◌+◌, ◌-◌, ◌*◌, String, Bool, true, false, ◌||◌, Option, none, some, List, [], ◌∷◌,
  ◌++◌, ltb, leb, ◌==◌, str_eq, is_some, if◌then◌else◌,
}
use Prim.Native.Nat.{◌^◌}
use smart_logistics.Platform.Errors.{Result, ok, err, remote_error, upstream_unavailable}

pub record CircuitBreaker : Type 0 where
  pub threshold : ℕ
  pub reset_after : ℕ
  pub failures : ℕ
  pub opened_at : Option ℕ

abbrev pub new_breaker : ℕ → ℕ → CircuitBreaker
new_breaker threshold reset_after = record {
  threshold = threshold;
  reset_after = reset_after;
  failures = 0;
  opened_at = none;
}

-- The clock is monotonic, so `now` is not before `opened_at`.
unfoldable pub is_open : ℕ → CircuitBreaker → Bool
is_open now b = elim b.opened_at [ none ↦ false | some t ↦ ltb (now - t) b.reset_after ]

unfoldable pub record_success : CircuitBreaker → CircuitBreaker
record_success b = record b { failures = 0; opened_at = none }

unfoldable pub record_failure : ℕ → CircuitBreaker → CircuitBreaker
record_failure now b =
    if leb b.threshold (b.failures + 1)
    then record b { failures = b.failures + 1; opened_at = some now }
    else record b { failures = b.failures + 1 }

-- A transport error, or an answer with its status and the code of its body.
pub data Answer : Type 0 where
  transport_error : Answer
  responds : ℕ → String → Answer

-- RETRYABLE_STATUS
abbrev pub is_retryable : ℕ → Bool
is_retryable status = status == 502 || status == 503 || status == 504

-- An attempt that counts as a failure of the service.
abbrev pub is_failure : Answer → Bool
is_failure transport_error = true
is_failure (responds status code) = is_retryable status

-- What comes of a request: its answer, the breaker, the attempts that went out with the times at
-- which they were done, the last one first, and the time that was waited between them.
pub record Outcome : Type 0 where
  pub answer : Result ℕ
  pub breaker : CircuitBreaker
  pub sent : List (ℕ × Answer)
  pub waited : ℕ

-- The attempt's own answer, where it is one.
abbrev pub accepted : CircuitBreaker → ℕ → Answer → ℕ → String → Outcome
accepted b time answer status code = record {
  answer = if leb 400 status then err (remote_error status code) else ok status;
  breaker = record_success b;
  sent = (time, answer) ∷ [];
  waited = 0;
}

-- The attempt failed, and `later` is what the others come to: `left` of them are left.
abbrev pub after_failure : ℕ → ℕ → ℕ → Answer → Outcome → Outcome
after_failure left i time answer later = record later {
  sent = later.sent ++ (time, answer) ∷ [];
  waited = later.waited + (if left == 0 then 0 else 2 ^ i);
}

-- One attempt, and what the others come to if it failed.
abbrev pub attempted : ℕ → ℕ → CircuitBreaker → ℕ → Answer → Outcome → Outcome
attempted left i b time transport_error later = after_failure left i time transport_error later
attempted left i b time (responds status code) later =
    if is_retryable status
    then after_failure left i time (responds status code) later
    else accepted b time (responds status code) status code

-- The loop of `request`: the attempts that are left, and the number of those that were made.
unfoldable pub attempts : (ℕ → ℕ × Answer) → ℕ → ℕ → CircuitBreaker → Outcome
unfolding record_failure record_success
attempts net zero i b = record {
  answer = err upstream_unavailable;
  breaker = b;
  sent = [];
  waited = 0;
}
attempts net (suc left) i b =
    let later = attempts net left (i + 1) (record_failure (net i).0 b) in
    attempted left i b (net i).0 (net i).1 later

-- SAFE_METHODS, of a method in capitals
abbrev pub is_safe : String → Bool
is_safe method = str_eq method "GET" || str_eq method "HEAD" || str_eq method "OPTIONS"

abbrev pub may_retry : String → Option String → Bool
may_retry method idempotency_key = is_safe method || is_some idempotency_key

-- The arguments of a request, with what the network does.
pub record Call : Type 0 where
  pub net : ℕ → ℕ × Answer
  pub now : ℕ
  pub method : String
  pub idempotency_key : Option String

-- `attempts`, the local variable
abbrev pub allowed : ℕ → Call → ℕ
allowed retries call = 1 + (if may_retry call.method call.idempotency_key then retries else 0)

-- ServiceClient.request; the headers and the body go to the network.
unfoldable pub request : ℕ → Call → CircuitBreaker → Outcome
unfolding attempts is_open
request retries call b =
    if is_open call.now b
    then record { answer = err upstream_unavailable; breaker = b; sent = []; waited = 0 }
    else attempts call.net (allowed retries call) 0 b
