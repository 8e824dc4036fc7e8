-- ===== src/Platform/Http/Trace.antt =====
-- The calls of a client (libs/sl-platform/src/sl_platform/http.py) against the list of the attempts
-- that it sent.
use smart_logistics.Base.{
  ℕ, zero, suc, ◌+◌, ◌-◌, ◌≡◌, refl, Bool, true, false, ◌&&◌, Option, none, some, List, [], ◌∷◌,
  ◌++◌, arith, ltb, leb, if◌then◌else◌, Bool-cases, inl, inr,
}
use mathlib.Core.List.{append_assoc}
use smart_logistics.Platform.Http.{
  CircuitBreaker, new_breaker, is_open, record_success, record_failure, Answer, transport_error,
  responds, is_retryable, is_failure, Outcome, attempted, attempts, Call, allowed, request,
}

-- The failures since the last success; the last attempt comes first.
abbrev pub trailing : List (ℕ × Answer) → ℕ
trailing [] = 0
trailing ((time, answer) ∷ rest) =
    let before = trailing rest in if is_failure answer then before + 1 else 0

-- The time of the last attempt, if it made that many failures in a row.
abbrev pub tripped : ℕ → List (ℕ × Answer) → Option ℕ
tripped threshold [] = none
tripped threshold ((time, answer) ∷ rest) =
    if is_failure answer && leb threshold (trailing rest + 1) then some time else none

pub record Agrees (threshold reset_after : ℕ) (trace : List (ℕ × Answer)) (b : CircuitBreaker)
    : Type 0 where
  pub limit : b.threshold ≡ threshold
  pub pause : b.reset_after ≡ reset_after
  pub failures : b.failures ≡ trailing trace
  pub opened : b.opened_at ≡ tripped threshold trace

untripped :
    (threshold : ℕ) (trace : List (ℕ × Answer))
    → leb threshold (trailing trace + 1) ≡ false
    → tripped threshold trace ≡ none
untripped threshold [] h = refl
untripped threshold ((time, answer) ∷ rest) h = elim (Bool-cases (is_failure answer)) [
  | inl f ↦ ground arith
  | inr f ↦ rw f refl
]

module _ (threshold reset_after : ℕ) where
  failure-Agrees :
      (trace : List (ℕ × Answer)) (b : CircuitBreaker) (time : ℕ) (answer : Answer)
      → is_failure answer ≡ true
      → Agrees threshold reset_after trace b
      → Agrees threshold reset_after ((time, answer) ∷ trace) (record_failure time b)
  unfolding record_failure
  failure-Agrees trace b time answer f a = elim (Bool-cases (leb threshold (trailing trace + 1))) [
    | inl most ↦ record {
      limit = ground arith;
      pause = ground arith;
      failures = ground arith;
      opened = rw (f, most) (ground arith);
    }
    | inr few ↦ record {
      limit = ground arith;
      pause = ground arith;
      failures = ground arith;
      opened = rw (f, few) (ground (arith, untripped threshold trace));
    }
  ]

  success-Agrees :
      (trace : List (ℕ × Answer)) (b : CircuitBreaker) (time : ℕ) (answer : Answer)
      → is_failure answer ≡ false
      → Agrees threshold reset_after trace b
      → Agrees threshold reset_after ((time, answer) ∷ trace) (record_success b)
  unfolding record_success
  success-Agrees trace b time answer f a = record {
    limit = a.limit;
    pause = a.pause;
    failures = rw f refl;
    opened = rw f refl;
  }

  attempted-Agrees :
      (left i time : ℕ) (answer : Answer) (trace : List (ℕ × Answer)) (b : CircuitBreaker)
      (later : Outcome)
      → (is_failure answer ≡ true
          → Agrees threshold reset_after (later.sent ++ (time, answer) ∷ trace) later.breaker)
      → Agrees threshold reset_after trace b
      → Agrees threshold reset_after
          ((attempted left i b time answer later).sent ++ trace)
          (attempted left i b time answer later).breaker
  attempted-Agrees left i time transport_error trace b later rest a =
      rw (append_assoc later.sent ((time, transport_error) ∷ []) trace) (rest refl)
  attempted-Agrees left i time (responds status code) trace b later rest a =
      elim (Bool-cases (is_retryable status)) [
        | inl f ↦
            rw f (rw (append_assoc later.sent ((time, responds status code) ∷ []) trace) (rest f))
        | inr f ↦ rw f (success-Agrees trace b time (responds status code) f a)
      ]

  attempts-Agrees :
      (net : ℕ → ℕ × Answer) (left i : ℕ) (trace : List (ℕ × Answer)) (b : CircuitBreaker)
      → Agrees threshold reset_after trace b
      → Agrees threshold reset_after
          ((attempts net left i b).sent ++ trace)
          (attempts net left i b).breaker
  unfolding attempts
  attempts-Agrees net zero i trace b a = a
  attempts-Agrees net (suc left) i trace b a =
      attempted-Agrees left i (net i).0 (net i).1 trace b
        (attempts net left (i + 1) (record_failure (net i).0 b))
        (λ f.
          attempts-Agrees net left (i + 1) (((net i).0, (net i).1) ∷ trace)
            (record_failure (net i).0 b) (failure-Agrees trace b (net i).0 (net i).1 f a))
        a

  request-Agrees :
      (retries : ℕ) (call : Call) (trace : List (ℕ × Answer)) (b : CircuitBreaker)
      → Agrees threshold reset_after trace b
      → Agrees threshold reset_after
          ((request retries call b).sent ++ trace)
          (request retries call b).breaker
  unfolding request
  request-Agrees retries call trace b a = elim (Bool-cases (is_open call.now b)) [
    | inl shut ↦ rw shut a
    | inr free ↦ rw free (attempts-Agrees call.net (allowed retries call) 0 trace b a)
  ]

-- Calls of one client, one after the other: the breaker, and all attempts, the last one first.
abbrev pub calls :
    ℕ → List Call → List (ℕ × Answer) → CircuitBreaker → List (ℕ × Answer) × CircuitBreaker
calls retries [] trace b = (trace, b)
calls retries (call ∷ rest) trace b =
    let o = request retries call b in calls retries rest (o.sent ++ trace) o.breaker

calls-Agrees :
    (threshold reset_after retries : ℕ) (list : List Call) (trace : List (ℕ × Answer))
    (b : CircuitBreaker)
    → Agrees threshold reset_after trace b
    → Agrees threshold reset_after (calls retries list trace b).0 (calls retries list trace b).1
calls-Agrees threshold reset_after retries [] trace b a = a
calls-Agrees threshold reset_after retries (call ∷ rest) trace b a =
    let o = request retries call b in
    calls-Agrees threshold reset_after retries rest (o.sent ++ trace) o.breaker
      (request-Agrees threshold reset_after retries call trace b a)

-- The last attempts, as many as the threshold or more, all failed, and the last of them was less than
-- the pause ago.
abbrev pub is_barred : ℕ → ℕ → ℕ → List (ℕ × Answer) → Bool
is_barred threshold reset_after now [] = false
is_barred threshold reset_after now ((time, answer) ∷ rest) =
    is_failure answer && leb threshold (trailing rest + 1) && ltb (now - time) reset_after

Agrees-is_barred :
    (threshold reset_after now : ℕ) (trace : List (ℕ × Answer)) (b : CircuitBreaker)
    → Agrees threshold reset_after trace b
    → is_open now b ≡ is_barred threshold reset_after now trace
unfolding is_open
Agrees-is_barred threshold reset_after now [] b a = rw (is_open, a.opened) refl
Agrees-is_barred threshold reset_after now ((time, answer) ∷ rest) b a =
    elim (Bool-cases (is_failure answer && leb threshold (trailing rest + 1))) [
      | inl yes_t ↦ rw (is_open, a.opened, yes_t, a.pause) refl
      | inr no_t ↦ rw (is_open, a.opened, no_t) refl
    ]

-- The breaker does what it promises of the attempts that went out: after any calls of a client with
-- a new breaker, it is open at a time exactly if the last attempts, as many as the threshold or
-- more, all failed, and the last of them was done less than the pause before that time.
pub breaker-refines :
    (threshold reset_after retries now : ℕ) (list : List Call)
    → is_open now (calls retries list [] (new_breaker threshold reset_after)).1
      ≡ is_barred threshold reset_after now
          (calls retries list [] (new_breaker threshold reset_after)).0
breaker-refines threshold reset_after retries now list =
    Agrees-is_barred threshold reset_after now
      (calls retries list [] (new_breaker threshold reset_after)).0
      (calls retries list [] (new_breaker threshold reset_after)).1
      (calls-Agrees threshold reset_after retries list [] (new_breaker threshold reset_after)
        (record { limit = refl; pause = refl; failures = refl; opened = refl }))
