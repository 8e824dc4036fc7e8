-- ===== src/Platform/Consumer/Keeps.antt =====
-- A property of the database, over the deliveries of events.
use smart_logistics.Base.{
  ℕ, zero, suc, ◌≡◌, refl, Bool, true, Option, none, some, List, [], ◌∷◌, ◌++◌, contains,
  Bool-cases, Option-cases, inl, inr,
}
use smart_logistics.Platform.Errors.{Result, ok, err}
use smart_logistics.Platform.Session.{Tx}
use smart_logistics.Platform.Events.{EventEnvelope}
use smart_logistics.Platform.Consumer.{
  Consumer, Handlers, run_handler, process, attempt, handle, handle_all,
}

-- The handlers of a message at each attempt, by the time of the attempt.
abbrev pub timed :
    {S P : Type 0}
    → (ℕ → Handlers S P)
    → List ((ℕ → ℕ) × Option (EventEnvelope P))
    → List ((ℕ → Handlers S P) × Option (EventEnvelope P))
timed handlers [] = []
timed handlers ((clock, message) ∷ messages) =
    ((λ n. handlers (clock n)), message) ∷ timed handlers messages

-- Every handler keeps Q, where it returns.
abbrev pub HandlersKeep : {S P : Type 0} → (S → Type 0) → (ℕ → Handlers S P) → Type 0
HandlersKeep {S} {P} Q handlers =
    (now : ℕ) (envelope : EventEnvelope P) (handler : EventEnvelope P → Tx S Unit) (db db' : S)
    → handlers now envelope.event_type ≡ some handler
    → handler envelope db ≡ ok (tt, db')
    → Q db
    → Q db'

module _ {S P : Type 0} (Q : S → Type 0) (handlers : ℕ → Handlers S P)
    (keeps : HandlersKeep Q handlers) where
  settled :
      (now : ℕ) (envelope : EventEnvelope P) (handler : EventEnvelope P → Tx S Unit)
      (c : Consumer S) (r : Result (Unit {0} × S))
      → handlers now envelope.event_type ≡ some handler
      → handler envelope c.db ≡ r
      → Q c.db
      → Q
          (elim r as (λ _. Result Bool × Consumer S) [
            | ok (_, db') ↦
                (ok true, record { db = db'; processed = c.processed ++ envelope.event_id ∷ [] })
            | err e ↦ (err e, c)
          ]).1.db
  settled now envelope handler c (ok (_, db')) chosen run q =
      keeps now envelope handler c.db db' chosen run q
  settled now envelope handler c (err e) chosen run q = q

  process-keeps :
      (now : ℕ) (envelope : EventEnvelope P) (c : Consumer S)
      → Q c.db
      → Q (process (handlers now) envelope c).1.db
  unfolding process run_handler
  process-keeps now envelope c q = elim (Option-cases (handlers now envelope.event_type)) [
    | inl ignored ↦ rw (process, ignored) q
    | inr (handler, chosen) ↦ elim (Bool-cases (contains c.processed envelope.event_id)) [
      | inl known ↦ rw (process, chosen, known) q
      | inr new ↦
          rw (process, chosen, new, run_handler)
            (settled now envelope handler c (handler envelope c.db) chosen refl q)
    ]
  ]

  retried :
      (answer : Result Bool) (c again : Consumer S)
      → Q c.db
      → Q again.db
      → Q (elim answer as (λ _. Consumer S) [ ok _ ↦ c | err _ ↦ again ]).db
  retried (ok b) c again p q = p
  retried (err e) c again p q = q

  attempt-keeps :
      (clock : ℕ → ℕ) (envelope : EventEnvelope P) (n : ℕ) (c : Consumer S)
      → Q c.db
      → Q (attempt (λ k. handlers (clock k)) envelope n c).db
  unfolding attempt
  attempt-keeps clock envelope zero c q = q
  attempt-keeps clock envelope (suc n) c q =
      let (answer, c') = process (handlers (clock n)) envelope c in
      let p = process-keeps (clock n) envelope c q in
      retried answer c' (attempt (λ k. handlers (clock k)) envelope n c') p
        (attempt-keeps clock envelope n c' p)

  pub handle_all-keeps :
      (max_attempts : ℕ) (messages : List ((ℕ → ℕ) × Option (EventEnvelope P))) (c : Consumer S)
      → Q c.db
      → Q (handle_all max_attempts (timed handlers messages) c).db
  unfolding handle_all handle
  handle_all-keeps max_attempts [] c q = q
  handle_all-keeps max_attempts ((clock, none) ∷ messages) c q =
      handle_all-keeps max_attempts messages c q
  handle_all-keeps max_attempts ((clock, some e) ∷ messages) c q =
      handle_all-keeps max_attempts messages (attempt (λ k. handlers (clock k)) e max_attempts c)
        (attempt-keeps clock e max_attempts c q)
