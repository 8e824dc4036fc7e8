-- ===== src/Platform/Consumer/Once.antt =====
-- The events that took effect, as a list.
use smart_logistics.Base.{ℕ, ◌≡◌, true, some, List, [], ◌∷◌, ◌++◌, map, distinct}
use smart_logistics.Platform.Errors.{ok}
use smart_logistics.Platform.Session.{Tx}
use smart_logistics.Platform.Events.{EventEnvelope}
use smart_logistics.Platform.Consumer.{Consumer, Handlers}

abbrev ids_of : {P : Type 0} → List (EventEnvelope P) → List ℕ
ids_of = map (λ e. e.event_id)

module _ {S P : Type 0} where
  -- Runs of handlers that returned, one for each event of the list, from one database to another.
  pub data Applied (start : S) : List (EventEnvelope P) → S → Type 0 where
    nothing : Applied start [] start
    more :
        {log : List (EventEnvelope P)} {db db' : S}
        → Applied start log db
        → (envelope : EventEnvelope P) (handlers : Handlers S P)
        → (handler : EventEnvelope P → Tx S Unit) → handlers envelope.event_type ≡ some handler
        → handler envelope db ≡ ok (tt, db')
        → Applied start (log ++ envelope ∷ []) db'

-- The database is what the processed events made of it, each of them once.
pub record Once {S : Type 0} (P : Type 0) (start : S) (c : Consumer S) : Type 0 where
  pub log : List (EventEnvelope P)
  pub runs : Applied start log c.db
  pub marked : c.processed ≡ map (λ e. e.event_id) log
  pub once : distinct c.processed ≡ true
