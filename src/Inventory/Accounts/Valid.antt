-- ===== src/Inventory/Accounts/Valid.antt =====
-- The invariant of the service's database, with the constraints and foreign keys of models.py.
use smart_logistics.Base.{ℕ, ◌≤◌, ◌<◌, ◌≡◌, true, List, [], ◌∷◌, map, all, All, contains, arith}
use smart_logistics.Platform.Errors.{ok}
use smart_logistics.Platform.Outbox.{Outbox}
use smart_logistics.Inventory.Models.{
  Db, InventoryItem, InventoryReservation, StockMovement, StockPayload, reservation_checks,
  movement_checks, check_constraints, unique_constraints, flush,
}
use smart_logistics.Inventory.Accounts.Sums.{held_sum, ledger_sum}
use smart_logistics.Inventory.Accounts.Positions.{Consistent, Consistent-checks}

abbrev pub item_ids : List InventoryItem → List ℕ
item_ids = map (λ i. i.id)

-- Every ledger entry stands on one of these positions.
abbrev pub EntriesOn : List ℕ → List StockMovement → Type 0
EntriesOn ids = All (λ (m : StockMovement). contains ids m.inventory_item_id ≡ true)

-- These ids were generated before the next one.
abbrev pub Below : ℕ → List ℕ → Type 0
Below n = All (λ (k : ℕ). k < n)

pub Below-le : (n m : ℕ) (ids : List ℕ) → n ≤ m → Below n ids → Below m ids
Below-le n m [] h b = tt
Below-le n m (k ∷ ids) h (b, bs) = (omega arith, Below-le n m ids h bs)

-- Every position has reserved what its open holds take, has on hand what the ledger adds up to, and
-- has no more reserved than on hand; every hold and every ledger entry stands on a position; the
-- constraints hold; and the ids of the positions are older than the next one.
pub record IsValid (db : Db) : Type 0 where
  pub positions :
      All (Consistent (λ i. held_sum i db.reservations) (λ i. ledger_sum i db.movements)) db.items
  pub references :
      All
        (λ (r : InventoryReservation). contains (item_ids db.items) r.inventory_item_id ≡ true)
        db.reservations
  pub entries : EntriesOn (item_ids db.items) db.movements
  pub fresh : Below db.next_id (item_ids db.items)
  pub holds : all reservation_checks db.reservations ≡ true
  pub ledger : all movement_checks db.movements ≡ true
  pub unique : unique_constraints db ≡ true

-- A flush of a valid database goes through.
pub IsValid-flush : (db : Db) → IsValid db → flush db ≡ ok (tt, db)
unfolding flush check_constraints
IsValid-flush db v =
    ground (arith, Consistent-checks _ _ db.items v.positions, v.holds, v.ledger, v.unique)

-- Neither the outbox nor the next identifier is part of the accounts.
pub IsValid-outbox :
    (db : Db) (n : ℕ) (outbox : Outbox StockPayload)
    → db.next_id ≤ n
    → IsValid db
    → IsValid (record db { outbox = outbox; next_id = n })
unfolding unique_constraints
IsValid-outbox db n outbox h v = record {
  positions = v.positions;
  references = v.references;
  entries = v.entries;
  fresh = Below-le db.next_id n (item_ids db.items) h v.fresh;
  holds = v.holds;
  ledger = v.ledger;
  unique = v.unique;
}
