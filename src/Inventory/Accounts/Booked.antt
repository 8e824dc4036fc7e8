-- ===== src/Inventory/Accounts/Booked.antt =====
-- The accounts in the middle of a method, and what a flush that goes through adds to them.
use smart_logistics.Base.{
  ℕ, ◌≡◌, true, List, [], ◌∷◌, ◌++◌, some, arith, all, All, contains, first_where, ◌==◌,
  update_where, Option-cases, inl, inr,
}
use smart_logistics.Platform.Errors.{ok}
use smart_logistics.Inventory.Models.{
  Db, InventoryItem, InventoryReservation, item_checks, reservation_checks, movement_checks, flush,
  check_constraints, unique_constraints,
}
use smart_logistics.Inventory.Holds.{modify_item}
use smart_logistics.Inventory.Accounts.Sums.{held_sum, ledger_sum}
use smart_logistics.Inventory.Accounts.Positions.{Booked, Booked-Consistent}
use smart_logistics.Inventory.Accounts.Valid.{IsValid, item_ids, EntriesOn, Below}
use smart_logistics.Inventory.Accounts.Releases.{OnPositions}

-- The accounts in the middle of a method, before the flush has compared them.
pub record IsBooked (db : Db) : Type 0 where
  pub positions :
      All (Booked (λ i. held_sum i db.reservations) (λ i. ledger_sum i db.movements)) db.items
  pub references : OnPositions db.items db.reservations
  pub entries : EntriesOn (item_ids db.items) db.movements
  pub fresh : Below db.next_id (item_ids db.items)

pub found_id :
    (k : ℕ) (items : List InventoryItem) (item : InventoryItem)
    → first_where (λ i. i.id == k) items ≡ some item
    → (item.id ≡ k) × (contains (item_ids items) item.id ≡ true)
found_id k [] item e = absurd (cc e)
found_id k (i ∷ items) item e = ground (arith, found_id k items item)

pub OnPositions-append :
    (items : List InventoryItem) (hs : List InventoryReservation) (h : InventoryReservation)
    → OnPositions items hs
    → contains (item_ids items) h.inventory_item_id ≡ true
    → OnPositions items (hs ++ h ∷ [])
OnPositions-append items [] h on k = (k, tt)
OnPositions-append items (x ∷ hs) h (on, ons) k = (on, OnPositions-append items hs h ons k)

-- A flush that went through found the constraints kept.
pub flush-eq :
    (a : Unit {0}) (db db' : Db)
    → flush db ≡ ok (a, db')
    → (db' ≡ db)
      × (all item_checks db.items ≡ true)
      × (all reservation_checks db.reservations ≡ true)
      × (all movement_checks db.movements ≡ true)
      × (unique_constraints db ≡ true)
unfolding flush check_constraints
flush-eq a db db' run = ground arith

-- Booked accounts that pass the flush are valid.
pub booked-IsValid :
    (db : Db)
    → IsBooked db
    → all item_checks db.items ≡ true
    → all reservation_checks db.reservations ≡ true
    → all movement_checks db.movements ≡ true
    → unique_constraints db ≡ true
    → IsValid db
booked-IsValid db b ci cr cm u = record {
  positions = Booked-Consistent _ _ db.items b.positions ci;
  references = b.references;
  entries = b.entries;
  fresh = b.fresh;
  holds = cr;
  ledger = cm;
  unique = u;
}

-- A write to a position that went through found the position.
pub modify_item-eq :
    (k : ℕ) (f : InventoryItem → InventoryItem) (a : InventoryItem) (db db' : Db)
    → modify_item k f db ≡ ok (a, db')
    → (item : InventoryItem) × (first_where (λ i. i.id == k) db.items ≡ some item)
      × (item.id ≡ k)
      × (contains (item_ids db.items) k ≡ true)
      × (a ≡ f item)
      × (db' ≡ record db { items = update_where (λ i. i.id == k) f db.items })
unfolding modify_item
modify_item-eq k f a db db' run = elim (Option-cases (first_where (λ i. i.id == k) db.items)) [
  | inl missing ↦ absurd (ground arith)
  | inr (item, found) ↦
      let (same, on) = found_id k db.items item found in
      (item, found, same, rw same at on, ground arith, ground arith)
]
