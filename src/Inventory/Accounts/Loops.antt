-- ===== src/Inventory/Accounts/Loops.antt =====
-- The loops over holds of services/reservations.py on a valid database.
use mathlib.Core.Path.{subst}
use smart_logistics.Base.{
  ℕ, ◌+◌, ◌≡◌, ◌∙◌, refl, sym, ◌≤◌, true, Option, none, some, List, [], ◌∷◌, ◌++◌, ◌==◌,
  if◌then◌else◌, arith, pos, ◌-ℤ◌, int_laws, all, All, update_where, contains, &&_left, &&_right,
}
use smart_logistics.Platform.Errors.{ok}
use smart_logistics.Inventory.Models.{
  Db, InventoryItem, InventoryReservation, StockMovement, outbound_dispatch, movement_checks,
  reservation_checks, item_keys, uuid4,
}
use smart_logistics.Inventory.Holds.{
  modify_item, for_each, commit_qty, commit_position, add_movement,
}
use smart_logistics.Inventory.Accounts.Sums.{taken_sum, ledger_sum, ledger_sum-append}
use smart_logistics.Inventory.Accounts.Positions.{Consistent, commit-Consistent, Consistent-eq}
use smart_logistics.Inventory.Accounts.Valid.{item_ids, EntriesOn}
use smart_logistics.Inventory.Accounts.Releases.{
  for_each-ok, first_where-contains, item_ids-update, item_keys-update, OnPositions, OnPositions-eq,
}

-- The ledger entry of one committed hold.
abbrev dispatch_entry : ℕ → Option ℕ → InventoryReservation → InventoryItem → ℕ → StockMovement
dispatch_entry shipment_id actor_id h item movement_id = record {
  id = movement_id;
  inventory_item_id = item.id;
  warehouse_id = item.warehouse_id;
  sku_id = item.sku_id;
  movement_type = outbound_dispatch;
  quantity_delta = pos 0 -ℤ pos h.quantity;
  resulting_on_hand = item.on_hand_qty -ℤ pos h.quantity;
  reference_type = some "shipment";
  reference_id = some shipment_id;
  actor_id = actor_id;
  notes = none;
}

abbrev committed_db : Db → ℕ → InventoryReservation → StockMovement → Db
committed_db db n h m = record db {
  items = update_where (λ i. i.id == h.inventory_item_id) (commit_qty h.quantity) db.items;
  movements = db.movements ++ m ∷ [];
  next_id = n;
}

commit_position-step :
    (shipment_id : ℕ) (actor_id : Option ℕ) (h : InventoryReservation) (db : Db)
    → contains (item_ids db.items) h.inventory_item_id ≡ true
    → (m : StockMovement) × (commit_position shipment_id actor_id h db
        ≡ ok (tt, committed_db db (db.next_id + 1) h m))
      × (m.inventory_item_id ≡ h.inventory_item_id)
      × (m.quantity_delta ≡ pos 0 -ℤ pos h.quantity)
unfolding commit_position modify_item add_movement uuid4
commit_position-step shipment_id actor_id h db on =
    let (item, found, same) = first_where-contains h.inventory_item_id db.items on in
    (dispatch_entry shipment_id actor_id h item db.next_id, ground (arith, found), same, refl)

-- What the commit loop leaves.
pub record Committed (r : ℕ → ℕ) (before after : Db) : Type 0 where
  pub positions : All (Consistent r (λ i. ledger_sum i after.movements)) after.items
  pub ids : item_ids after.items ≡ item_ids before.items
  pub keys : item_keys after.items ≡ item_keys before.items
  pub holds : after.reservations ≡ before.reservations
  pub ledger : all movement_checks after.movements ≡ true
  pub entries : EntriesOn (item_ids after.items) after.movements
  pub later : before.next_id ≤ after.next_id

ledger_after :
    (h : InventoryReservation) (m : StockMovement) (ms : List StockMovement) (i : ℕ)
    → m.inventory_item_id ≡ h.inventory_item_id
    → m.quantity_delta ≡ pos 0 -ℤ pos h.quantity
    → (if h.inventory_item_id == i then ledger_sum i ms -ℤ pos h.quantity else ledger_sum i ms)
      ≡ ledger_sum i (ms ++ m ∷ [])
ledger_after h m ms i e d = rw (ledger_sum-append i ms m, e, d) (grind int_laws)

pub EntriesOn-append :
    (ids : List ℕ) (ms : List StockMovement) (m : StockMovement)
    → EntriesOn ids ms
    → contains ids m.inventory_item_id ≡ true
    → EntriesOn ids (ms ++ m ∷ [])
EntriesOn-append ids [] m en k = (k, tt)
EntriesOn-append ids (x ∷ ms) m (en, ens) k = (en, EntriesOn-append ids ms m ens k)

pub checks-append :
    (ms : List StockMovement) (m : StockMovement)
    → all movement_checks ms ≡ true
    → movement_checks m ≡ true
    → all movement_checks (ms ++ m ∷ []) ≡ true
checks-append [] m k c = ground arith
checks-append (x ∷ ms) m k c = ground (arith, checks-append ms m)

-- A dispatched quantity is not zero.
dispatch-checks :
    (h : InventoryReservation) (m : StockMovement)
    → reservation_checks h ≡ true
    → m.quantity_delta ≡ pos 0 -ℤ pos h.quantity
    → movement_checks m ≡ true
unfolding ◌-ℤ◌
dispatch-checks h m k d = rw d (ground arith)

pub commit_loop :
    (r : ℕ → ℕ) (shipment_id : ℕ) (actor_id : Option ℕ) (hs : List InventoryReservation) (db : Db)
    → All (Consistent (λ i. taken_sum i hs + r i) (λ i. ledger_sum i db.movements)) db.items
    → OnPositions db.items hs
    → all reservation_checks hs ≡ true
    → all movement_checks db.movements ≡ true
    → EntriesOn (item_ids db.items) db.movements
    → (db' : Db) × (for_each (commit_position shipment_id actor_id) hs db ≡ ok (tt, db'))
      × Committed r db db'
unfolding for_each
commit_loop r shipment_id actor_id [] db c on q k en =
    let same : All (Consistent r (λ i. ledger_sum i db.movements)) db.items =
      Consistent-eq _ _ _ _ db.items (λ i. omega arith) (λ i. refl) c in
    (
      db,
      refl,
      record {
        positions = same;
        ids = refl;
        keys = refl;
        holds = refl;
        ledger = k;
        entries = en;
        later = omega arith;
      },
    )
commit_loop r shipment_id actor_id (h ∷ hs) db c (on, ons) q k en =
    let rest : ℕ → ℕ = λ i. taken_sum i hs + r i in
    let (m, run1, same, delta) = commit_position-step shipment_id actor_id h db on in
    let db1 = committed_db db (db.next_id + 1) h m in
    let ids1 : item_ids db1.items ≡ item_ids db.items =
      item_ids-update h.inventory_item_id (commit_qty h.quantity) (λ i. refl) db.items in
    let keys1 : item_keys db1.items ≡ item_keys db.items =
      item_keys-update h.inventory_item_id (commit_qty h.quantity) (λ i. refl) (λ i. refl)
        db.items in
    let c1 : All (Consistent rest (λ i. ledger_sum i db1.movements)) db1.items =
      Consistent-eq _ _ _ _ db1.items (λ i. refl) (λ i. ledger_after h m db.movements i same delta)
        (commit-Consistent rest (λ i. ledger_sum i db.movements) h db.items
          (Consistent-eq _ _ _ _ db.items (λ i. omega arith) (λ i. refl) c)) in
    let (db', run, left) =
      commit_loop r shipment_id actor_id hs db1 c1 (OnPositions-eq db.items db1.items hs ids1 ons)
        (&&_right (reservation_checks h) (all reservation_checks hs) q)
        (checks-append db.movements m k (
          dispatch-checks h m (&&_left (reservation_checks h) (all reservation_checks hs) q) delta))
        (subst (λ ids. EntriesOn ids db1.movements) (sym ids1)
          (EntriesOn-append (item_ids db.items) db.movements m en (rw same on))) in
    (
      db',
      for_each-ok (commit_position shipment_id actor_id) h hs db db1 run1 ∙ run,
      record {
        positions = left.positions;
        ids = left.ids ∙ ids1;
        keys = left.keys ∙ keys1;
        holds = left.holds;
        ledger = left.ledger;
        entries = left.entries;
        later = omega (arith, left.later);
      },
    )
