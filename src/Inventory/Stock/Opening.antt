-- ===== src/Inventory/Stock/Opening.antt =====
-- `open_position` of services/stock.py on a valid database.
use smart_logistics.Base.{
  not-false, ℕ, zero, suc, ◌+◌, ◌<◌, ◌≡◌, refl, sym, ap, ◌∙◌, true, not, Option, none, some, List,
  [], ◌∷◌, ◌++◌, arith, pos, int_laws, all,
}
use smart_logistics.Inventory.Stock.Fresh.{
  fresh_id, held_sum-zero, ledger_sum-zero, Booked-append, contains-last, OnPositions-more,
  EntriesOn-more, Below-append,
}
use smart_logistics.Platform.Errors.{Error, ok, ok-injective, not_found, permission_denied}
use smart_logistics.Platform.Session.{>>-eq-ok, raise_if-ok, or_raise}
use smart_logistics.Platform.Auth.{Principal}
use smart_logistics.Inventory.Models.{
  Db, InventoryItem, StockMovement, WarehouseRef, inbound_receipt, uuid4, flush, item_checks,
  unique_constraints,
}
use smart_logistics.Inventory.Replicas.{require_operational}
use smart_logistics.Inventory.Reserve.{find_sku}
use smart_logistics.Inventory.Holds.{add_movement}
use smart_logistics.Inventory.Accounts.Sums.{ledger_sum, ledger_sum-append}
use smart_logistics.Inventory.Accounts.Positions.{Consistent-Booked}
use smart_logistics.Inventory.Accounts.Valid.{IsValid, item_ids, EntriesOn, Below-le}
use smart_logistics.Inventory.Accounts.Loops.{EntriesOn-append}
use smart_logistics.Inventory.Accounts.Booked.{IsBooked, flush-eq, booked-IsValid}
use smart_logistics.Inventory.Stock.{
  InventoryItemCreate, new_item, open_position, record_opening, assert_manages, manages,
}

-- The database with the new position.
abbrev pub opened_db : InventoryItemCreate → Db → Db
opened_db payload db = record db {
  items = db.items ++ new_item payload db.next_id ∷ [];
  next_id = db.next_id + 1;
}

-- The accounts once the ledger has the opening entries `ms`, which add up to the opening stock.
opened-IsBooked :
    (payload : InventoryItemCreate) (db : Db) (n : ℕ) (ms : List StockMovement)
    → IsValid db
    → db.next_id < n
    → EntriesOn (item_ids (opened_db payload db).items) ms
    → ((i : ℕ) → i < db.next_id → ledger_sum i db.movements ≡ ledger_sum i ms)
    → pos payload.on_hand_qty ≡ ledger_sum db.next_id ms
    → IsBooked (record (opened_db payload db) { movements = ms; next_id = n })
opened-IsBooked payload db n ms v lt en same total =
    let item = new_item payload db.next_id in
    let unused = fresh_id db.next_id (item_ids db.items) v.fresh in
    record {
      positions =
          Booked-append db.next_id _ _ _ db.items item v.fresh same
            (Consistent-Booked _ _ db.items v.positions)
            (
              ap pos (sym (held_sum-zero db.next_id db.items db.reservations unused v.references)),
              total,
            );
      references = OnPositions-more db.items item db.reservations v.references;
      entries = en;
      fresh =
          Below-append n db.items item
            (Below-le db.next_id n (item_ids db.items) (omega arith) v.fresh) lt;
    }

-- Entries for another position leave a sum as it is.
ledger_sum-other :
    (i : ℕ) (ms : List StockMovement) (m : StockMovement)
    → i < m.inventory_item_id
    → ledger_sum i ms ≡ ledger_sum i (ms ++ m ∷ [])
ledger_sum-other i ms m h = rw (ledger_sum-append i ms m) (ground arith)

ledger_sum_self :
    (k : ℕ) (ms : List StockMovement) (m : StockMovement)
    → ledger_sum k ms ≡ pos 0
    → m.inventory_item_id ≡ k
    → m.quantity_delta ≡ ledger_sum k (ms ++ m ∷ [])
ledger_sum_self k ms m none_yet same =
    rw (ledger_sum-append k ms m, none_yet, same) (grind int_laws)

add_movement-opening :
    (item : InventoryItem) (q actor : ℕ) (u : Unit {0}) (db db' : Db)
    → add_movement item inbound_receipt
        (pos q)
        (some "opening")
        none
        (some actor)
        (some "Opening stock")
        db
      ≡ ok (u, db')
    → (m : StockMovement) × (m.inventory_item_id ≡ item.id)
      × (m.quantity_delta ≡ pos q)
      × (db' ≡ record db { movements = db.movements ++ m ∷ []; next_id = db.next_id + 1 })
unfolding add_movement uuid4
add_movement-opening item q actor u db db' run =
    (_, refl, refl, ap (λ (p : Unit {0} × Db). p.1) (sym (ok-injective _ _ run)))

record_opening-IsValid :
    (payload : InventoryItemCreate) (actor q : ℕ) (u : Unit {0}) (db db' : Db)
    → IsValid db
    → payload.on_hand_qty ≡ q
    → all item_checks (opened_db payload db).items ≡ true
    → unique_constraints (opened_db payload db) ≡ true
    → record_opening q (new_item payload db.next_id) actor (opened_db payload db) ≡ ok (u, db')
    → IsValid db'
      × (db'.items ≡ (opened_db payload db).items)
      × (db'.reservations ≡ db.reservations)
unfolding record_opening
record_opening-IsValid payload actor zero u db db' v e ci uq run =
    let db1 = opened_db payload db in
    let same : db' ≡ db1 = ap (λ (p : Unit {0} × Db). p.1) (sym (ok-injective _ _ run)) in
    let unused = fresh_id db.next_id (item_ids db.items) v.fresh in
    let booked : IsBooked db1 =
      opened-IsBooked payload db (db.next_id + 1) db.movements v (omega arith)
        (EntriesOn-more db.items (new_item payload db.next_id) db.movements v.entries) (λ i h. refl)
        (rw e
          (sym (ledger_sum-zero db.next_id (item_ids db.items) db.movements unused v.entries))) in
    rw same (booked-IsValid db1 booked ci v.holds v.ledger uq, refl, refl)
record_opening-IsValid payload actor (suc q) u db db' v e ci uq run =
    let item = new_item payload db.next_id in
    let db1 = opened_db payload db in
    let (_, s1, e1, r1) =
      >>-eq-ok
        (add_movement item inbound_receipt (pos (suc q)) (some "opening") none (some actor)
          (some "Opening stock"))
        flush run in
    let (m, m_of, m_delta, eq1) = add_movement-opening item (suc q) actor _ db1 s1 e1 in
    let unused = fresh_id db.next_id (item_ids db.items) v.fresh in
    let zero_sum = ledger_sum-zero db.next_id (item_ids db.items) db.movements unused v.entries in
    let booked : IsBooked
        (record db1 { movements = db.movements ++ m ∷ []; next_id = db.next_id + 1 + 1 }) =
      opened-IsBooked payload db (db.next_id + 1 + 1) (db.movements ++ m ∷ []) v (omega arith)
        (EntriesOn-append (item_ids db1.items) db.movements m
          (EntriesOn-more db.items item db.movements v.entries)
          (rw m_of (contains-last db.items item)))
        (λ i h. ledger_sum-other i db.movements m (rw m_of h))
        (ap pos e ∙ sym m_delta ∙ ledger_sum_self db.next_id db.movements m zero_sum m_of) in
    let (eq2, ci', cr, cm, uq') = flush-eq u s1 db' r1 in
    let whole = eq2 ∙ eq1 in
    (
      rw eq2 (booked-IsValid s1 (rw eq1 booked) ci' cr cm uq'),
      ap (λ (d : Db). d.items) whole,
      ap (λ (d : Db). d.reservations) whole,
    )

-- What opening a position that returned has done.
pub record Opens (payload : InventoryItemCreate) (principal : Principal) (item : InventoryItem)
    (before after : Db) : Type 0 where
  pub valid : IsValid after
  pub allowed : manages payload.warehouse_id principal ≡ true
  pub opened : item ≡ new_item payload before.next_id
  pub added : after.items ≡ before.items ++ item ∷ []
  pub holds : after.reservations ≡ before.reservations

require_operational-keeps :
    (w : ℕ) (ref : WarehouseRef) (db db' : Db) → require_operational w db ≡ ok (ref, db') → db' ≡ db
unfolding require_operational
require_operational-keeps w ref db db' run = ground arith

or_raise-keeps :
    {A : Type 0} (o : Option A) (e : Error) (a : A) (db db' : Db)
    → or_raise o e db ≡ ok (a, db')
    → db' ≡ db
or_raise-keeps none e a db db' run = absurd (cc run)
or_raise-keeps (some x) e a db db' run = cc

-- Opening a position on a valid database, where it returns, adds one position with nothing reserved
-- and the opening stock on hand, keeps every hold, and leaves a valid database, so the ledger has
-- the opening stock; the caller was an administrator or an operator of the warehouse.
pub open_position-Opens :
    (payload : InventoryItemCreate) (principal : Principal) (item : InventoryItem) (db db' : Db)
    → IsValid db
    → open_position payload principal db ≡ ok (item, db')
    → Opens payload principal item db db'
unfolding open_position assert_manages uuid4
open_position-Opens payload principal item db db' v run =
    let (may, r0) =
      raise_if-ok (not (manages payload.warehouse_id principal)) permission_denied _ run in
    let (ref, s1, e1, r1) = >>-eq-ok (require_operational payload.warehouse_id) _ r0 in
    let (sku, s2, e2, r2) = >>-eq-ok (or_raise (find_sku payload.sku_id s1.skus) not_found) _ r1 in
    let same2 : s2 ≡ db =
      or_raise-keeps _ _ sku s1 s2 e2 ∙ require_operational-keeps _ ref db s1 e1 in
    let (_, s3, e3, r3) = >>-eq-ok flush _ r2 in
    let (_, s4, e4, r4) =
      >>-eq-ok (record_opening payload.on_hand_qty (new_item payload s2.next_id) principal.user_id)
        _ r3 in
    let (eq3, ci, cr, cm, uq) = flush-eq _ (opened_db payload s2) s3 e3 in
    let (valid, items', holds') =
      record_opening-IsValid payload principal.user_id payload.on_hand_qty _ s2 s4 (rw same2 v) refl
        ci uq
        (ap (record_opening payload.on_hand_qty (new_item payload s2.next_id) principal.user_id)
            (sym eq3)
          ∙ e4) in
    let last = ok-injective (new_item payload s2.next_id, s4) (item, db') r4 in
    let end : db' ≡ s4 = ap (λ (p : InventoryItem × Db). p.1) (sym last) in
    let made : item ≡ new_item payload db.next_id =
      ap (λ (p : InventoryItem × Db). p.0) (sym last)
      ∙ ap (λ (d : Db). new_item payload d.next_id) same2 in
    record {
      valid = rw end valid;
      allowed = not-false (manages payload.warehouse_id principal) may;
      opened = made;
      added =
          ap (λ (d : Db). d.items) end
          ∙ items'
          ∙ ap (λ (d : Db). d.items ++ new_item payload d.next_id ∷ []) same2
          ∙ ap (λ (i : InventoryItem). db.items ++ i ∷ []) (sym made);
      holds = ap (λ (d : Db). d.reservations) end ∙ holds' ∙ ap (λ (d : Db). d.reservations) same2;
    }
