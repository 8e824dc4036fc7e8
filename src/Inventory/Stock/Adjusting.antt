-- ===== src/Inventory/Stock/Adjusting.antt =====
-- `adjust` of services/stock.py on a valid database.
use mathlib.Core.Path.{subst}
use smart_logistics.Base.{
  not-false, ℕ, ◌+◌, ◌≡◌, refl, sym, ap, ◌∙◌, true, not, none, some, [], ◌∷◌, ◌++◌, arith, contains,
  first_where, update_where, ◌==◌, Option-cases, inl, inr,
}
use smart_logistics.Platform.Errors.{ok, ok-injective, not_found, permission_denied}
use smart_logistics.Platform.Session.{>>=-eq-ok, >>-eq-ok, raise_if-ok}
use smart_logistics.Platform.Auth.{Principal, may_touch_warehouse}
use smart_logistics.Platform.Events.{Topic}
use smart_logistics.Platform.Outbox.{add_event}
use smart_logistics.Inventory.Models.{Db, InventoryItem, StockMovement, uuid4, adjusted, flush}
use smart_logistics.Inventory.Events.{emit, stock_adjusted}
use smart_logistics.Inventory.Holds.{modify_item, add_movement, adjust_qty}
use smart_logistics.Inventory.Accounts.Sums.{ledger_sum-append}
use smart_logistics.Inventory.Accounts.Positions.{adjust-Booked, Booked-eq, Consistent-Booked}
use smart_logistics.Inventory.Accounts.Valid.{
  IsValid, IsValid-outbox, item_ids, EntriesOn, Below, Below-le,
}
use smart_logistics.Inventory.Accounts.Loops.{EntriesOn-append}
use smart_logistics.Inventory.Accounts.Releases.{OnPositions-eq, item_ids-update}
use smart_logistics.Inventory.Accounts.Booked.{
  IsBooked, flush-eq, booked-IsValid, modify_item-eq, found_id,
}
use smart_logistics.Inventory.Stock.{StockAdjustment, adjust, adjust_item, assert_manages, manages}

-- The database between the two flushes' writes: the position and its ledger entry.
abbrev adjusted_db : ℕ → StockAdjustment → StockMovement → Db → Db
adjusted_db k payload m db = record db {
  items = update_where (λ i. i.id == k) (adjust_qty payload.quantity_delta) db.items;
  movements = db.movements ++ m ∷ [];
  next_id = db.next_id + 1;
}

adjusted_db-IsBooked :
    (k : ℕ) (payload : StockAdjustment) (m : StockMovement) (db : Db)
    → IsValid db
    → contains (item_ids db.items) k ≡ true
    → m.inventory_item_id ≡ k
    → m.quantity_delta ≡ payload.quantity_delta
    → IsBooked (adjusted_db k payload m db)
adjusted_db-IsBooked k payload m db v on same delta =
    let ids' = item_ids-update k (adjust_qty payload.quantity_delta) (λ i. refl) db.items in
    record {
      positions =
          Booked-eq _ _ _ _ (adjusted_db k payload m db).items (λ i. refl)
            (λ i. sym (rw (ledger_sum-append i db.movements m, same, delta) refl))
            (adjust-Booked _ _ k payload.quantity_delta db.items
              (Consistent-Booked _ _ db.items v.positions));
      references = OnPositions-eq db.items _ db.reservations ids' v.references;
      entries =
          subst (λ ids. EntriesOn ids (db.movements ++ m ∷ [])) (sym ids')
            (EntriesOn-append (item_ids db.items) db.movements m v.entries (rw same on));
      fresh =
          subst (Below (db.next_id + 1)) (sym ids')
            (Below-le db.next_id (db.next_id + 1) (item_ids db.items) (omega arith) v.fresh);
    }

add_movement-eq :
    (item : InventoryItem) (payload : StockAdjustment) (actor : ℕ) (u : Unit {0}) (db db' : Db)
    → add_movement item payload.movement_type payload.quantity_delta
        (some "adjustment")
        none
        (some actor)
        payload.notes
        db
      ≡ ok (u, db')
    → (m : StockMovement) × (m.inventory_item_id ≡ item.id)
      × (m.quantity_delta ≡ payload.quantity_delta)
      × (m.resulting_on_hand ≡ item.on_hand_qty)
      × (db' ≡ record db { movements = db.movements ++ m ∷ []; next_id = db.next_id + 1 })
unfolding add_movement uuid4
add_movement-eq item payload actor u db db' run =
    (_, refl, refl, refl, ap (λ (p : Unit {0} × Db). p.1) (sym (ok-injective _ _ run)))

-- The database with the event of the adjustment.
abbrev announced : InventoryItem → StockAdjustment → Db → Db
announced item payload db = record db {
  next_id = db.next_id + 1;
  outbox =
      add_event Topic.inventory db.next_id stock_adjusted item.id
        (adjusted item.id item.warehouse_id item.sku_id payload.movement_type payload.quantity_delta
          item.on_hand_qty)
        db.outbox;
}

-- What an adjustment that returned has done.
pub record Adjusts (principal : Principal) (payload : StockAdjustment) (found item : InventoryItem)
    (before after : Db) : Type 0 where
  pub valid : IsValid after
  pub allowed : manages found.warehouse_id principal ≡ true
  pub moved : item ≡ adjust_qty payload.quantity_delta found
  pub entry : StockMovement
  pub entry_of : entry.inventory_item_id ≡ found.id
  pub entry_delta : entry.quantity_delta ≡ payload.quantity_delta
  pub entry_result : entry.resulting_on_hand ≡ item.on_hand_qty
  pub ledger : after.movements ≡ before.movements ++ entry ∷ []
  pub holds : after.reservations ≡ before.reservations

adjust_item-Adjusts :
    (payload : StockAdjustment) (principal : Principal) (k : ℕ) (found item : InventoryItem)
    (db db' : Db)
    → IsValid db
    → first_where (λ i. i.id == k) db.items ≡ some found
    → adjust_item found payload principal db ≡ ok (item, db')
    → Adjusts principal payload found item db db'
unfolding adjust_item assert_manages emit uuid4
adjust_item-Adjusts payload principal k found item db db' v at run =
    let delta = payload.quantity_delta in
    let (_, r0) =
      raise_if-ok (not (may_touch_warehouse principal found.warehouse_id)) not_found _ run in
    let (may, r1) =
      raise_if-ok (not (manages found.warehouse_id principal)) permission_denied _ r0 in
    let (a, s1, e1, r2) = >>=-eq-ok (modify_item found.id (adjust_qty delta)) _ r1 in
    let (_, s2, e2, r3) =
      >>-eq-ok
        (add_movement a payload.movement_type delta (some "adjustment") none
          (some principal.user_id) payload.notes)
        _ r2 in
    let (_, s3, e3, r4) = >>-eq-ok flush _ r3 in
    let (old, seen, same_id, on, same_a, eq1) =
      modify_item-eq found.id (adjust_qty delta) a db s1 e1 in
    let (m, m_of, m_delta, m_result, eq2) =
      add_movement-eq a payload principal.user_id _ s1 s2 e2 in
    let (eq3, ci, cr, cm, u) = flush-eq _ s2 s3 e3 in
    let (found_is, _) = found_id k db.items found at in
    let old_is : old ≡ found = ground (arith, found_is) in
    let whole : s2 ≡ adjusted_db found.id payload m db =
      eq2
      ∙ ap (λ (d : Db). record d { movements = d.movements ++ m ∷ []; next_id = d.next_id + 1 })
          eq1 in
    let valid : IsValid s2 =
      booked-IsValid s2
        (rw whole (
          adjusted_db-IsBooked found.id payload m db v on
            (m_of ∙ ap (λ (i : InventoryItem). i.id) same_a ∙ same_id) m_delta))
        ci cr cm u in
    let last = ok-injective (a, announced a payload s3) (item, db') r4 in
    let item_is : item ≡ a = ap (λ (p : InventoryItem × Db). p.0) (sym last) in
    let end : db' ≡ announced a payload s2 =
      ap (λ (p : InventoryItem × Db). p.1) (sym last) ∙ ap (announced a payload) eq3 in
    record {
      valid = rw end (IsValid-outbox s2 _ _ (omega arith) valid);
      allowed = not-false (manages found.warehouse_id principal) may;
      moved = item_is ∙ same_a ∙ ap (adjust_qty delta) old_is;
      entry = m;
      entry_of = m_of ∙ ap (λ (i : InventoryItem). i.id) same_a ∙ same_id;
      entry_delta = m_delta;
      entry_result = m_result ∙ ap (λ (i : InventoryItem). i.on_hand_qty) (sym item_is);
      ledger = ap (λ (d : Db). d.movements) end ∙ ap (λ (d : Db). d.movements) whole;
      holds = ap (λ (d : Db). d.reservations) end ∙ ap (λ (d : Db). d.reservations) whole;
    }

-- An adjustment of a valid database that returns has added its quantity to the position of that id,
-- written one ledger entry with the quantity and with the result, and touched no hold; the caller
-- was an administrator or an operator of the warehouse, and the database is valid again: no more is
-- held than is left.
pub adjust-Adjusts :
    (item_id : ℕ) (payload : StockAdjustment) (principal : Principal) (item : InventoryItem)
    (db db' : Db)
    → IsValid db
    → adjust item_id payload principal db ≡ ok (item, db')
    → (found : InventoryItem) × (first_where (λ i. i.id == item_id) db.items ≡ some found)
      × Adjusts principal payload found item db db'
unfolding adjust
adjust-Adjusts item_id payload principal item db db' v run =
    elim (Option-cases (first_where (λ i. i.id == item_id) db.items)) [
      | inl missing ↦ absurd (ground arith)
      | inr (found, at) ↦ (
        found,
        at,
        adjust_item-Adjusts payload principal item_id found item db db' v at (ground arith),
      )
    ]
