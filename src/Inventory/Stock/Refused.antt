-- ===== src/Inventory/Stock/Refused.antt =====
-- An adjustment that would leave less than is held.
use smart_logistics.Base.{
  ℕ, ◌≡◌, refl, sym, ap, ◌∙◌, Bool, true, false, not, ◌&&◌, Option, none, some, List, [], ◌∷◌, ◌==◌,
  leb_ℤ, ℤ, ◌+ℤ◌, first_where, update_where, all, Bool-cases, inl, inr, arith,
}
use mathlib.Core.Path.{subst}
use smart_logistics.Platform.Errors.{
  Error, SqlState, not_found, integrity_error, ok, err, handled, translate_integrity_error,
  status_code,
}
use smart_logistics.Platform.Session.{>>-ok, >>=-ok, >>-err, raise_if}
use smart_logistics.Platform.Auth.{Principal, may_touch_warehouse}
use smart_logistics.Inventory.Models.{
  Db, InventoryItem, item_checks, check_constraints, flush, uuid4,
}
use smart_logistics.Inventory.Holds.{modify_item, adjust_qty, add_movement}
use smart_logistics.Inventory.Accounts.Booked.{found_id}
use smart_logistics.Inventory.Stock.{StockAdjustment, adjust, adjust_item, manages, assert_manages}

and_false : (a b : Bool) → a ≡ false → (a && b) ≡ false
and_false a b e = rw e refl

short_checks :
    (delta : ℤ) (found : InventoryItem)
    → leb_ℤ found.reserved_qty (found.on_hand_qty +ℤ delta) ≡ false
    → item_checks (adjust_qty delta found) ≡ false
short_checks delta found short = ground (arith, short)

module _ (item_id : ℕ) (f : InventoryItem → InventoryItem) (found : InventoryItem) where
  checks-fail :
      (items : List InventoryItem)
      → first_where (λ i. i.id == item_id) items ≡ some found
      → item_checks (f found) ≡ false
      → all item_checks (update_where (λ i. i.id == item_id) f items) ≡ false
  checks-fail [] e bad = absurd (cc e)
  checks-fail (i ∷ items) e bad = elim (Bool-cases (i.id == item_id)) [
    | inl hit ↦
        let is_found : i ≡ found =
          ap (λ (o : Option InventoryItem). elim o [ none ↦ i | some x ↦ x ]) (rw hit at e) in
        rw hit (
          and_false _ (all item_checks (update_where (λ x. x.id == item_id) f items))
            (subst (λ (x : InventoryItem). item_checks (f x) ≡ false) (sym is_found) bad))
    | inr miss ↦ rw (miss, checks-fail items (rw miss at e) bad) (ground arith)
  ]

-- The database with the position as it would be.
abbrev left_db : StockAdjustment → InventoryItem → Db → Db
left_db payload found db = record db {
  items = update_where (λ i. i.id == found.id) (adjust_qty payload.quantity_delta) db.items;
}

movement_added :
    (item : InventoryItem) (payload : StockAdjustment) (p : Principal) (db : Db)
    → (db' : Db) × (add_movement item payload.movement_type payload.quantity_delta
          (some "adjustment")
          none
          (some p.user_id)
          payload.notes
          db
        ≡ ok (tt, db'))
      × (db'.items ≡ db.items)
unfolding add_movement uuid4
movement_added item payload p db = (_, refl, refl)

flush-refused :
    (db : Db)
    → all item_checks db.items ≡ false
    → flush db ≡ err (integrity_error SqlState.check_violation)
unfolding flush check_constraints
flush-refused db fails = rw fails refl

item-refused :
    (payload : StockAdjustment) (p : Principal) (found : InventoryItem) (db : Db)
    → first_where (λ i. i.id == found.id) db.items ≡ some found
    → may_touch_warehouse p found.warehouse_id ≡ true
    → manages found.warehouse_id p ≡ true
    → leb_ℤ found.reserved_qty (found.on_hand_qty +ℤ payload.quantity_delta) ≡ false
    → adjust_item found payload p db ≡ err (integrity_error SqlState.check_violation)
unfolding adjust_item assert_manages modify_item
item-refused payload p found db e may manage short =
    let fails =
      checks-fail found.id (adjust_qty payload.quantity_delta) found db.items e
        (short_checks payload.quantity_delta found short) in
    let (after, wrote, kept) =
      movement_added (adjust_qty payload.quantity_delta found) payload p
        (left_db payload found db) in
    >>-ok (raise_if (not (may_touch_warehouse p found.warehouse_id)) not_found) _ {s' = db} {a = tt}
      (rw may refl)
    ∙ >>-ok (assert_manages found.warehouse_id p) _ {s' = db} {a = tt} (rw manage refl)
    ∙ >>=-ok (modify_item found.id (adjust_qty payload.quantity_delta)) _
        {s' = left_db payload found db} {a = adjust_qty payload.quantity_delta found}
        (rw (modify_item, e) refl)
    ∙ >>-ok
        (add_movement (adjust_qty payload.quantity_delta found) payload.movement_type
          payload.quantity_delta (some "adjustment") none (some p.user_id) payload.notes)
        _ wrote
    ∙ >>-err flush _ (flush-refused after (rw kept fails))

-- An adjustment by a manager of the warehouse that would leave less on hand than is held is refused
-- by the constraint of the table: it raises, and the answer is 422.
pub adjust-refused :
    (item_id : ℕ) (payload : StockAdjustment) (p : Principal) (found : InventoryItem) (db : Db)
    → first_where (λ i. i.id == item_id) db.items ≡ some found
    → may_touch_warehouse p found.warehouse_id ≡ true
    → manages found.warehouse_id p ≡ true
    → leb_ℤ found.reserved_qty (found.on_hand_qty +ℤ payload.quantity_delta) ≡ false
    → (e : Error) × (adjust item_id payload p db ≡ err e) × (status_code (handled e) ≡ 422)
unfolding adjust handled translate_integrity_error status_code
adjust-refused item_id payload p found db e may manage short =
    let (same, on) = found_id item_id db.items found e in
    let found' : first_where (λ i. i.id == found.id) db.items ≡ some found =
      subst (λ k. first_where (λ i. i.id == k) db.items ≡ some found) (sym same) e in
    (
      integrity_error SqlState.check_violation,
      rw e (item-refused payload p found db found' may manage short),
      refl,
    )
