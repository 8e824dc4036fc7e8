-- ===== src/Inventory/Reservations/Confirm.antt =====
-- `confirm` on a valid database.
use smart_logistics.Base.{ℕ, ◌≡◌, refl, sym, ◌∙◌, true, arith, length, update_where}
use smart_logistics.Platform.Errors.{ok}
use smart_logistics.Platform.Session.{>>-ok, >>=-ok}
use smart_logistics.Inventory.Models.{Db, InventoryReservation, flush, reservation_checks}
use smart_logistics.Inventory.Holds.{confirm_row, is_held_for}
use smart_logistics.Inventory.Accounts.Sums.{held_sum-keep, held_qty}
use smart_logistics.Inventory.Accounts.Positions.{Consistent-eq}
use smart_logistics.Inventory.Accounts.Valid.{IsValid, IsValid-flush}
use smart_logistics.Inventory.Accounts.Updates.{
  OnPositions-update, checks-update, keys-update, unique-eq,
}
use smart_logistics.Inventory.Reservations.{lock_holds, confirm}
use smart_logistics.Inventory.Reservations.Selects.{lock_holds-eq}
use smart_logistics.Inventory.Reservations.Lifecycle.{open_holds}

confirm_row-held_qty :
    (now i : ℕ) (h : InventoryReservation) → held_qty i (confirm_row now h) ≡ held_qty i h
confirm_row-held_qty now i h = ground arith

confirm_row-item :
    (now : ℕ) (h : InventoryReservation)
    → (confirm_row now h).inventory_item_id ≡ h.inventory_item_id
confirm_row-item now h = ground arith

confirm_row-shipment :
    (now : ℕ) (h : InventoryReservation) → (confirm_row now h).shipment_id ≡ h.shipment_id
confirm_row-shipment now h = ground arith

confirm_row-sku : (now : ℕ) (h : InventoryReservation) → (confirm_row now h).sku_id ≡ h.sku_id
confirm_row-sku now h = ground arith

confirm_row-checks :
    (now : ℕ) (h : InventoryReservation)
    → reservation_checks h ≡ true
    → reservation_checks (confirm_row now h) ≡ true
confirm_row-checks now h k = ground arith

-- The database after a confirm.
abbrev pub confirmed_db : ℕ → ℕ → Db → Db
confirmed_db now shipment_id db = record db {
  reservations = update_where (is_held_for shipment_id) (confirm_row now) db.reservations;
}

confirmed-IsValid :
    (now shipment_id : ℕ) (db : Db) → IsValid db → IsValid (confirmed_db now shipment_id db)
confirmed-IsValid now shipment_id db v =
    let p = is_held_for shipment_id in
    let f = confirm_row now in
    record {
      positions =
          Consistent-eq _ _ _ _ db.items
            (λ i. sym (held_sum-keep i p f (confirm_row-held_qty now i) db.reservations))
            (λ i. refl) v.positions;
      references =
          OnPositions-update p f (confirm_row-item now) db.items db.reservations v.references;
      entries = v.entries;
      fresh = v.fresh;
      holds = checks-update p f (λ h e k. confirm_row-checks now h k) db.reservations v.holds;
      ledger = v.ledger;
      unique =
          unique-eq db _ refl
            (keys-update p f (confirm_row-shipment now) (confirm_row-sku now) db.reservations)
            v.unique;
    }

pub confirm-total :
    (now shipment_id : ℕ) (db : Db)
    → IsValid db
    → (confirm now shipment_id db
        ≡ ok (length (open_holds shipment_id db), confirmed_db now shipment_id db))
      × IsValid (confirmed_db now shipment_id db)
unfolding confirm
confirm-total now shipment_id db v =
    let valid = confirmed-IsValid now shipment_id db v in
    (
      >>=-ok (lock_holds shipment_id) _ (lock_holds-eq shipment_id db)
          ∙ >>-ok flush _ (IsValid-flush (confirmed_db now shipment_id db) valid),
      valid,
    )
