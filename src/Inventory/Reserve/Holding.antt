-- ===== src/Inventory/Reserve/Holding.antt =====
-- The loop of `reserve`: each line books its quantity on a position and adds a hold.
use mathlib.Core.Path.{subst}
use mathlib.Core.List.{append-nil, append_assoc}
use smart_logistics.Base.{
  ℕ, ◌+◌, ◌≡◌, refl, sym, ap, ◌∙◌, true, none, some, List, [], ◌∷◌, ◌++◌, arith, contains,
  first_where, update_where, Option-cases, inl, inr, ◌==◌,
}
use smart_logistics.Platform.Errors.{ok, ok-injective}
use smart_logistics.Platform.Session.{>>-eq-ok}
use smart_logistics.Inventory.Models.{Db, InventoryItem, InventoryReservation, held, uuid4}
use smart_logistics.Inventory.Schemas.{ReservationLineRequest, ReservationRequest}
use smart_logistics.Inventory.Holds.{modify_item, for_each, reserve_qty}
use smart_logistics.Inventory.Reserve.{new_hold, hold_line, item_id_for}
use smart_logistics.Inventory.Accounts.Sums.{held_sum-append}
use smart_logistics.Inventory.Accounts.Positions.{reserve-Booked, Booked-eq}
use smart_logistics.Inventory.Accounts.Booked.{IsBooked, found_id, OnPositions-append}
use smart_logistics.Inventory.Accounts.Valid.{item_ids, EntriesOn, Below, Below-le}
use smart_logistics.Inventory.Accounts.Releases.{OnPositions-eq, item_ids-update}

-- What one line leaves: the position booked, and one more hold.
abbrev held_db : ReservationRequest → ℕ → ReservationLineRequest → InventoryItem → Db → Db
held_db request expires_at line item db = record db {
  items = update_where (λ i. i.id == item.id) (reserve_qty line.quantity) db.items;
  reservations = db.reservations ++ new_hold request expires_at line item.id db.next_id ∷ [];
  next_id = db.next_id + 1;
}

-- A line that went through found its position.
pub hold_line-eq :
    (request : ReservationRequest) (expires_at : ℕ) (items : List (ℕ × ℕ))
    (line : ReservationLineRequest) (db db' : Db)
    → hold_line request expires_at items line db ≡ ok (tt, db')
    → (item : InventoryItem) × (item_id_for items line.sku_id ≡ some item.id)
      × (contains (item_ids db.items) item.id ≡ true)
      × (db' ≡ held_db request expires_at line item db)
unfolding hold_line modify_item uuid4
hold_line-eq request expires_at items line db db' run =
    elim (Option-cases (item_id_for items line.sku_id)) [
      | inl missing ↦ absurd (ground arith)
      | inr (k, known) ↦ elim (Option-cases (first_where (λ i. i.id == k) db.items)) [
        | inl missing ↦ absurd (ground arith)
        | inr (item, found) ↦
            let (same, on) = found_id k db.items item found in
            (item, ground (arith, same), on, ground arith)
      ]
    ]

held_db-IsBooked :
    (request : ReservationRequest) (expires_at : ℕ) (line : ReservationLineRequest)
    (item : InventoryItem) (db : Db)
    → contains (item_ids db.items) item.id ≡ true
    → IsBooked db
    → IsBooked (held_db request expires_at line item db)
held_db-IsBooked request expires_at line item db on b =
    let h = new_hold request expires_at line item.id db.next_id in
    let ids' = item_ids-update item.id (reserve_qty line.quantity) (λ i. refl) db.items in
    record {
      positions =
          Booked-eq _ _ _ _ (held_db request expires_at line item db).items
            (λ i. omega (arith, held_sum-append i db.reservations (h ∷ []))) (λ i. refl)
            (reserve-Booked _ _ h db.items b.positions);
      references =
          OnPositions-eq db.items _ (db.reservations ++ h ∷ []) ids'
            (OnPositions-append db.items db.reservations h b.references on);
      entries = subst (λ ids. EntriesOn ids db.movements) (sym ids') b.entries;
      fresh =
          subst (Below (db.next_id + 1)) (sym ids')
            (Below-le db.next_id (db.next_id + 1) (item_ids db.items) (omega arith) b.fresh);
    }

-- A hold of what a line asks for: it takes the line's quantity of the SKU for the request's shipment
-- and warehouse, is held and unconfirmed, and is due at this time.
pub record HeldFor (request : ReservationRequest) (expires_at : ℕ) (line : ReservationLineRequest)
    (h : InventoryReservation) : Type 0 where
  pub shipment : h.shipment_id ≡ request.shipment_id
  pub warehouse : h.warehouse_id ≡ request.warehouse_id
  pub sku : h.sku_id ≡ line.sku_id
  pub amount : h.quantity ≡ line.quantity
  pub open_hold : h.status ≡ held
  pub due : h.expires_at ≡ some expires_at
  pub unconfirmed : h.confirmed_at ≡ none

-- One hold for each line, in the order of the lines: held, unconfirmed, and due at the same time.
abbrev pub HeldAs :
    ReservationRequest → ℕ → List ReservationLineRequest → List InventoryReservation → Type 0
HeldAs request expires_at [] [] = Unit
HeldAs request expires_at (line ∷ lines) (h ∷ hs) =
    HeldFor request expires_at line h × HeldAs request expires_at lines hs
HeldAs request expires_at _ _ = ⊥

-- What the loop leaves.
pub record Held (request : ReservationRequest) (expires_at : ℕ)
    (lines : List ReservationLineRequest) (before after : Db) : Type 0 where
  pub booked : IsBooked after
  pub made : List InventoryReservation
  pub made_as : HeldAs request expires_at lines made
  pub rows : after.reservations ≡ before.reservations ++ made
  pub ledger : after.movements ≡ before.movements

pub hold_loop :
    (request : ReservationRequest) (expires_at : ℕ) (items : List (ℕ × ℕ))
    (lines : List ReservationLineRequest) (db db' : Db)
    → for_each (hold_line request expires_at items) lines db ≡ ok (tt, db')
    → IsBooked db
    → Held request expires_at lines db db'
unfolding for_each
hold_loop request expires_at items [] db db' run b =
    let same : db ≡ db' = ap (λ (p : Unit {0} × Db). p.1) (ok-injective _ _ run) in
    rw (← same) (record {
      booked = b;
      made = [];
      made_as = tt;
      rows = sym (append-nil db.reservations);
      ledger = refl;
    })
hold_loop request expires_at items (line ∷ lines) db db' run b =
    let (_, db1, run1, rest) =
      >>-eq-ok (hold_line request expires_at items line)
        (for_each (hold_line request expires_at items) lines) run in
    let (item, known, on, eq1) = hold_line-eq request expires_at items line db db1 run1 in
    let b1 : IsBooked db1 = rw eq1 (held_db-IsBooked request expires_at line item db on b) in
    let held_rest = hold_loop request expires_at items lines db1 db' rest b1 in
    let h = new_hold request expires_at line item.id db.next_id in
    record {
      booked = held_rest.booked;
      made = h ∷ held_rest.made;
      made_as = (
        record {
          shipment = refl;
          warehouse = refl;
          sku = refl;
          amount = refl;
          open_hold = refl;
          due = refl;
          unconfirmed = refl;
        },
        held_rest.made_as,
      );
      rows =
          held_rest.rows
          ∙ ap (λ (d : Db). d.reservations ++ held_rest.made) eq1
          ∙ append_assoc db.reservations (h ∷ []) held_rest.made;
      ledger = held_rest.ledger ∙ ap (λ (d : Db). d.movements) eq1;
    }
