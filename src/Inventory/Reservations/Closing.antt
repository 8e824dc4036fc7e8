-- ===== src/Inventory/Reservations/Closing.antt =====
-- The loops of `commit`, `release` and the sweep over the holds that they selected, and the flush
-- after them, on a valid database.
use mathlib.Core.Path.{subst}
use smart_logistics.Base.{
  ℕ, ◌≡◌, refl, sym, String, Bool, true, List, arith, Option, rows_where, update_where,
}
use smart_logistics.Platform.Errors.{ok}
use smart_logistics.Inventory.Models.{
  Db, InventoryItem, InventoryReservation, held, is_status, item_keys,
}
use smart_logistics.Inventory.Holds.{
  for_each, release_position, commit_position, release_row, commit_row,
}
use smart_logistics.Inventory.Accounts.Sums.{held_sum, ledger_sum, held_sum-close}
use smart_logistics.Inventory.Accounts.Positions.{Consistent-eq}
use smart_logistics.Inventory.Accounts.Valid.{IsValid, item_ids, EntriesOn, Below, Below-le}
use smart_logistics.Inventory.Accounts.Loops.{commit_loop}
use smart_logistics.Inventory.Accounts.Releases.{release_loop, OnPositions-eq}
use smart_logistics.Inventory.Accounts.Updates.{
  OnPositions-rows_where, checks-rows_where, OnPositions-update, checks-update, keys-update,
  unique-eq,
}

-- The selected holds are open.
abbrev pub SelectsHeld : (InventoryReservation → Bool) → Type 0
SelectsHeld p = (h : InventoryReservation) → p h ≡ true → is_status h.status held ≡ true

module _ (p : InventoryReservation → Bool) (sel : SelectsHeld p) (db : Db) (v : IsValid db) where
  -- Releasing them.
  pub release_selected :
      (reason : String) (now : ℕ)
      → (items' : List InventoryItem) × (for_each release_position (rows_where p db.reservations) db
          ≡ ok (tt, record db { items = items' }))
        × IsValid (record db {
          items = items';
          reservations = update_where p (release_row reason now) db.reservations;
        })
        × (item_ids items' ≡ item_ids db.items)
        × (item_keys items' ≡ item_keys db.items)
  release_selected reason now =
      let close = release_row reason now in
      let hs' = update_where p close db.reservations in
      let (items', run, left) =
        release_loop (λ i. held_sum i hs') (λ i. ledger_sum i db.movements)
          (rows_where p db.reservations) db
          (Consistent-eq _ _ _ _ db.items
            (λ i. omega (arith, held_sum-close i p close (λ h e. (sel h e, refl)) db.reservations))
            (λ i. refl) v.positions)
          (OnPositions-rows_where p db.items db.reservations v.references) in
      (
        items',
        run,
        record {
          positions = left.positions;
          references =
              OnPositions-eq db.items items' hs' left.ids
                (OnPositions-update p close (λ h. refl) db.items db.reservations v.references);
          entries = subst (λ ids. EntriesOn ids db.movements) (sym left.ids) v.entries;
          fresh = subst (Below db.next_id) (sym left.ids) v.fresh;
          holds = checks-update p close (λ h e k. ground arith) db.reservations v.holds;
          ledger = v.ledger;
          unique =
              unique-eq db _ left.keys (keys-update p close (λ h. refl) (λ h. refl) db.reservations)
                v.unique;
        },
        left.ids,
        left.keys,
      )

  -- Committing them.
  pub commit_selected :
      (shipment_id : ℕ) (actor_id : Option ℕ) (now : ℕ)
      → (db' : Db) × (for_each
            (commit_position shipment_id actor_id)
            (rows_where p db.reservations)
            db
          ≡ ok (tt, db'))
        × (db'.reservations ≡ db.reservations)
        × IsValid (record db' { reservations = update_where p (commit_row now) db'.reservations })
  commit_selected shipment_id actor_id now =
      let close = commit_row now in
      let hs' = update_where p close db.reservations in
      let (db', run, left) =
        commit_loop (λ i. held_sum i hs') shipment_id actor_id (rows_where p db.reservations) db
          (Consistent-eq _ _ _ _ db.items
            (λ i. omega (arith, held_sum-close i p close (λ h e. (sel h e, refl)) db.reservations))
            (λ i. refl) v.positions)
          (OnPositions-rows_where p db.items db.reservations v.references)
          (checks-rows_where p db.reservations v.holds) v.ledger v.entries in
      (
        db',
        run,
        left.holds,
        rw left.holds (record {
          positions = left.positions;
          references =
              OnPositions-eq db.items db'.items hs' left.ids
                (OnPositions-update p close (λ h. refl) db.items db.reservations v.references);
          entries = left.entries;
          fresh =
              Below-le db.next_id db'.next_id (item_ids db'.items) left.later
                (subst (Below db.next_id) (sym left.ids) v.fresh);
          holds = checks-update p close (λ h e k. ground arith) db.reservations v.holds;
          ledger = left.ledger;
          unique =
              unique-eq db _ left.keys (keys-update p close (λ h. refl) (λ h. refl) db.reservations)
                v.unique;
        }),
      )
