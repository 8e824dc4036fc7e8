-- ===== src/Inventory/Reservations/Expiry.antt =====
-- The release of lapsed holds, `release_expired` of services/reservations.py.
use smart_logistics.Base.{
  ℕ, ◌≤◌, ◌≡◌, refl, sym, ap, ◌∙◌, Bool, ◌&&◌, Option, some, List, [], ◌∷◌, arith, length,
  rows_where, update_where, map, contains, is_some,
}
use smart_logistics.Platform.Errors.{ok, ok-injective}
use smart_logistics.Platform.Session.{>>-ok}
use smart_logistics.Platform.Outbox.{Outbox}
use smart_logistics.Inventory.Models.{
  Db, InventoryItem, InventoryReservation, StockPayload, flush, item_keys,
}
use smart_logistics.Inventory.Events.{stock_released}
use smart_logistics.Inventory.Holds.{
  for_each, release_position, release_row, is_lapsed, is_lapsed_on,
}
use smart_logistics.Inventory.Accounts.Valid.{IsValid, IsValid-flush, IsValid-outbox, item_ids}
use smart_logistics.Inventory.Accounts.Updates.{update-none}
use smart_logistics.Inventory.Reservations.{
  emit_expired, group_by_shipment, expire_holds, expire_unconfirmed, expired_reason, sweep,
  release_expired, lock_item_ids, item_ids_of, in_scope,
}
use smart_logistics.Inventory.Reservations.Selects.{emit_stock_event-eq}
use smart_logistics.Inventory.Reservations.Closing.{SelectsHeld, release_selected}

-- The events of an expiry change the outbox alone.
emit_expired-ok :
    (g : ℕ × List InventoryReservation) (db : Db)
    → (n : ℕ) × (outbox : Outbox StockPayload) × (emit_expired g db
        ≡ ok (tt, record db { outbox = outbox; next_id = n }))
      × (db.next_id ≤ n)
unfolding emit_expired
emit_expired-ok (s, []) db = (db.next_id, db.outbox, refl, omega arith)
emit_expired-ok (s, h ∷ hs) db = (
  _,
  _,
  emit_stock_event-eq stock_released s h.warehouse_id (h ∷ hs) (some expired_reason) db,
  omega arith,
)

emit_all-ok :
    (gs : List (ℕ × List InventoryReservation)) (db : Db)
    → (n : ℕ) × (outbox : Outbox StockPayload) × (for_each emit_expired gs db
        ≡ ok (tt, record db { outbox = outbox; next_id = n }))
      × (db.next_id ≤ n)
unfolding for_each
emit_all-ok [] db = (db.next_id, db.outbox, refl, omega arith)
emit_all-ok (g ∷ gs) db =
    let (n, outbox, run, up) = emit_expired-ok g db in
    let (n', outbox', run', up') = emit_all-ok gs (record db { outbox = outbox; next_id = n }) in
    (n', outbox', rw (run, for_each) run', omega arith)

-- What the release of the lapsed holds on some positions leaves: the accounts, the holds
-- released, and every key and every other table as it was.
pub record Expires (now : ℕ) (item_ids_ : List ℕ) (before after : Db) : Type 0 where
  pub valid : IsValid after
  pub rows :
      after.reservations
      ≡ update_where
          (is_lapsed_on now item_ids_)
          (release_row expired_reason now)
          before.reservations
  pub ids : item_ids after.items ≡ item_ids before.items
  pub keys : item_keys after.items ≡ item_keys before.items
  pub ledger : after.movements ≡ before.movements
  pub skus : after.skus ≡ before.skus
  pub refs : after.warehouse_refs ≡ before.warehouse_refs

lapsed-SelectsHeld : (now : ℕ) (ids : List ℕ) → SelectsHeld (is_lapsed_on now ids)
lapsed-SelectsHeld now ids h e = ground arith

lapsed_on_none :
    (now : ℕ) (hs : List InventoryReservation) → rows_where (is_lapsed_on now []) hs ≡ []
lapsed_on_none now [] = refl
lapsed_on_none now (h ∷ hs) = lapsed_on_none now hs

expire_holds-total :
    (now : ℕ) (ids : List ℕ) (db : Db) (hs : List InventoryReservation)
    → rows_where (is_lapsed_on now ids) db.reservations ≡ hs
    → IsValid db
    → (db' : Db) × (expire_holds now ids hs db ≡ ok (length hs, db')) × Expires now ids db db'
unfolding expire_holds
expire_holds-total now ids db [] e v = (
  db,
  refl,
  record {
    valid = v;
    rows = sym (update-none _ _ db.reservations e);
    ids = refl;
    keys = refl;
    ledger = refl;
    skus = refl;
    refs = refl;
  },
)
expire_holds-total now ids db (h ∷ hs) e v =
    let p = is_lapsed_on now ids in
    let (items', run, valid, ids', keys') =
      release_selected p (lapsed-SelectsHeld now ids) db v expired_reason now in
    let db1 : Db = record db {
      items = items';
      reservations = update_where p (release_row expired_reason now) db.reservations;
    } in
    let run' : for_each release_position (h ∷ hs) db ≡ ok (tt, record db { items = items' }) =
      rw e at run in
    let (n, outbox, sent, up) = emit_all-ok (group_by_shipment [] (h ∷ hs)) db1 in
    (
      record db1 { outbox = outbox; next_id = n },
      >>-ok (for_each release_position (h ∷ hs)) _ run'
          ∙ >>-ok flush _ (IsValid-flush db1 valid)
          ∙ >>-ok (for_each emit_expired (group_by_shipment [] (h ∷ hs))) _ sent,
      record {
        valid = IsValid-outbox db1 n outbox up valid;
        rows = refl;
        ids = ids';
        keys = keys';
        ledger = refl;
        skus = refl;
        refs = refl;
      },
    )

pub expire_unconfirmed-total :
    (now : ℕ) (ids : List ℕ) (db : Db)
    → IsValid db
    → (db' : Db) × (expire_unconfirmed now ids db
        ≡ ok (length (rows_where (is_lapsed_on now ids) db.reservations), db'))
      × Expires now ids db db'
unfolding expire_unconfirmed
expire_unconfirmed-total now [] db v =
    let none_lapsed = lapsed_on_none now db.reservations in
    let (db', run, left) = expire_holds-total now [] db [] none_lapsed v in
    (
      db,
      ap (λ (l : List InventoryReservation). ok (length l, db)) (sym none_lapsed),
      record {
        valid = v;
        rows = sym (
            update-none (is_lapsed_on now []) (release_row expired_reason now) db.reservations
              none_lapsed);
        ids = refl;
        keys = refl;
        ledger = refl;
        skus = refl;
        refs = refl;
      },
    )
expire_unconfirmed-total now (i ∷ ids) db v =
    expire_holds-total now (i ∷ ids) db (rows_where (is_lapsed_on now (i ∷ ids)) db.reservations)
      refl v

-- The positions that a sweep locks.
abbrev pub swept_items : ℕ → Option (List ℕ) → Db → List ℕ
swept_items now scope db =
    let lapsed =
      item_ids_of (rows_where (λ r. is_lapsed now r && in_scope scope r) db.reservations) in
    map (λ i. i.id) (rows_where (λ i. contains lapsed i.id) db.items)

nothing_locked :
    (items : List InventoryItem) → rows_where (λ (i : InventoryItem). contains [] i.id) items ≡ []
nothing_locked [] = refl
nothing_locked (i ∷ items) = nothing_locked items

sweep-total :
    (now : ℕ) (db : Db) (lapsed : List ℕ)
    → IsValid db
    → let locked = map (λ i. i.id) (rows_where (λ i. contains lapsed i.id) db.items) in
      (db' : Db) × (sweep now lapsed db
        ≡ ok (length (rows_where (is_lapsed_on now locked) db.reservations), db'))
      × Expires now locked db db'
unfolding sweep lock_item_ids expire_unconfirmed
sweep-total now db [] v =
    let nothing = nothing_locked db.items in rw nothing (expire_unconfirmed-total now [] db v)
sweep-total now db (i ∷ lapsed) v = expire_unconfirmed-total now _ db v

pub release_expired-total :
    (now : ℕ) (scope : Option (List ℕ)) (db : Db)
    → IsValid db
    → (db' : Db) × (release_expired now scope db
        ≡ ok (
          length (rows_where (is_lapsed_on now (swept_items now scope db)) db.reservations),
          db',
        ))
      × Expires now (swept_items now scope db) db db'
unfolding release_expired
release_expired-total now scope db v =
    sweep-total now db
      (item_ids_of (rows_where (λ r. is_lapsed now r && in_scope scope r) db.reservations)) v

abbrev pub is_confirmed : InventoryReservation → Bool
is_confirmed r = is_some r.confirmed_at

confirmed_kept :
    (now : ℕ) (ids : List ℕ) (hs : List InventoryReservation)
    → rows_where is_confirmed
        (update_where (is_lapsed_on now ids) (release_row expired_reason now) hs)
      ≡ rows_where is_confirmed hs
confirmed_kept now ids [] = refl
confirmed_kept now ids (h ∷ hs) = ground (arith, confirmed_kept now ids hs)

-- Confirmed holds never expire: on a valid database, whatever a sweep returned, at whatever time
-- and in whatever scope, the confirmed holds are the same rows as before.
pub sweep_keeps_confirmed :
    (now n : ℕ) (scope : Option (List ℕ)) (db db' : Db)
    → IsValid db
    → release_expired now scope db ≡ ok (n, db')
    → rows_where is_confirmed db'.reservations ≡ rows_where is_confirmed db.reservations
sweep_keeps_confirmed now n scope db db' v run =
    let (done, run', left) = release_expired-total now scope db v in
    let same : db' ≡ done = ap (λ (p : ℕ × Db). p.1) (ok-injective _ _ (sym run ∙ run')) in
    rw (same, left.rows) (confirmed_kept now (swept_items now scope db) db.reservations)
