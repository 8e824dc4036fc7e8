-- ===== src/Inventory/Reservations/Lifecycle.antt =====
-- release, commit and confirm on a valid database: what they return and what they leave.
use smart_logistics.Base.{
  ℕ, ◌≡◌, refl, sym, ap, ◌∙◌, String, Bool, ◌&&◌, Option, none, some, List, [], ◌∷◌, arith, length,
  any, rows_where, update_where, ◌==◌, if◌then◌else◌,
}
use smart_logistics.Platform.Errors.{ok, err, conflict}
use smart_logistics.Platform.Session.{>>-ok, >>=-ok}
use smart_logistics.Inventory.Models.{Db, InventoryReservation, committed, is_status, flush}
use smart_logistics.Inventory.Events.{emit_stock_event, stock_released, stock_committed}
use smart_logistics.Inventory.Holds.{
  for_each, release_position, commit_position, release_row, commit_row, is_held_for,
}
use smart_logistics.Inventory.Accounts.Valid.{IsValid, IsValid-flush, IsValid-outbox}
use smart_logistics.Inventory.Accounts.Updates.{update-none}
use smart_logistics.Inventory.Reservations.{
  lock_holds, release, release_holds, commit, commit_holds, has_status, lock_item_ids,
}
use smart_logistics.Inventory.Reservations.Selects.{lock_holds-eq, emit_stock_event-eq, with_event}
use smart_logistics.Inventory.Reservations.Closing.{SelectsHeld, release_selected, commit_selected}

-- The open holds of a shipment.
abbrev pub open_holds : ℕ → Db → List InventoryReservation
open_holds shipment_id db = rows_where (is_held_for shipment_id) db.reservations

pub held_for-SelectsHeld : (shipment_id : ℕ) → SelectsHeld (is_held_for shipment_id)
held_for-SelectsHeld shipment_id h e = ground arith

-- What a release leaves: the accounts, every other row, and the holds released.
pub record Releases (now shipment_id : ℕ) (reason : String) (before after : Db) : Type 0 where
  pub valid : IsValid after
  pub rows :
      after.reservations
      ≡ update_where (is_held_for shipment_id) (release_row reason now) before.reservations
  pub ledger : after.movements ≡ before.movements

release_holds-total :
    (now shipment_id : ℕ) (reason : String) (db : Db) (hs : List InventoryReservation)
    → open_holds shipment_id db ≡ hs
    → IsValid db
    → (db' : Db) × (release_holds now reason shipment_id hs db ≡ ok (length hs, db'))
      × Releases now shipment_id reason db db'
unfolding release_holds lock_item_ids
release_holds-total now shipment_id reason db [] e v =
    (db, refl, record { valid = v; rows = sym (update-none _ _ db.reservations e); ledger = refl })
release_holds-total now shipment_id reason db (h ∷ hs) e v =
    let p = is_held_for shipment_id in
    let (items', run, valid, ids, keys) =
      release_selected p (held_for-SelectsHeld shipment_id) db v reason now in
    let db1 : Db = record db {
      items = items';
      reservations = update_where p (release_row reason now) db.reservations;
    } in
    let run' : for_each release_position (h ∷ hs) db ≡ ok (tt, record db { items = items' }) =
      rw e at run in
    (
      with_event db1 stock_released shipment_id h.warehouse_id (h ∷ hs) (some reason),
      >>-ok (for_each release_position (h ∷ hs)) _ run'
          ∙ >>-ok flush _ (IsValid-flush db1 valid)
          ∙ >>-ok
              (emit_stock_event stock_released shipment_id h.warehouse_id (h ∷ hs) (some reason)) _
              (emit_stock_event-eq stock_released shipment_id h.warehouse_id (h ∷ hs) (some reason)
                db1),
      record { valid = IsValid-outbox db1 _ _ (omega arith) valid; rows = refl; ledger = refl },
    )

pub release-total :
    (now shipment_id : ℕ) (reason : String) (db : Db)
    → IsValid db
    → (db' : Db) × (release now shipment_id reason db
        ≡ ok (length (open_holds shipment_id db), db'))
      × Releases now shipment_id reason db db'
unfolding release
release-total now shipment_id reason db v =
    let (db', run, left) =
      release_holds-total now shipment_id reason db (open_holds shipment_id db) refl v in
    (
      db',
      >>=-ok (lock_holds shipment_id) (release_holds now reason shipment_id)
            (lock_holds-eq shipment_id db)
          ∙ run,
      left,
    )

-- What a commit leaves.
pub record Commits (now shipment_id : ℕ) (before after : Db) : Type 0 where
  pub valid : IsValid after
  pub rows :
      after.reservations
      ≡ update_where (is_held_for shipment_id) (commit_row now) before.reservations

commit_holds-total :
    (now shipment_id : ℕ) (actor_id : Option ℕ) (db : Db) (h : InventoryReservation)
    (hs : List InventoryReservation)
    → open_holds shipment_id db ≡ h ∷ hs
    → IsValid db
    → (db' : Db) × (commit_holds now actor_id shipment_id (h ∷ hs) db ≡ ok (length (h ∷ hs), db'))
      × Commits now shipment_id db db'
unfolding commit_holds lock_item_ids
commit_holds-total now shipment_id actor_id db h hs e v =
    let p = is_held_for shipment_id in
    let (db1, run, same, valid) =
      commit_selected p (held_for-SelectsHeld shipment_id) db v shipment_id actor_id now in
    let db2 : Db = record db1 { reservations = update_where p (commit_row now) db1.reservations } in
    let run' : for_each (commit_position shipment_id actor_id) (h ∷ hs) db ≡ ok (tt, db1) =
      rw e at run in
    (
      with_event db2 stock_committed shipment_id h.warehouse_id (h ∷ hs) none,
      >>-ok (for_each (commit_position shipment_id actor_id) (h ∷ hs)) _ run'
          ∙ >>-ok flush _ (IsValid-flush db2 valid)
          ∙ >>-ok (emit_stock_event stock_committed shipment_id h.warehouse_id (h ∷ hs) none) _
              (emit_stock_event-eq stock_committed shipment_id h.warehouse_id (h ∷ hs) none db2),
      record {
        valid = IsValid-outbox db2 _ _ (omega arith) valid;
        rows = ap (update_where p (commit_row now)) same;
      },
    )

-- Has the shipment a committed hold?
abbrev pub has_committed : ℕ → Db → Bool
has_committed shipment_id db =
    any (λ r. r.shipment_id == shipment_id && is_status r.status committed) db.reservations

-- What a commit does, by what it finds: with open holds, it closes them; with none, it is a retry
-- or it is refused.
abbrev pub CommitOutcome : ℕ → Option ℕ → ℕ → Db → List InventoryReservation → Type 0
CommitOutcome now actor_id shipment_id db [] =
    commit now actor_id shipment_id db
    ≡ (if has_committed shipment_id db then ok (0, db) else err conflict)
CommitOutcome now actor_id shipment_id db (h ∷ hs) =
    (db' : Db) × (commit now actor_id shipment_id db ≡ ok (length (h ∷ hs), db'))
    × Commits now shipment_id db db'

pub commit_none :
    (now shipment_id : ℕ) (actor_id : Option ℕ) (db : Db)
    → open_holds shipment_id db ≡ []
    → CommitOutcome now actor_id shipment_id db []
unfolding commit commit_holds has_status
commit_none now shipment_id actor_id db e =
    >>=-ok (lock_holds shipment_id) (commit_holds now actor_id shipment_id)
      (lock_holds-eq shipment_id db)
    ∙ rw (e, commit_holds) (ground arith)

commit_some :
    (now shipment_id : ℕ) (actor_id : Option ℕ) (db : Db) (h : InventoryReservation)
    (hs : List InventoryReservation)
    → open_holds shipment_id db ≡ h ∷ hs
    → IsValid db
    → CommitOutcome now actor_id shipment_id db (h ∷ hs)
unfolding commit
commit_some now shipment_id actor_id db h hs e v =
    let (db', run, left) = commit_holds-total now shipment_id actor_id db h hs e v in
    (
      db',
      >>=-ok (lock_holds shipment_id) (commit_holds now actor_id shipment_id)
            (lock_holds-eq shipment_id db ∙ ap (λ (l : List InventoryReservation). ok (l, db)) e)
          ∙ run,
      left,
    )

pub commit-total :
    (now shipment_id : ℕ) (actor_id : Option ℕ) (db : Db)
    → IsValid db
    → CommitOutcome now actor_id shipment_id db (open_holds shipment_id db)
commit-total now shipment_id actor_id db v = go (open_holds shipment_id db) refl
  where
    go :
        (hs : List InventoryReservation)
        → open_holds shipment_id db ≡ hs
        → CommitOutcome now actor_id shipment_id db hs
    go [] e = commit_none now shipment_id actor_id db e
    go (h ∷ hs) e = commit_some now shipment_id actor_id db h hs e v
