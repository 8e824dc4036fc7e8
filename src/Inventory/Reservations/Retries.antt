-- ===== src/Inventory/Reservations/Retries.antt =====
-- A release or commit that is called again, `release` and `commit` of services/reservations.py.
use smart_logistics.Base.{
  ℕ, ◌≡◌, refl, sym, ap, ◌∙◌, ◌≢◌, String, Bool, true, Option, List, [], ◌∷◌, arith, any,
  rows_where, update_where, ◌==◌, ◌&&◌, Bool-cases, inl, inr,
}
use smart_logistics.Platform.Errors.{ok, ok-injective}
use smart_logistics.Platform.Session.{>>=-ok}
use smart_logistics.Inventory.Models.{Db, InventoryReservation, committed, is_status}
use smart_logistics.Inventory.Holds.{release_row, commit_row, is_held_for}
use smart_logistics.Inventory.Accounts.Valid.{IsValid}
use smart_logistics.Inventory.Accounts.Updates.{rows_where-update}
use smart_logistics.Inventory.Reservations.{lock_holds, release, release_holds, commit}
use smart_logistics.Inventory.Reservations.Selects.{lock_holds-eq}
use smart_logistics.Inventory.Reservations.Lifecycle.{
  open_holds, Commits, release-total, commit-total, CommitOutcome, commit_none,
}

-- With no open hold there is nothing to release.
release_none :
    (now shipment_id : ℕ) (reason : String) (db : Db)
    → open_holds shipment_id db ≡ []
    → release now shipment_id reason db ≡ ok (0, db)
unfolding release release_holds
release_none now shipment_id reason db e =
    >>=-ok (lock_holds shipment_id) (release_holds now reason shipment_id)
      (lock_holds-eq shipment_id db ∙ ap (λ (l : List InventoryReservation). ok (l, db)) e)

pub none_open :
    (shipment_id : ℕ) (f : InventoryReservation → InventoryReservation) (before after : Db)
    → ((h : InventoryReservation) → is_held_for shipment_id (f h) ≡ Bool.false)
    → after.reservations ≡ update_where (is_held_for shipment_id) f before.reservations
    → open_holds shipment_id after ≡ []
none_open shipment_id f before after out e =
    rw e (rows_where-update (is_held_for shipment_id) f out before.reservations)

-- Releasing twice releases once: on a valid database, after a release that returned, a release of
-- the same shipment at any later time and for any reason returns 0 and changes nothing.
pub release_twice :
    (now later shipment_id n : ℕ) (reason reason' : String) (db db' : Db)
    → IsValid db
    → release now shipment_id reason db ≡ ok (n, db')
    → release later shipment_id reason' db' ≡ ok (0, db')
release_twice now later shipment_id n reason reason' db db' v run =
    let (done, run', left) = release-total now shipment_id reason db v in
    let same : db' ≡ done = ap (λ (p : ℕ × Db). p.1) (ok-injective _ _ (sym run ∙ run')) in
    release_none later shipment_id reason' db' (
      rw same
        (none_open shipment_id (release_row reason now) db done (λ h. ground arith) left.rows))

-- The committed holds of a shipment with an open hold.
committed_after :
    (now shipment_id : ℕ) (hs : List InventoryReservation) (h : InventoryReservation)
    (rest : List InventoryReservation)
    → rows_where (is_held_for shipment_id) hs ≡ h ∷ rest
    → any
        (λ r. r.shipment_id == shipment_id && is_status r.status committed)
        (update_where (is_held_for shipment_id) (commit_row now) hs)
      ≡ true
committed_after now shipment_id [] h rest e = cc
committed_after now shipment_id (k ∷ hs) h rest e = elim (Bool-cases (is_held_for shipment_id k)) [
  | inl is_open ↦ rw is_open (ground arith)
  | inr closed ↦
      rw closed (ground (arith, committed_after now shipment_id hs h rest (rw closed at e)))
]

-- Committing twice commits once: on a valid database with an open hold for the shipment, after a
-- commit that returned, a commit of the same shipment, at any time and by anybody, returns 0 and
-- changes nothing.
pub commit_twice :
    (now later shipment_id n : ℕ) (actor actor' : Option ℕ) (db db' : Db)
    → IsValid db
    → open_holds shipment_id db ≢ []
    → commit now actor shipment_id db ≡ ok (n, db')
    → commit later actor' shipment_id db' ≡ ok (0, db')
commit_twice now later shipment_id n actor actor' db db' v some_open run =
    go (open_holds shipment_id db) refl (commit-total now shipment_id actor db v)
  where
    again :
        (done : Db) (h : InventoryReservation) (rest : List InventoryReservation)
        → open_holds shipment_id db ≡ h ∷ rest
        → Commits now shipment_id db done
        → commit later actor' shipment_id done ≡ ok (0, done)
    again done h rest e left =
        commit_none later shipment_id actor' done
          (none_open shipment_id (commit_row now) db done (λ k. ground arith) left.rows)
        ∙ rw (left.rows, committed_after now shipment_id db.reservations h rest e) refl

    go :
        (hs : List InventoryReservation)
        → open_holds shipment_id db ≡ hs
        → CommitOutcome now actor shipment_id db hs
        → commit later actor' shipment_id db' ≡ ok (0, db')
    go [] e out = absurd (some_open e)
    go (h ∷ hs) e (done, run', left) =
        let same : db' ≡ done = ap (λ (p : ℕ × Db). p.1) (ok-injective _ _ (sym run ∙ run')) in
        rw same (again done h hs e left)
