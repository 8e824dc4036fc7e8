-- ===== src/Inventory/System.antt =====
-- The Inventory service as a transition system: each step is one committed transaction of
-- services/inventory/src/inventory/api and of its consumers in events.py. A transaction that
-- raises is rolled back and is no step. Transactions that work on the same rows run one after the
-- other, since each locks them; a step may be taken at any time and by anybody.
use smart_logistics.Base.{
  ℕ, ◌≡◌, Bool-cases, inl, inr, sym, ap, ◌∙◌, String, Bool, Option, List, [], ◌∷◌,
}
use smart_logistics.Platform.Errors.{Result, ok, ok-injective}
use smart_logistics.Platform.Auth.{Principal}
use smart_logistics.Inventory.Models.{
  Db, InventoryItem, InventoryReservation, WarehouseRef, unique_constraints,
}
use smart_logistics.Inventory.Schemas.{ReservationRequest, ReservationResult}
use smart_logistics.Inventory.Replicas.{upsert_warehouse}
use smart_logistics.Inventory.Reservations.{confirm, commit, release, release_expired}
use smart_logistics.Inventory.Reservations.Lifecycle.{
  open_holds, release-total, commit-total, CommitOutcome, has_committed,
}
use smart_logistics.Inventory.Reservations.Confirm.{confirm-total}
use smart_logistics.Inventory.Reservations.Expiry.{release_expired-total}
use smart_logistics.Inventory.Reserve.{reserve}
use smart_logistics.Inventory.Reserve.Made.{reserve-outcome, ReserveOutcome, holds_of}
use smart_logistics.Inventory.Accounts.Valid.{IsValid}
use smart_logistics.Inventory.Stock.{StockAdjustment, InventoryItemCreate, adjust, open_position}
use smart_logistics.Inventory.Stock.Adjusting.{adjust-Adjusts}
use smart_logistics.Inventory.Stock.Opening.{open_position-Opens}

pub data Step (db db' : Db) : Type 0 where
  reserves :
      (now unconfirmed_hold : ℕ) (request : ReservationRequest) (r : ReservationResult)
      (created : Bool)
      → reserve now unconfirmed_hold request db ≡ ok ((r, created), db')
      → Step db db'
  confirms : (now shipment_id n : ℕ) → confirm now shipment_id db ≡ ok (n, db') → Step db db'
  commits :
      (now shipment_id n : ℕ) (actor : Option ℕ)
      → commit now actor shipment_id db ≡ ok (n, db')
      → Step db db'
  releases :
      (now shipment_id n : ℕ) (reason : String)
      → release now shipment_id reason db ≡ ok (n, db')
      → Step db db'
  sweeps :
      (now n : ℕ) (scope : Option (List ℕ))
      → release_expired now scope db ≡ ok (n, db')
      → Step db db'
  opens :
      (payload : InventoryItemCreate) (principal : Principal) (item : InventoryItem)
      → open_position payload principal db ≡ ok (item, db')
      → Step db db'
  adjusts :
      (item_id : ℕ) (payload : StockAdjustment) (principal : Principal) (item : InventoryItem)
      → adjust item_id payload principal db ≡ ok (item, db')
      → Step db db'
  learns : (snapshot : WarehouseRef) → upsert_warehouse snapshot db ≡ ok (tt, db') → Step db db'

pub data Reach (start : Db) : Db → Type 0 where
  here : Reach start start
  next : {db db' : Db} → Reach start db → Step db db' → Reach start db'

-- The state of a call that is known to return.
returned :
    {A : Type 0} (P : Db → Type 0) (a b : A) (m : Result (A × Db)) (db' db'' : Db)
    → m ≡ ok (a, db')
    → m ≡ ok (b, db'')
    → P db''
    → P db'
returned {A} P a b m db' db'' e e' p =
    rw (ap (λ (t : A × Db). t.1) (ok-injective _ _ (sym e ∙ e'))) p

reserve-IsValid :
    (now unconfirmed_hold : ℕ) (request : ReservationRequest) (created : Bool) (db db' : Db)
    → IsValid db
    → (hs : List InventoryReservation)
    → ReserveOutcome now unconfirmed_hold request db created db' hs
    → IsValid db'
reserve-IsValid now unconfirmed_hold request created db db' v [] out = out.1.valid
reserve-IsValid now unconfirmed_hold request created db db' v (h ∷ hs) out = rw out.1 v

commit-IsValid :
    (now shipment_id n : ℕ) (actor : Option ℕ) (db db' : Db)
    → IsValid db
    → commit now actor shipment_id db ≡ ok (n, db')
    → (hs : List InventoryReservation) → CommitOutcome now actor shipment_id db hs
    → IsValid db'
commit-IsValid now shipment_id n actor db db' v run [] out =
    elim (Bool-cases (has_committed shipment_id db)) [
      | inl done ↦ returned IsValid n 0 _ db' db run (rw done at out) v
      | inr no_hold ↦ absurd (cc (sym run ∙ (rw no_hold at out)))
    ]
commit-IsValid now shipment_id n actor db db' v run (h ∷ hs) (done, run', left) =
    returned IsValid n _ _ db' done run run' left.valid

upsert-IsValid :
    (snapshot : WarehouseRef) (db db' : Db)
    → upsert_warehouse snapshot db ≡ ok (tt, db')
    → IsValid db
    → IsValid db'
unfolding upsert_warehouse unique_constraints
upsert-IsValid snapshot db db' run v =
    rw (ap (λ (t : Unit {0} × Db). t.1) (sym (ok-injective _ _ run))) (record {
      positions = v.positions;
      references = v.references;
      entries = v.entries;
      fresh = v.fresh;
      holds = v.holds;
      ledger = v.ledger;
      unique = v.unique;
    })

-- Every committed transaction of the service keeps the accounts and the constraints.
pub Step-IsValid : {db db' : Db} → Step db db' → IsValid db → IsValid db'
Step-IsValid {db} {db'} (reserves now hold request r created e) v =
    reserve-IsValid now hold request created db db' v (holds_of request.shipment_id db)
      (reserve-outcome now hold request r created db db' v e)
Step-IsValid {db} {db'} (confirms now s n e) v =
    let (run, valid) = confirm-total now s db v in returned IsValid n _ _ db' _ e run valid
Step-IsValid {db} {db'} (commits now s n actor e) v =
    commit-IsValid now s n actor db db' v e (open_holds s db) (commit-total now s actor db v)
Step-IsValid {db} {db'} (releases now s n reason e) v =
    let (done, run, left) = release-total now s reason db v in
    returned IsValid n _ _ db' done e run left.valid
Step-IsValid {db} {db'} (sweeps now n scope e) v =
    let (done, run, left) = release_expired-total now scope db v in
    returned IsValid n _ _ db' done e run left.valid
Step-IsValid {db} {db'} (opens payload principal item e) v =
    (open_position-Opens payload principal item db db' v e).valid
Step-IsValid {db} {db'} (adjusts item_id payload principal item e) v =
    let (found, at, left) = adjust-Adjusts item_id payload principal item db db' v e in left.valid
Step-IsValid {db} {db'} (learns snapshot e) v = upsert-IsValid snapshot db db' e v

-- Whatever transactions the service has committed, from a valid database on, and in
-- whatever order: every position has reserved exactly what its open holds take, has on hand what
-- its ledger adds up to, and has no more reserved than on hand.
pub Reach-IsValid : {start db : Db} → Reach start db → IsValid start → IsValid db
Reach-IsValid here v = v
Reach-IsValid (next r st) v = Step-IsValid st (Reach-IsValid r v)
