-- ===== src/Shipment/Trail/System.antt =====
-- The Shipment service as a transition system: each step is one committed transaction of
-- services/shipment/src/shipment/api or of its consumer in events.py, by anybody and at any time. A
-- transaction that raises is rolled back and is no step.
use smart_logistics.Base.{
  ℕ, ◌≡◌, ◌≢◌, sym, ap, String, true, Option, none, some, List, [], ◌∷◌, any, first_where,
  Bool-cases, inl, inr,
}
use mathlib.Core.Path.{subst}
use smart_logistics.Platform.Errors.{Result, ok, ok-injective}
use smart_logistics.Platform.Auth.{Principal}
use smart_logistics.Inventory.Models.{WarehouseRef}
use smart_logistics.Inventory.Schemas.{ReservationResult}
use smart_logistics.Shipment.StateMachine.{ShipmentStatus, cancelled}
use smart_logistics.Shipment.StateMachine.Paths.{
  StatusPath, stays, moves, has_left, no_cancel_after_dispatch,
}
use smart_logistics.Shipment.Models.{Db, Shipment, Package, ShipmentStatusHistory}
use smart_logistics.Shipment.Repository.{history_of, upsert_warehouse}
use smart_logistics.Shipment.Service.Requests.{
  PackageCreate, PackageUpdate, ShipmentCreate, ShipmentUpdate,
}
use smart_logistics.Shipment.Service.Create.{create}
use smart_logistics.Shipment.Service.Changes.{change_status, update, add_package, update_package}
use smart_logistics.Shipment.Service.Steps.{Keeps, is_live}
use smart_logistics.Shipment.Trail.Chain.{Follows}
use smart_logistics.Shipment.Trail.Rows.{found-Trails}
use smart_logistics.Shipment.Trail.Kept.{IsTrailed, Keeps-IsTrailed, change_status-IsTrailed}
use smart_logistics.Shipment.Trail.Edited.{
  update-IsTrailed, add_package-Keeps, update_package-Keeps,
}
use smart_logistics.Shipment.Trail.Created.{create-IsTrailed}

pub data Step (db db' : Db) : Type 0 where
  creates :
      (now : ℕ) (answer : Result ReservationResult) (barcodes : ℕ → ℕ) (payload : ShipmentCreate)
      (p : Principal) (shipment_id : ℕ) (s : Shipment)
      → create now answer barcodes payload p shipment_id db ≡ ok (s, db')
      → Step db db'
  changes :
      (now shipment_id : ℕ) (target : ShipmentStatus) (p : Principal) (reason : Option String)
      (expected : Option ℕ) (s : Shipment)
      → change_status now shipment_id target p reason expected db ≡ ok (s, db')
      → Step db db'
  edits :
      (shipment_id : ℕ) (payload : ShipmentUpdate) (p : Principal) (s : Shipment)
      → update shipment_id payload p db ≡ ok (s, db')
      → Step db db'
  packs :
      (barcode shipment_id : ℕ) (payload : PackageCreate) (p : Principal) (parcel : Package)
      → add_package barcode shipment_id payload p db ≡ ok (parcel, db')
      → Step db db'
  repacks :
      (now package_id : ℕ) (payload : PackageUpdate) (p : Principal) (parcel : Package)
      → update_package now package_id payload p db ≡ ok (parcel, db')
      → Step db db'
  learns : (snapshot : WarehouseRef) → upsert_warehouse snapshot db ≡ ok (tt, db') → Step db db'

pub data Reach (start : Db) : Db → Type 0 where
  here : Reach start start
  next : {db db' : Db} → Reach start db → Step db db' → Reach start db'

upsert-Keeps :
    (snapshot : WarehouseRef) (db db' : Db)
    → upsert_warehouse snapshot db ≡ ok (tt, db')
    → Keeps db db'
unfolding upsert_warehouse
upsert-Keeps snapshot db db' run =
    let e = ap (λ (x : Unit {0} × Db). x.1) (sym (ok-injective _ _ run)) in
    record { rows = ap (λ (d : Db). d.shipments) e; trail = ap (λ (d : Db). d.history) e }

pub Step-IsTrailed : {db db' : Db} → Step db db' → IsTrailed db → IsTrailed db'
Step-IsTrailed {db} {db'} (creates now answer barcodes payload p shipment_id s e) t =
    create-IsTrailed now answer barcodes payload p shipment_id s db db' e t
Step-IsTrailed {db} {db'} (changes now shipment_id target p reason expected s e) t =
    change_status-IsTrailed now shipment_id target p reason expected s db db' e t
Step-IsTrailed {db} {db'} (edits shipment_id payload p s e) t =
    update-IsTrailed shipment_id payload p s db db' e t
Step-IsTrailed {db} {db'} (packs barcode shipment_id payload p parcel e) t =
    Keeps-IsTrailed db db' (add_package-Keeps barcode shipment_id payload p parcel db db' e) t
Step-IsTrailed {db} {db'} (repacks now package_id payload p parcel e) t =
    Keeps-IsTrailed db db' (update_package-Keeps now package_id payload p parcel db db' e) t
Step-IsTrailed {db} {db'} (learns snapshot e) t =
    Keeps-IsTrailed db db' (upsert-Keeps snapshot db db' e) t

-- Whatever transactions the service has committed, from a database with this property on and in
-- whatever order: the history of each shipment starts with its creation, goes on by transitions of
-- the state machine, each from the status where the last one ended, and ends in the status of the
-- shipment; every row of it is of a shipment; and shipments have different ids.
pub Reach-IsTrailed : {start db : Db} → Reach start db → IsTrailed start → IsTrailed db
Reach-IsTrailed here t = t
Reach-IsTrailed (next r st) t = Step-IsTrailed st (Reach-IsTrailed r t)

-- A history that has left the warehouse ends outside it.
Follows-StatusPath :
    (s t : ShipmentStatus) (rows : List ShipmentStatusHistory)
    → Follows (some s) rows (some t)
    → StatusPath s t
Follows-StatusPath s t [] e =
    subst (StatusPath s) (ap (λ (o : Option ShipmentStatus). elim o [ none ↦ s | some x ↦ x ]) e)
      stays
Follows-StatusPath s t (h ∷ rows) (e, step, rest) =
    moves step (Follows-StatusPath h.to_status t rows rest)

left_stays :
    (from : Option ShipmentStatus) (t : ShipmentStatus) (rows : List ShipmentStatusHistory)
    → Follows from rows (some t)
    → any (λ h. has_left h.to_status) rows ≡ true
    → t ≢ cancelled
left_stays from t [] f a = absurd (cc a)
left_stays from t (h ∷ rows) (e, step, rest) a = elim (Bool-cases (has_left h.to_status)) [
  | inl out ↦ (no_cancel_after_dispatch (Follows-StatusPath h.to_status t rows rest) out).1
  | inr inside ↦ left_stays (some h.to_status) t rows rest (rw inside at a)
]

-- In every database that the service reaches, a shipment whose history shows that it left the
-- warehouse is not cancelled.
pub left_warehouse-not_cancelled :
    {start db : Db} (shipment_id : ℕ) (s : Shipment)
    → Reach start db
    → IsTrailed start
    → first_where (is_live shipment_id) db.shipments ≡ some s
    → any (λ h. has_left h.to_status) (history_of s.id db.history) ≡ true
    → s.status ≢ cancelled
left_warehouse-not_cancelled {start} {db} shipment_id s r t found left =
    left_stays none s.status (history_of s.id db.history)
      (found-Trails shipment_id s db.history db.shipments found (Reach-IsTrailed r t).trails) left
