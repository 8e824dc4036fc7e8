-- ===== src/Shipment/Saga/Compensated.antt =====
-- A create that fails, with both calls answered.
use mathlib.Core.Path.{subst}
use smart_logistics.Base.{ℕ, ◌≡◌, refl, sym, ap, Bool, [], arith}
use smart_logistics.Platform.Errors.{Error, Result, ok, err}
use smart_logistics.Platform.Session.{finish, transact}
use smart_logistics.Platform.Auth.{Principal}
use smart_logistics.Inventory.Schemas.{ReservationRequest, ReservationResult}
use smart_logistics.Inventory.Reserve.{reserve}
use smart_logistics.Inventory.Reservations.{release}
use smart_logistics.Inventory.Reservations.Lifecycle.{open_holds, release-total}
use smart_logistics.Inventory.Reservations.Retries.{none_open}
use smart_logistics.Inventory.Holds.{release_row}
use smart_logistics.Inventory.Accounts.Valid.{IsValid}
use smart_logistics.Inventory.System.{reserves, Step-IsValid}
use smart_logistics.Inventory.Models as Inv
use smart_logistics.Shipment.Models as Ship
use smart_logistics.Shipment.Models.{Shipment}
use smart_logistics.Shipment.Repository.{require_operational}
use smart_logistics.Shipment.Service.Requests.{ShipmentCreate}
use smart_logistics.Shipment.Service.Create.{create}
use smart_logistics.Shipment.Saga.{
  World, answered, reservation_request, reserve_answer, call_reserve, compensate, settle,
  create_called, create_shipment,
}

-- The stock of a shipment that was not recorded.
pub record Unheld (shipment_id : ℕ) (db : Inv.Db) : Type 0 where
  pub valid : IsValid db
  pub nothing : open_holds shipment_id db ≡ []

released-Unheld :
    (now shipment_id : ℕ) (db : Inv.Db)
    → IsValid db
    → Unheld shipment_id (transact (release now shipment_id "Shipment could not be recorded") db).1
unfolding transact
released-Unheld now shipment_id db v =
    let (db', run, left) = release-total now shipment_id "Shipment could not be recorded" db v in
    subst (λ (r : Result (ℕ × Inv.Db)). Unheld shipment_id (finish db r).1) (sym run)
      (record {
        valid = left.valid;
        nothing =
            none_open shipment_id (release_row "Shipment could not be recorded" now) db db'
              (λ h. ground arith) left.rows;
      })

-- What holds after the call of reserve.
module _ (shipment_id : ℕ) where
  abbrev Called : Result ReservationResult × Inv.Db → Type 0
  Called (ok r, db) = IsValid db
  Called (err e, db) = Unheld shipment_id db

  call-Called :
      (raised : Error → Error) (now hold : ℕ) (request : ReservationRequest) (db : Inv.Db)
      → Unheld shipment_id db
      → Called (call_reserve raised answered now hold request db)
  unfolding call_reserve reserve_answer transact
  call-Called raised now hold request db u = go (reserve now hold request db) refl
    where
      go :
          (m : Result ((ReservationResult × Bool) × Inv.Db))
          → reserve now hold request db ≡ m
          → Called (reserve_answer raised (finish db m).0, (finish db m).1)
      go (ok ((r, created), db')) run =
          Step-IsValid (reserves now hold request r created run) u.valid
      go (err e) run = u

  settle-Unheld :
      (now : ℕ) (answer : Result ReservationResult) (inv : Inv.Db) (ships : Ship.Db)
      (m : Result (Shipment × Ship.Db)) (e : Error) (w : World)
      → Called (answer, inv)
      → settle answered now shipment_id answer inv ships m ≡ (err e, w)
      → Unheld shipment_id w.inventory × (w.shipments ≡ ships)
  unfolding settle compensate
  settle-Unheld now answer inv ships (ok s) e w c run =
      absurd (cc (ap (λ (t : Result Shipment × World). t.0) run))
  settle-Unheld now (ok r) inv ships (err x) e w c run =
      let same = ap (λ (t : Result Shipment × World). t.1) run in
      (
        subst (λ (v : World). Unheld shipment_id v.inventory) same
            (released-Unheld now shipment_id inv c),
        ap (λ (v : World). v.shipments) (sym same),
      )
  settle-Unheld now (err y) inv ships (err x) e w c run =
      let same = ap (λ (t : Result Shipment × World). t.1) run in
      (
        subst (λ (v : World). Unheld shipment_id v.inventory) same c,
        ap (λ (v : World). v.shipments) (sym same),
      )

-- A create that fails leaves no stock held: from a valid database of Inventory in which the
-- shipment has no open hold, and with both calls answered, whatever it is that fails, the shipment
-- has no open hold after it, the accounts of stock are valid, and nothing is recorded.
pub create_shipment-Unheld :
    (raised : Error → Error) (now hold : ℕ) (barcodes : ℕ → ℕ) (payload : ShipmentCreate)
    (p : Principal) (shipment_id : ℕ) (e : Error) (w w' : World)
    → Unheld shipment_id w.inventory
    → create_shipment raised answered answered now hold barcodes payload p shipment_id w
      ≡ (err e, w')
    → Unheld shipment_id w'.inventory × (w'.shipments ≡ w.shipments)
unfolding create_shipment create_called
create_shipment-Unheld raised now hold barcodes payload p shipment_id e w w' u run =
    go (require_operational payload.origin_warehouse_id w.shipments) run
  where
    go :
        (m : Result (Inv.WarehouseRef × Ship.Db))
        → (elim m as (λ _. Result Shipment × World) [
          | err x ↦ (err x, w)
          | ok (ref, ships) ↦
              create_called raised answered answered now hold barcodes payload p shipment_id w
        ])
          ≡ (err e, w')
        → Unheld shipment_id w'.inventory × (w'.shipments ≡ w.shipments)
    go (err x) r =
        let same = ap (λ (t : Result Shipment × World). t.1) r in
        (
          subst (λ (v : World). Unheld shipment_id v.inventory) same u,
          ap (λ (v : World). v.shipments) (sym same),
        )
    go (ok (ref, ships)) r =
        let called =
          call_reserve raised answered now hold (reservation_request payload shipment_id)
            w.inventory in
        settle-Unheld shipment_id now called.0 called.1 w.shipments
          (create now called.0 barcodes payload p shipment_id w.shipments) e w'
          (call-Called shipment_id raised now hold (reservation_request payload shipment_id)
            w.inventory u)
          r
