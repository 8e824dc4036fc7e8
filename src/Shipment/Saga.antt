-- ===== src/Shipment/Saga.antt =====
-- services/shipment/src/shipment/api/shipments.py (`create_shipment` for a request without a key),
-- with clients.py, `compensate` and the route of Inventory: a create takes stock from the Inventory
-- service, and calls it again when the shipment cannot be recorded. Each service commits in its own
-- database.
pub mod Compensated
pub mod Tests
use smart_logistics.Base.{ℕ, Bool, true, false, List, [], ◌∷◌, map}
use smart_logistics.Platform.Errors.{Error, Result, ok, err, upstream_unavailable, is_ok}
use smart_logistics.Platform.Session.{finish, transact}
use smart_logistics.Platform.Auth.{Principal}
use smart_logistics.Inventory.Schemas.{ReservationRequest, ReservationResult}
use smart_logistics.Inventory.Reserve.{reserve}
use smart_logistics.Inventory.Reservations.{release}
use smart_logistics.Shipment.Models.{Shipment}
use smart_logistics.Shipment.Repository.{require_operational}
use smart_logistics.Shipment.Service.Requests.{ShipmentCreate}
use smart_logistics.Shipment.Service.Create.{create}
use smart_logistics.Inventory.Models as Inv
use smart_logistics.Shipment.Models as Ship

-- The two databases.
pub record World : Type 0 where
  pub inventory : Inv.Db
  pub shipments : Ship.Db

-- What becomes of a call: it is answered, the answer is lost after the call was run, or the call is
-- never run. The retries of the client are safe, since a repeated reserve is a replay.
pub data Delivery : Type 0 where
  answered unanswered lost : Delivery

-- InventoryClient.reserve: the request that it sends
abbrev pub reservation_request : ShipmentCreate → ℕ → ReservationRequest
reservation_request payload shipment_id = record {
  shipment_id = shipment_id;
  warehouse_id = payload.origin_warehouse_id;
  lines = map (λ i. record { sku_id = i.sku_id; quantity = i.quantity }) payload.items;
}

-- `raised` is what the HTTP client raises for an answer that is an error.
module _ (raised : Error → Error) where
  unfoldable pub reserve_answer : Result (ReservationResult × Bool) → Result ReservationResult
  reserve_answer (ok (r, created)) = ok r
  reserve_answer (err e) = err (raised e)

  -- The call of `reserve`, which the endpoint of Inventory commits.
  unfoldable pub call_reserve :
      Delivery → ℕ → ℕ → ReservationRequest → Inv.Db → Result ReservationResult × Inv.Db
  unfolding reserve_answer
  call_reserve answered now hold request db =
      let (answer, db') = transact (reserve now hold request) db in (reserve_answer answer, db')
  call_reserve unanswered now hold request db =
      (err upstream_unavailable, (transact (reserve now hold request) db).1)
  call_reserve lost now hold request db = (err upstream_unavailable, db)

-- `compensate` after a create that failed: `_held_for` is set once the reservation was answered, and
-- a release that fails is only logged.
unfoldable pub compensate : Delivery → ℕ → ℕ → Result ReservationResult → Inv.Db → Inv.Db
compensate delivery now shipment_id (err e) db = db
compensate lost now shipment_id (ok r) db = db
compensate _ now shipment_id (ok r) db =
    (transact (release now shipment_id "Shipment could not be recorded") db).1

-- The answer to `create`, with the compensation.
unfoldable pub settle :
    Delivery
    → ℕ
    → ℕ
    → Result ReservationResult
    → Inv.Db
    → Ship.Db
    → Result (Shipment × Ship.Db)
    → Result Shipment × World
unfolding compensate
settle delivery now shipment_id answer inv ships (ok (s, ships')) =
    (ok s, record { inventory = inv; shipments = ships' })
settle delivery now shipment_id answer inv ships (err e) = (
  err e,
  record { inventory = compensate delivery now shipment_id answer inv; shipments = ships },
)

module _ (raised : Error → Error) where
  -- The rest of the create, once the warehouse is known to be operational.
  unfoldable pub create_called :
      Delivery
      → Delivery
      → ℕ
      → ℕ
      → (ℕ → ℕ)
      → ShipmentCreate
      → Principal
      → ℕ
      → World
      → Result Shipment × World
  unfolding settle call_reserve
  create_called there back now hold barcodes payload p shipment_id w =
      let (answer, inv) =
        call_reserve raised there now hold (reservation_request payload shipment_id) w.inventory in
      settle back now shipment_id answer inv w.shipments
        (create now answer barcodes payload p shipment_id w.shipments)

  -- `create_shipment`; `there` and `back` are what becomes of the calls of reserve and release.
  unfoldable pub create_shipment :
      Delivery
      → Delivery
      → ℕ
      → ℕ
      → (ℕ → ℕ)
      → ShipmentCreate
      → Principal
      → ℕ
      → World
      → Result Shipment × World
  unfolding create_called
  create_shipment there back now hold barcodes payload p shipment_id w =
      elim (require_operational payload.origin_warehouse_id w.shipments) [
        | err e ↦ (err e, w)
        | ok (ref, ships) ↦ create_called there back now hold barcodes payload p shipment_id w
      ]
