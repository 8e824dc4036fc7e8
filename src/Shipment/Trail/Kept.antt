-- ===== src/Shipment/Trail/Kept.antt =====
-- The trails of all shipments as a property of the database, and `change_status`.
use smart_logistics.Base.{
  ℕ, ◌≡◌, refl, String, true, Option, none, some, [], ◌∷◌, ◌++◌, arith, update_where, distinct,
}
use smart_logistics.Platform.Errors.{ok}
use smart_logistics.Platform.Auth.{Principal}
use smart_logistics.Shipment.StateMachine.{ShipmentStatus}
use smart_logistics.Shipment.Models.{Db, Shipment, shipment_ids}
use smart_logistics.Shipment.Repository.{history_of, is_version_of}
use smart_logistics.Shipment.Service.Requests.{trail_row}
use smart_logistics.Shipment.Service.Changes.{change_status, moved_row}
use smart_logistics.Shipment.Service.Steps.{Keeps, Reads}
use smart_logistics.Shipment.Service.Moves.{change_status-Moves, written}
use smart_logistics.Shipment.Trail.Chain.{
  Follows, Follows-append, history_of-other, history_of-same, RefersTo, RefersTo-append,
}
use smart_logistics.Shipment.Trail.Rows.{
  Trails, found-OnlyRow, found-Trails, found-contains, written-Trails, written-ids,
}

-- Each shipment's history leads by legal transitions to its status; every row of the trail is of a
-- shipment; and no two shipments share an id.
pub record IsTrailed (db : Db) : Type 0 where
  pub trails : Trails db.history db.shipments
  pub refers : RefersTo (shipment_ids db.shipments) db.history
  pub unique : distinct (shipment_ids db.shipments) ≡ true

-- What keeps both tables keeps the trails.
pub Keeps-IsTrailed : (a b : Db) → Keeps a b → IsTrailed a → IsTrailed b
Keeps-IsTrailed a b k t = record {
  trails = rw (k.rows, k.trail) t.trails;
  refers = rw (k.rows, k.trail) t.refers;
  unique = rw k.rows t.unique;
}

module _ (now : ℕ) (reason : Option String) (s : Shipment) where
  moved_row-id : (target : ShipmentStatus) → (moved_row now target reason s).id ≡ s.id
  unfolding moved_row
  moved_row-id target = ground arith

  moved_row-status : (target : ShipmentStatus) → (moved_row now target reason s).status ≡ target
  unfolding moved_row
  moved_row-status target = ground arith

-- The trail of the row that was read.
read_trail :
    (shipment_id : ℕ) (read : Shipment) (p : Principal) (db : Db)
    → Reads shipment_id p read db
    → IsTrailed db
    → Follows none (history_of read.id db.history) (some read.status)
read_trail shipment_id read p db r t =
    found-Trails shipment_id read db.history db.shipments r.found t.trails

pub change_status-IsTrailed :
    (now shipment_id : ℕ) (target : ShipmentStatus) (p : Principal) (reason : Option String)
    (expected : Option ℕ) (result : Shipment) (db db' : Db)
    → change_status now shipment_id target p reason expected db ≡ ok (result, db')
    → IsTrailed db
    → IsTrailed db'
change_status-IsTrailed now shipment_id target p reason expected result db db' run t =
    let (read, found, m) =
      change_status-Moves now shipment_id target p reason expected result db db' run in
    let row = trail_row m.row_id read.id (some read.status) target p reason in
    let new = written now target reason read in
    let new_id : new.id ≡ read.id = moved_row-id now reason read target in
    let ids : shipment_ids (update_where (is_version_of read) (λ s. new) db.shipments)
        ≡ shipment_ids db.shipments =
      written-ids read new db.shipments new_id in
    let chain : Follows none (history_of read.id (db.history ++ row ∷ [])) (some new.status) =
      rw (history_of-same db.history row, moved_row-status now reason read target)
        (Follows-append none (some read.status) (history_of read.id db.history) row
          (read_trail shipment_id read p db found t) refl m.legal) in
    record {
      trails =
          rw (m.rows, m.trail)
            (written-Trails read new db.history (db.history ++ row ∷ []) db.shipments new_id
              (λ k e. history_of-other k db.history row e) chain
              (found-OnlyRow shipment_id read db.shipments t.unique found.found) t.trails);
      refers =
          rw (m.rows, m.trail, ids)
            (RefersTo-append (shipment_ids db.shipments) db.history row t.refers
              (found-contains shipment_id read db.shipments found.found));
      unique = m.unique;
    }
