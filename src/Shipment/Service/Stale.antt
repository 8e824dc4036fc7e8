-- ===== src/Shipment/Service/Stale.antt =====
-- Two changes of status that read the same version of a shipment: the optimistic lock of
-- `version_id_col`.
use smart_logistics.Base.{
  ℕ, ◌+◌, ◌≡◌, refl, ◌∙◌, String, false, Option, some, List, [], ◌∷◌, arith, any, update_where,
  Bool-cases, inl, inr,
}
use smart_logistics.Platform.Errors.{ok, err, stale_data}
use smart_logistics.Platform.Session.{>>-ok, >>=-err}
use smart_logistics.Platform.Auth.{Principal}
use smart_logistics.Shipment.StateMachine.{ShipmentStatus}
use smart_logistics.Shipment.Models.{Db, Shipment, uuid4}
use smart_logistics.Shipment.Repository.{save, is_version_of}
use smart_logistics.Shipment.Service.Requests.{record_status}
use smart_logistics.Shipment.Service.Changes.{move, moved_row, assert_may_move}
use smart_logistics.Shipment.Service.Moves.{move-Moves}

no_version_left :
    (read new : Shipment) (rows : List Shipment)
    → any
        (is_version_of read)
        (update_where (is_version_of read) (λ s. record new { version = read.version + 1 }) rows)
      ≡ false
no_version_left read new [] = refl
no_version_left read new (s ∷ rows) = elim (Bool-cases (is_version_of read s)) [
  | inl match ↦ rw match (ground (arith, no_version_left read new rows))
  | inr other ↦ rw (other, other) (no_version_left read new rows)
]

save-stale :
    (read new : Shipment) (db : Db)
    → any (is_version_of read) db.shipments ≡ false
    → save read new db ≡ err stale_data
unfolding save
save-stale read new db e = rw e refl

-- The state that a new row of the trail leaves.
recorded_db :
    (s : Shipment) (previous : Option ShipmentStatus) (target : ShipmentStatus) (p : Principal)
    (reason : Option String) (db : Db)
    → (db' : Db) × (record_status s previous target p reason db ≡ ok (tt, db'))
      × (db'.shipments ≡ db.shipments)
unfolding record_status uuid4
recorded_db s previous target p reason db = (_, refl, refl)

-- No update is lost: once a change of status has been written, another one that read the same
-- version of the shipment, whatever it asks for, fails with StaleDataError if its guards let it
-- through.
pub lost_update-refused :
    (now now' : ℕ) (read : Shipment) (target target' : ShipmentStatus) (p p' : Principal)
    (reason reason' : Option String) (expected expected' : Option ℕ) (result : Shipment)
    (db db' : Db)
    → move now read target p reason expected db ≡ ok (result, db')
    → assert_may_move read target' p' expected' db' ≡ ok (tt, db')
    → move now' read target' p' reason' expected' db' ≡ err stale_data
unfolding move
lost_update-refused now now' read target target' p p' reason reason' expected expected' result db
      db' run may =
    let moves = move-Moves now read target p reason expected result db db' run in
    let gone : any (is_version_of read) db'.shipments ≡ false =
      rw moves.rows (no_version_left read (moved_row now target reason read) db.shipments) in
    let (s, recorded, same) = recorded_db read (some read.status) target' p' reason' db' in
    >>-ok (assert_may_move read target' p' expected') _ may
    ∙ >>-ok (record_status read (some read.status) target' p' reason') _ recorded
    ∙ >>=-err (save read (moved_row now' target' reason' read)) _
        (save-stale read (moved_row now' target' reason' read) s (rw same gone))
