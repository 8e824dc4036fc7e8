-- ===== src/Shipment/Service/Succeeds.antt =====
-- When a change of status goes through.
use smart_logistics.Base.{ℕ, ◌+◌, String, Option, some, [], ◌∷◌, ◌++◌, update_where}
use smart_logistics.Platform.Auth.{Principal}
use smart_logistics.Shipment.StateMachine.{ShipmentStatus}
use smart_logistics.Shipment.Models.{Db, Shipment}
use smart_logistics.Shipment.Repository.{is_version_of}
use smart_logistics.Shipment.Service.Requests.{trail_row}
use smart_logistics.Shipment.Service.Moves.{written}

-- The database after the trail and the row were written.
abbrev moved_db : ℕ → ShipmentStatus → Principal → Option String → Shipment → Db → Db
moved_db now target p reason read db = record db {
  history = db.history ++ trail_row db.next_id read.id (some read.status) target p reason ∷ [];
  shipments = update_where (is_version_of read) (λ s. written now target reason read) db.shipments;
  next_id = db.next_id + 1;
}

-- The database after a row of the trail was written.
abbrev trailed_db : ShipmentStatus → Principal → Option String → Shipment → Db → Db
trailed_db target p reason read db = record db {
  history = db.history ++ trail_row db.next_id read.id (some read.status) target p reason ∷ [];
  next_id = db.next_id + 1;
}
