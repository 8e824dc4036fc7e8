-- ===== src/Shipment/Trail/Created.antt =====
-- The trails after `create`.
use smart_logistics.Base.{
  contains-last, ℕ, ◌+◌, ◌≡◌, refl, sym, ap, ◌∙◌, true, false, Option, none, some, List, [], ◌∷◌,
  ◌++◌, arith, first_where, contains, distinct,
}
use smart_logistics.Platform.Errors.{Result, ok, err, ok-injective, key_error}
use smart_logistics.Platform.Session.{>>=-eq-ok, >>-eq-ok, lift, or_raise}
use smart_logistics.Platform.Auth.{Principal}
use smart_logistics.Inventory.Models.{WarehouseRef}
use smart_logistics.Inventory.Schemas.{ReservedLine, ReservationResult}
use smart_logistics.Shipment.StateMachine.{created}
use smart_logistics.Shipment.Models.{
  Db, Shipment, ShipmentStatusHistory, shipment_ids, flush, uuid4,
}
use smart_logistics.Shipment.Repository.{
  history_of, get_with_detail, next_reference_no, require_operational,
}
use smart_logistics.Shipment.Service.Requests.{
  PackageCreate, ShipmentCreate, emit, trail_row, record_status,
}
use smart_logistics.Shipment.Service.Create.{
  create, new_shipment, add_items, add_parcels, add_contents, emit_created,
}
use smart_logistics.Shipment.Service.Steps.{
  Keeps, Keeps-eq, flush-ok, Records, record_status-Records, is_live,
}
use smart_logistics.Shipment.Trail.Chain.{
  history_of-other, history_of-same, history_of-none, RefersTo-append, RefersTo-more, distinct-last,
}
use smart_logistics.Shipment.Trail.Rows.{added-Trails, added-ids}
use smart_logistics.Shipment.Trail.Kept.{IsTrailed}

require_operational-Keeps :
    (w : ℕ) (ref : WarehouseRef) (db db' : Db) → require_operational w db ≡ ok (ref, db') → db' ≡ db
unfolding require_operational
require_operational-Keeps w ref db db' run = ground arith

lift-Keeps : {A : Type 0} (r : Result A) (a : A) (db db' : Db) → lift r db ≡ ok (a, db') → db' ≡ db
lift-Keeps {A} (ok b) a db db' run = ap (λ (x : A × Db). x.1) (sym (ok-injective _ _ run))
lift-Keeps (err e) a db db' run = absurd (cc run)

add_items-Keeps :
    (shipment_id : ℕ) (lines : List ReservedLine) (db db' : Db)
    → add_items shipment_id lines db ≡ ok (tt, db')
    → Keeps db db'
unfolding add_items uuid4
add_items-Keeps shipment_id [] db db' run =
    Keeps-eq db db' (ap (λ (x : Unit {0} × Db). x.1) (sym (ok-injective _ _ run)))
add_items-Keeps shipment_id (line ∷ lines) db db' run =
    let rest = add_items-Keeps shipment_id lines _ db' run in
    record { rows = rest.rows; trail = rest.trail }

add_parcels-Keeps :
    (barcodes : ℕ → ℕ) (shipment_id index : ℕ) (parcels : List PackageCreate) (db db' : Db)
    → add_parcels barcodes shipment_id index parcels db ≡ ok (tt, db')
    → Keeps db db'
unfolding add_parcels uuid4
add_parcels-Keeps barcodes shipment_id index [] db db' run =
    Keeps-eq db db' (ap (λ (x : Unit {0} × Db). x.1) (sym (ok-injective _ _ run)))
add_parcels-Keeps barcodes shipment_id index (parcel ∷ parcels) db db' run =
    let rest = add_parcels-Keeps barcodes shipment_id (index + 1) parcels _ db' run in
    record { rows = rest.rows; trail = rest.trail }

add_contents-Records :
    (barcodes : ℕ → ℕ) (s : Shipment) (lines : List ReservedLine) (payload : ShipmentCreate)
    (p : Principal) (db db' : Db)
    → add_contents barcodes s lines payload p db ≡ ok (tt, db')
    → (row_id : ℕ) × Records (trail_row row_id s.id none created p none) db db'
      × (distinct (shipment_ids db'.shipments) ≡ true)
unfolding add_contents
add_contents-Records barcodes s lines payload p db db' run =
    let (_, s1, e1, r1) = >>-eq-ok (add_items s.id lines) _ run in
    let k1 = add_items-Keeps s.id lines db s1 e1 in
    let (_, s2, e2, r2) = >>-eq-ok (add_parcels barcodes s.id 1 payload.packages) _ r1 in
    let k2 = add_parcels-Keeps barcodes s.id 1 payload.packages s1 s2 e2 in
    let (_, s3, e3, r3) = >>-eq-ok (record_status s none created p none) _ r2 in
    let wrote = record_status-Records s none created p none s2 s3 e3 in
    let (k4, unique) = flush-ok s3 db' r3 in
    (
      s2.next_id,
      record {
        rows = ap (λ (d : Db). d.shipments) k4 ∙ wrote.rows ∙ k2.rows ∙ k1.rows;
        trail =
            ap (λ (d : Db). d.history) k4
            ∙ wrote.trail
            ∙ ap
                (λ (h : List ShipmentStatusHistory).
                  h ++ trail_row s2.next_id s.id none created p none ∷ [])
                (k2.trail ∙ k1.trail);
      },
      rw (ap (λ (d : Db). d.shipments) k4) unique,
    )

found_one :
    (o : Option Shipment) (s : Shipment) (db db' : Db)
    → or_raise o key_error db ≡ ok (s, db')
    → db' ≡ db
found_one none s db db' run = absurd (cc run)
found_one (some a) s db db' run = ap (λ (x : Shipment × Db). x.1) (sym (ok-injective _ _ run))

emit_created-Keeps :
    (shipment_id : ℕ) (result : Shipment) (db db' : Db)
    → emit_created shipment_id db ≡ ok (result, db')
    → Keeps db db'
unfolding emit_created get_with_detail emit uuid4
emit_created-Keeps shipment_id result db db' run =
    let (s, s1, e1, r1) =
      >>=-eq-ok (or_raise (first_where (is_live shipment_id) db.shipments) key_error) _ run in
    let k1 = found_one (first_where (is_live shipment_id) db.shipments) s db s1 e1 in
    let k2 = ap (λ (x : Shipment × Db). x.1) (sym (ok-injective _ _ r1)) in
    record {
      rows = ap (λ (d : Db). d.shipments) k2 ∙ ap (λ (d : Db). d.shipments) k1;
      trail = ap (λ (d : Db). d.history) k2 ∙ ap (λ (d : Db). d.history) k1;
    }

-- What `create` leaves: a shipment of that id at the end of the table, and the first row of its
-- trail.
pub record Creates (shipment_id : ℕ) (p : Principal) (before after : Db) : Type 0 where
  pub new : Shipment
  pub new_id : new.id ≡ shipment_id
  pub new_status : new.status ≡ created
  pub rows : after.shipments ≡ before.shipments ++ new ∷ []
  pub row_id : ℕ
  pub trail :
      after.history ≡ before.history ++ trail_row row_id shipment_id none created p none ∷ []
  pub unique : distinct (shipment_ids after.shipments) ≡ true

-- A create that returns added one shipment under the given id, in the status `created`, after the
-- others, and one row to the trail, of that id and from no status to `created`; the ids of the
-- shipments differ after it, so the given one was not taken.
pub create-Creates :
    (now : ℕ) (answer : Result ReservationResult) (barcodes : ℕ → ℕ) (payload : ShipmentCreate)
    (p : Principal) (shipment_id : ℕ) (result : Shipment) (db db' : Db)
    → create now answer barcodes payload p shipment_id db ≡ ok (result, db')
    → Creates shipment_id p db db'
unfolding create uuid4 next_reference_no
create-Creates now answer barcodes payload p shipment_id result db db' run =
    let (ref, s1, e1, r1) = >>=-eq-ok (require_operational payload.origin_warehouse_id) _ run in
    let k1 = require_operational-Keeps payload.origin_warehouse_id ref db s1 e1 in
    let (reservation, s2, e2, r2) = >>=-eq-ok (lift answer) _ r1 in
    let k2 = lift-Keeps answer reservation s1 s2 e2 in
    let (_, s3, e3, r3) = >>-eq-ok flush _ r2 in
    let (k3, _) = flush-ok _ s3 e3 in
    let (_, s4, e4, r4) = >>-eq-ok flush _ r3 in
    let (k4, _) = flush-ok _ s4 e4 in
    let new = new_shipment now shipment_id s3.next_reference s2.next_id ref reservation payload p in
    let (_, s5, e5, r5) = >>-eq-ok (add_contents barcodes new reservation.lines payload p) _ r4 in
    let (row_id, wrote, unique) =
      add_contents-Records barcodes new reservation.lines payload p s4 s5 e5 in
    let k6 = emit_created-Keeps shipment_id result s5 db' r5 in
    let same_rows : s3.shipments ≡ db.shipments =
      ap (λ (d : Db). d.shipments) k3 ∙ ap (λ (d : Db). d.shipments) (k2 ∙ k1) in
    let same_trail : s4.history ≡ db.history =
      ap (λ (d : Db). d.history) k4
      ∙ ap (λ (d : Db). d.history) k3
      ∙ ap (λ (d : Db). d.history) (k2 ∙ k1) in
    record {
      new = new;
      new_id = refl;
      new_status = refl;
      rows =
          k6.rows
          ∙ wrote.rows
          ∙ ap (λ (d : Db). d.shipments) k4
          ∙ ap (λ (l : List Shipment). l ++ new ∷ []) same_rows;
      row_id = row_id;
      trail =
          k6.trail
          ∙ wrote.trail
          ∙ ap
              (λ (h : List ShipmentStatusHistory).
                h ++ trail_row row_id shipment_id none created p none ∷ [])
              same_trail;
      unique = rw k6.rows unique;
    }

created-IsTrailed :
    (shipment_id : ℕ) (p : Principal) (db db' : Db)
    → Creates shipment_id p db db'
    → IsTrailed db
    → IsTrailed db'
created-IsTrailed shipment_id p db db' c t =
    let row = trail_row c.row_id c.new.id none created p none in
    let trail : db'.history ≡ db.history ++ row ∷ [] = rw c.new_id c.trail in
    let ids = added-ids c.new db.shipments in
    let fresh : contains (shipment_ids db.shipments) c.new.id ≡ false =
      distinct-last (shipment_ids db.shipments) c.new.id (rw (c.rows, ids) at c.unique) in
    let first : history_of c.new.id (db.history ++ row ∷ []) ≡ row ∷ [] =
      history_of-same db.history row
      ∙ ap (λ (h : List ShipmentStatusHistory). h ++ row ∷ [])
          (history_of-none (shipment_ids db.shipments) c.new.id db.history t.refers fresh) in
    record {
      trails =
          rw (c.rows, trail)
            (added-Trails c.new db.history (db.history ++ row ∷ []) db.shipments fresh
              (λ k e. history_of-other k db.history row e)
              (rw (first, c.new_status) (refl, refl, refl)) t.trails);
      refers =
          rw (c.rows, trail, ids)
            (RefersTo-append (shipment_ids db.shipments ++ c.new.id ∷ []) db.history row
              (RefersTo-more (shipment_ids db.shipments) c.new.id db.history t.refers)
              (contains-last (shipment_ids db.shipments) c.new.id));
      unique = c.unique;
    }

pub create-IsTrailed :
    (now : ℕ) (answer : Result ReservationResult) (barcodes : ℕ → ℕ) (payload : ShipmentCreate)
    (p : Principal) (shipment_id : ℕ) (result : Shipment) (db db' : Db)
    → create now answer barcodes payload p shipment_id db ≡ ok (result, db')
    → IsTrailed db
    → IsTrailed db'
create-IsTrailed now answer barcodes payload p shipment_id result db db' run t =
    created-IsTrailed shipment_id p db db'
      (create-Creates now answer barcodes payload p shipment_id result db db' run) t
