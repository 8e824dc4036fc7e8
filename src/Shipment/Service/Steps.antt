-- ===== src/Shipment/Service/Steps.antt =====
-- What the shared steps of ShipmentService leave, where they return.
use smart_logistics.Base.{
  not-false, ℕ, ◌+◌, ◌≡◌, refl, sym, ap, ◌∙◌, String, Bool, true, not, ◌&&◌, Option, none, some, [],
  ◌∷◌, ◌++◌, arith, ◌==◌, is_none, first_where, update_where, any, distinct, Bool-cases, inl, inr,
}
use smart_logistics.Platform.Errors.{ok, ok-injective, not_found}
use smart_logistics.Platform.Session.{>>=-eq-ok, raise_if-ok, or_raise}
use smart_logistics.Platform.Auth.{Principal}
use smart_logistics.Shipment.StateMachine.{ShipmentStatus}
use smart_logistics.Shipment.Models.{
  Db, Shipment, ShipmentStatusHistory, ShipmentPayload, shipment_ids, flush, check_constraints,
  unique_constraints, uuid4,
}
use smart_logistics.Shipment.Repository.{get_with_detail, save, is_version_of}
use smart_logistics.Shipment.Service.Requests.{get, visible, record_status, emit, trail_row}

-- Neither the shipments nor the trail changed.
pub record Keeps (before after : Db) : Type 0 where
  pub rows : after.shipments ≡ before.shipments
  pub trail : after.history ≡ before.history

pub Keeps-refl : (db : Db) → Keeps db db
Keeps-refl db = record { rows = refl; trail = refl }

pub Keeps-trans : (a b c : Db) → Keeps a b → Keeps b c → Keeps a c
Keeps-trans a b c p q = record { rows = q.rows ∙ p.rows; trail = q.trail ∙ p.trail }

pub Keeps-eq : (a b : Db) → b ≡ a → Keeps a b
Keeps-eq a b e = record {
  rows = ap (λ (d : Db). d.shipments) e;
  trail = ap (λ (d : Db). d.history) e;
}

abbrev pub is_live : ℕ → Shipment → Bool
is_live shipment_id s = s.id == shipment_id && is_none s.deleted_at

-- A read that returned a shipment.
pub record Reads (shipment_id : ℕ) (p : Principal) (s : Shipment) (db : Db) : Type 0 where
  pub found : first_where (is_live shipment_id) db.shipments ≡ some s
  pub seen : visible s p ≡ true

pub or_raise-ok :
    {A : Type 0} (o : Option A) (a : A) (db db' : Db)
    → or_raise o not_found db ≡ ok (a, db')
    → (o ≡ some a) × (db' ≡ db)
or_raise-ok none a db db' run = absurd (cc run)
or_raise-ok (some b) a db db' run =
    let e = ok-injective _ _ run in
    (ap (λ (t : _ × Db). some t.0) e, ap (λ (t : _ × Db). t.1) (sym e))

get_with_detail-eq :
    (shipment_id : ℕ) (db : Db)
    → get_with_detail shipment_id db ≡ ok (first_where (is_live shipment_id) db.shipments, db)
unfolding get_with_detail
get_with_detail-eq shipment_id db = refl

pub get-Reads :
    (shipment_id : ℕ) (p : Principal) (s : Shipment) (db db' : Db)
    → get shipment_id p db ≡ ok (s, db')
    → (db' ≡ db) × Reads shipment_id p s db
unfolding get
get-Reads shipment_id p s db db' run =
    let (found, s1, e1, r1) = >>=-eq-ok (get_with_detail shipment_id) _ run in
    let (read, s2, e2, r2) = >>=-eq-ok (or_raise found not_found) _ r1 in
    let (seen, r3) = raise_if-ok (not (visible read p)) not_found _ r2 in
    let same : (read, s2) ≡ (s, db') = ok-injective _ _ r3 in
    let is_read : read ≡ s = ap (λ (t : Shipment × Db). t.0) same in
    let first : (first_where (is_live shipment_id) db.shipments, db) ≡ (found, s1) =
      ok-injective _ _ (sym (get_with_detail-eq shipment_id db) ∙ e1) in
    let (at, kept) = or_raise-ok found read s1 s2 e2 in
    (
      ap (λ (t : Shipment × Db). t.1) (sym same)
          ∙ kept
          ∙ ap (λ (t : Option Shipment × Db). t.1) (sym first),
      record {
        found = ap (λ (t : Option Shipment × Db). t.0) first ∙ at ∙ ap some is_read;
        seen = rw (sym is_read) (not-false (visible read p) seen);
      },
    )

pub flush-ok :
    (db db' : Db)
    → flush db ≡ ok (tt, db')
    → (db' ≡ db) × (distinct (shipment_ids db.shipments) ≡ true)
unfolding flush unique_constraints
flush-ok db db' run = elim (Bool-cases (check_constraints db)) [
  | inl c ↦ elim (Bool-cases (unique_constraints db)) [
    | inl u ↦
        (ap (λ (t : Unit {0} × Db). t.1) (sym (ok-injective _ _ (rw (c, u) at run))), ground arith)
    | inr u ↦ absurd (cc (rw (c, u) at run))
  ]
  | inr c ↦ absurd (cc (rw c at run))
]

pub emit-Keeps :
    (t : String) (k : ℕ) (payload : ShipmentPayload) (db db' : Db)
    → emit t k payload db ≡ ok (tt, db')
    → Keeps db db'
unfolding emit uuid4
emit-Keeps t k payload db db' run =
    let e = ap (λ (t : Unit {0} × Db). t.1) (sym (ok-injective _ _ run)) in
    record { rows = ap (λ (d : Db). d.shipments) e; trail = ap (λ (d : Db). d.history) e }

-- A row of the trail that was written.
pub record Records (row : ShipmentStatusHistory) (before after : Db) : Type 0 where
  pub rows : after.shipments ≡ before.shipments
  pub trail : after.history ≡ before.history ++ row ∷ []

pub record_status-Records :
    (s : Shipment) (previous : Option ShipmentStatus) (target : ShipmentStatus) (p : Principal)
    (reason : Option String) (db db' : Db)
    → record_status s previous target p reason db ≡ ok (tt, db')
    → Records (trail_row db.next_id s.id previous target p reason) db db'
unfolding record_status uuid4
record_status-Records s previous target p reason db db' run =
    let e = ap (λ (t : Unit {0} × Db). t.1) (sym (ok-injective _ _ run)) in
    record { rows = ap (λ (d : Db). d.shipments) e; trail = ap (λ (d : Db). d.history) e }

-- A changed row that was written: the version that was read is the one in the table.
pub record Saves (read new saved : Shipment) (before after : Db) : Type 0 where
  pub current : any (is_version_of read) before.shipments ≡ true
  pub saved_as : saved ≡ record new { version = read.version + 1 }
  pub rows :
      after.shipments
      ≡ update_where
          (is_version_of read)
          (λ s. record new { version = read.version + 1 })
          before.shipments
  pub trail : after.history ≡ before.history

pub save-Saves :
    (read new saved : Shipment) (db db' : Db)
    → save read new db ≡ ok (saved, db')
    → Saves read new saved db db'
unfolding save
save-Saves read new saved db db' run = elim (Bool-cases (any (is_version_of read) db.shipments)) [
  | inl there ↦
      let e = ok-injective _ _ (rw there at run) in
      record {
        current = there;
        saved_as = ap (λ (t : Shipment × Db). t.0) (sym e);
        rows = ap (λ (t : Shipment × Db). t.1.shipments) (sym e);
        trail = ap (λ (t : Shipment × Db). t.1.history) (sym e);
      }
  | inr gone ↦ absurd (cc (rw gone at run))
]
