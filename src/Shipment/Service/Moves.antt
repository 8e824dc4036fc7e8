-- ===== src/Shipment/Service/Moves.antt =====
-- What a change of status does to the tables, where it returns.
use smart_logistics.Base.{
  not-false, ℕ, ◌+◌, ◌≡◌, sym, ap, ◌∙◌, String, true, false, not, ◌&&◌, Option, some, [], ◌∷◌, ◌++◌,
  first_where, update_where, any, distinct, Bool-cases, inl, inr,
}
use mathlib.Core.Path.{subst}
use smart_logistics.Platform.Errors.{ok, ok-injective, permission_denied, concurrent_update}
use smart_logistics.Platform.Session.{>>=-eq-ok, >>-eq-ok, raise_if-ok, lift}
use smart_logistics.Platform.Roles.{is_role, warehouse_operator}
use smart_logistics.Platform.Auth.{Principal, may_touch_warehouse}
use smart_logistics.Shipment.StateMachine.{
  ShipmentStatus, assert_transition, can_transition, transition_roles, is_same,
}
use smart_logistics.Shipment.Models.{Db, Shipment, shipment_ids, moved, flush}
use smart_logistics.Shipment.Repository.{save, is_version_of}
use smart_logistics.Shipment.Service.Requests.{get, record_status, emit, trail_row, summary}
use smart_logistics.Shipment.Service.Changes.{
  move, moved_row, change_status, assert_may_move, is_among, is_outdated,
}
use smart_logistics.Shipment.Service.Steps.{
  Reads, get-Reads, flush-ok, emit-Keeps, record_status-Records, save-Saves, is_live,
}

-- The row that a change of status writes.
abbrev pub written : ℕ → ShipmentStatus → Option String → Shipment → Shipment
written now target reason read = record (moved_row now target reason read) {
  version = read.version + 1;
}

-- What a change of status has done to the row that it read.
pub record Moves (now : ℕ) (target : ShipmentStatus) (p : Principal) (reason : Option String)
    (expected : Option ℕ) (read result : Shipment) (before after : Db) : Type 0 where
  pub role : is_among p.role (transition_roles target) ≡ true
  pub legal : can_transition read.status target ≡ true
  pub expects : is_outdated expected read.version ≡ false
  pub current : any (is_version_of read) before.shipments ≡ true
  pub rows :
      after.shipments
      ≡ update_where (is_version_of read) (λ s. written now target reason read) before.shipments
  pub row_id : ℕ
  pub trail :
      after.history
      ≡ before.history ++ trail_row row_id read.id (some read.status) target p reason ∷ []
  pub unique : distinct (shipment_ids after.shipments) ≡ true
  pub returned : first_where (is_live read.id) after.shipments ≡ some result

assert_transition-ok :
    (s t : ShipmentStatus) (db db' : Db)
    → lift (assert_transition s t) db ≡ ok (tt, db')
    → (can_transition s t ≡ true) × (db' ≡ db)
unfolding assert_transition
assert_transition-ok s t db db' run = elim (Bool-cases (is_same s t)) [
  | inl same ↦ absurd (cc (rw same at run))
  | inr differ ↦ elim (Bool-cases (can_transition s t)) [
    | inl may ↦
        (may, ap (λ (x : Unit {0} × Db). x.1) (sym (ok-injective _ _ (rw (differ, may) at run))))
    | inr cannot ↦ absurd (cc (rw (differ, cannot) at run))
  ]
]

may_move :
    (read : Shipment) (target : ShipmentStatus) (p : Principal) (expected : Option ℕ) (db db' : Db)
    → assert_may_move read target p expected db ≡ ok (tt, db')
    → (is_among p.role (transition_roles target) ≡ true)
      × (is_outdated expected read.version ≡ false)
      × (can_transition read.status target ≡ true)
      × (db' ≡ db)
unfolding assert_may_move
may_move read target p expected db db' run =
    let (role, r1) =
      raise_if-ok (not (is_among p.role (transition_roles target))) permission_denied _ run in
    let (home, r2) =
      raise_if-ok
        (is_role p.role warehouse_operator && not (may_touch_warehouse p read.origin_warehouse_id))
        permission_denied _ r1 in
    let (expects, r3) = raise_if-ok (is_outdated expected read.version) concurrent_update _ r2 in
    let (legal, kept) = assert_transition-ok read.status target db db' r3 in
    (not-false (is_among p.role (transition_roles target)) role, expects, legal, kept)

pub move-Moves :
    (now : ℕ) (read : Shipment) (target : ShipmentStatus) (p : Principal) (reason : Option String)
    (expected : Option ℕ) (result : Shipment) (db db' : Db)
    → move now read target p reason expected db ≡ ok (result, db')
    → Moves now target p reason expected read result db db'
unfolding move
move-Moves now read target p reason expected result db db' run =
    let (_, s1, e1, r1) = >>-eq-ok (assert_may_move read target p expected) _ run in
    let (role, expects, legal, k1) = may_move read target p expected db s1 e1 in
    let (_, s2, e2, r2) = >>-eq-ok (record_status read (some read.status) target p reason) _ r1 in
    let wrote = record_status-Records read (some read.status) target p reason s1 s2 e2 in
    let (saved, s3, e3, r3) = >>=-eq-ok (save read (moved_row now target reason read)) _ r2 in
    let kept = save-Saves read (moved_row now target reason read) saved s2 s3 e3 in
    let (_, s4, e4, r4) = >>-eq-ok flush _ r3 in
    let (k4, unique) = flush-ok s3 s4 e4 in
    let (_, s5, e5, r5) =
      >>-eq-ok
        (emit "shipment.status_changed" saved.id
          (moved (summary saved) read.status reason p.user_id))
        _ r4 in
    let sent =
      emit-Keeps "shipment.status_changed" saved.id
        (moved (summary saved) read.status reason p.user_id) s4 s5 e5 in
    let (k6, again) = get-Reads read.id p result s5 db' r5 in
    let rows_after : db'.shipments ≡ s3.shipments =
      ap (λ (d : Db). d.shipments) k6 ∙ sent.rows ∙ ap (λ (d : Db). d.shipments) k4 in
    let trail_after : db'.history ≡ s3.history =
      ap (λ (d : Db). d.history) k6 ∙ sent.trail ∙ ap (λ (d : Db). d.history) k4 in
    let rows_before : s2.shipments ≡ db.shipments = wrote.rows ∙ ap (λ (d : Db). d.shipments) k1 in
    record {
      role = role;
      legal = legal;
      expects = expects;
      current = rw (sym rows_before) kept.current;
      rows =
          rows_after
          ∙ kept.rows
          ∙ ap (update_where (is_version_of read) (λ s. written now target reason read))
              rows_before;
      row_id = s1.next_id;
      trail =
          trail_after
          ∙ kept.trail
          ∙ wrote.trail
          ∙ ap
              (λ (d : Db).
                d.history ++ trail_row s1.next_id read.id (some read.status) target p reason ∷ [])
              k1;
      unique = rw rows_after unique;
      returned = rw k6 again.found;
    }

pub change_status-Moves :
    (now shipment_id : ℕ) (target : ShipmentStatus) (p : Principal) (reason : Option String)
    (expected : Option ℕ) (result : Shipment) (db db' : Db)
    → change_status now shipment_id target p reason expected db ≡ ok (result, db')
    → (read : Shipment) × Reads shipment_id p read db
      × Moves now target p reason expected read result db db'
unfolding change_status
change_status-Moves now shipment_id target p reason expected result db db' run =
    let (read, s1, e1, r1) = >>=-eq-ok (get shipment_id p) _ run in
    let (kept, found) = get-Reads shipment_id p read db s1 e1 in
    let moves = move-Moves now read target p reason expected result s1 db' r1 in
    (read, found, subst (λ d. Moves now target p reason expected read result d db') kept moves)
