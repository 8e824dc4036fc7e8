-- ===== src/Warehouse/Api/Scopes/Zones.antt =====
-- add_zone, update_zone and delete_zone of WarehouseService
-- (services/warehouse/src/warehouse/services/warehouses.py), which check who manages the warehouse.
use mathlib.Core.Path.{subst}
use smart_logistics.Base.{
  ℕ, ◌+◌, ◌≡◌, ◌⊎◌, refl, sym, ap, ◌∙◌, true, false, ◌||◌, Option, none, some, List, [], ◌∷◌, ◌++◌,
  arith, ◌==◌, ==_iff, first_where, contains, distinct, distinct_tail, found-head, found-true,
  Bool-cases, inl, inr, is_none,
}
use smart_logistics.Platform.Errors.{ok, ok-injective, not_found, SqlState, integrity_error}
use smart_logistics.Platform.Session.{Tx, ◌>>=◌, ◌>>◌, >>-eq-ok, raise_if-ok, or_raise}
use smart_logistics.Platform.Auth.{Principal}
use smart_logistics.Warehouse.Models.{Db, WarehouseZone, flush, uuid4}
use smart_logistics.Warehouse.Schemas.{WarehouseZoneCreate, WarehouseZoneUpdate, is_null}
use smart_logistics.Warehouse.Repository.{get_zone, live_zone, save_zone}
use smart_logistics.Warehouse.Service as Service
use smart_logistics.Warehouse.Service.{
  manages, assert_can_manage, new_zone, new_hours, add_hours, updated_zone,
}
use smart_logistics.Warehouse.Api.Scopes.{
  foreign_zones, zone_ids, Scoped, can_manage-ok, flush-eq, rows_where-append,
}

pub add_zone-Scoped :
    (p : Principal) (warehouse_id : ℕ) (payload : WarehouseZoneCreate) (a : WarehouseZone)
    (db db' : Db)
    → Service.add_zone warehouse_id payload p db ≡ ok (a, db')
    → Scoped p db db'
unfolding Service.add_zone uuid4
add_zone-Scoped p warehouse_id payload a db db' run =
    let (_, db1, may, r) = >>-eq-ok (assert_can_manage warehouse_id p) _ run in
    let (same, m) = can_manage-ok warehouse_id p db db1 may in
    let (_, db2, flushed, r') = >>-eq-ok flush _ r in
    let e = flush-eq _ db2 flushed in
    let done : db2 ≡ db' =
      ap (λ (x : WarehouseZone × Db). x.1) (ok-injective (_, db2) (a, db') r') in
    subst (Scoped p db) (e ∙ done) (
      subst
        (λ (d : Db). Scoped p db (record d {
          zones = d.zones ++ new_zone d.next_id warehouse_id payload ∷ [];
          next_id = d.next_id + 1;
        }))
        same
        (record {
          warehouses = refl;
          zones =
              rows_where-append _ db.zones (new_zone db.next_id warehouse_id payload) (rw m refl);
          hours = refl;
          outbox = refl;
        }))

absent-save :
    (new : WarehouseZone) (zones : List WarehouseZone)
    → contains (zone_ids zones) new.id ≡ false
    → save_zone new zones ≡ zones
absent-save new [] c = refl
absent-save new (z ∷ zones) c = ground (arith, absent-save new zones)

own-zone :
    (p : Principal) (z : WarehouseZone) (zones : List WarehouseZone)
    → manages z.warehouse_id p ≡ true
    → foreign_zones p (z ∷ zones) ≡ foreign_zones p zones
own-zone p z zones m = rw m refl

-- The row of a zone is written, which stays in its warehouse.
written-foreign :
    (p : Principal) (z new : WarehouseZone) (zones : List WarehouseZone)
    → distinct (zone_ids zones) ≡ true
    → first_where (λ y. y.id == z.id) zones ≡ some z
    → new.id ≡ z.id
    → new.warehouse_id ≡ z.warehouse_id
    → manages z.warehouse_id p ≡ true
    → foreign_zones p (save_zone new zones) ≡ foreign_zones p zones
written-foreign p z new [] d e same place m = refl
written-foreign p z new (y ∷ zones) d e same place m =
    let (fresh, d') = distinct_tail y.id (zone_ids zones) d in
    elim (Bool-cases (y.id == z.id)) [
      | inl hit ↦
          let is_z = found-head (λ (x : WarehouseZone). x.id == z.id) z y zones hit e in
          let gone = absent-save new zones (
            rw same
              (subst (λ (x : WarehouseZone). contains (zone_ids zones) x.id ≡ false) is_z fresh)) in
          let mine : manages y.warehouse_id p ≡ true =
            ap (λ (x : WarehouseZone). manages x.warehouse_id p) is_z ∙ m in
          let new_mine : manages new.warehouse_id p ≡ true =
            ap (λ (k : ℕ). manages k p) place ∙ m in
          let there : (y.id == new.id) ≡ true = ap (λ (k : ℕ). y.id == k) same ∙ hit in
          rw there (
            own-zone p new (save_zone new zones) new_mine
            ∙ ap (foreign_zones p) gone
            ∙ sym (own-zone p y zones mine))
      | inr miss ↦
          rw (same, miss) (rw (written-foreign p z new zones d' (rw miss at e) same place m) refl)
    ]

live_zone-cases : (z : WarehouseZone) → (live_zone (some z) ≡ none) ⊎ (live_zone (some z) ≡ some z)
live_zone-cases z = elim (Bool-cases (is_none z.deleted_at)) [
  | inl kept ↦ inr (rw kept refl)
  | inr gone ↦ inl (rw gone refl)
]

-- Reading a zone, and the check that follows.
zone-then :
    {A : Type 0} (zone_id : ℕ) (p : Principal) (k : WarehouseZone → Tx Db A) (a : A) (db db' : Db)
    → (or_raise (live_zone (first_where (λ z. z.id == zone_id) db.zones)) not_found >>= λ z.
          (assert_can_manage z.warehouse_id p >> k z))
        db
      ≡ ok (a, db')
    → (z : WarehouseZone) × (first_where (λ y. y.id == z.id) db.zones ≡ some z)
      × (manages z.warehouse_id p ≡ true)
      × (k z db ≡ ok (a, db'))
zone-then {A} zone_id p k a db db' run = go (first_where (λ z. z.id == zone_id) db.zones) refl run
  where
    found :
        (z : WarehouseZone)
        → first_where (λ z. z.id == zone_id) db.zones ≡ some z
        → (assert_can_manage z.warehouse_id p >> k z) db ≡ ok (a, db')
        → (z : WarehouseZone) × (first_where (λ y. y.id == z.id) db.zones ≡ some z)
          × (manages z.warehouse_id p ≡ true)
          × (k z db ≡ ok (a, db'))
    found z e r =
        let (_, db1, may, r') = >>-eq-ok (assert_can_manage z.warehouse_id p) (k z) r in
        let (same, m) = can_manage-ok z.warehouse_id p db db1 may in
        let id : z.id ≡ zone_id =
          (==_iff z.id zone_id).0 (found-true (λ y. y.id == zone_id) z db.zones e) in
        (
          z,
          subst (λ (n : ℕ). first_where (λ y. y.id == n) db.zones ≡ some z) (sym id) e,
          m,
          subst (λ (d : Db). k z d ≡ ok (a, db')) (sym same) r',
        )

    go :
        (o : Option WarehouseZone)
        → first_where (λ z. z.id == zone_id) db.zones ≡ o
        → (or_raise (live_zone o) not_found >>= λ z. (assert_can_manage z.warehouse_id p >> k z)) db
          ≡ ok (a, db')
        → (z : WarehouseZone) × (first_where (λ y. y.id == z.id) db.zones ≡ some z)
          × (manages z.warehouse_id p ≡ true)
          × (k z db ≡ ok (a, db'))
    go none e r = absurd (cc r)
    go (some z) e r = elim (live_zone-cases z) [
      | inl gone ↦ absurd (cc (rw gone at r))
      | inr there ↦ found z e (rw there at r)
    ]

-- The row of a zone is written in a database where zone ids are distinct.
zone-Scoped :
    (p : Principal) (z new : WarehouseZone) (db : Db)
    → distinct (zone_ids db.zones) ≡ true
    → first_where (λ y. y.id == z.id) db.zones ≡ some z
    → new.id ≡ z.id
    → new.warehouse_id ≡ z.warehouse_id
    → manages z.warehouse_id p ≡ true
    → Scoped p db (record db { zones = save_zone new db.zones })
zone-Scoped p z new db d e same place m = record {
  warehouses = refl;
  zones = written-foreign p z new db.zones d e same place m;
  hours = refl;
  outbox = refl;
}

pub delete_zone-Scoped :
    (now zone_id : ℕ) (p : Principal) (db db' : Db)
    → distinct (zone_ids db.zones) ≡ true
    → Service.delete_zone now zone_id p db ≡ ok (tt, db')
    → Scoped p db db'
unfolding Service.delete_zone get_zone
delete_zone-Scoped now zone_id p db db' d run =
    let (z, e, m, r) = zone-then zone_id p _ tt db db' run in
    subst (Scoped p db) (flush-eq _ db' r) (
      zone-Scoped p z
        (record z { is_active = false; deleted_at = some now; deleted_by = some p.user_id }) db d e
        refl refl m)

pub update_zone-Scoped :
    (zone_id : ℕ) (payload : WarehouseZoneUpdate) (p : Principal) (a : WarehouseZone) (db db' : Db)
    → distinct (zone_ids db.zones) ≡ true
    → Service.update_zone zone_id payload p db ≡ ok (a, db')
    → Scoped p db db'
unfolding Service.update_zone get_zone
update_zone-Scoped zone_id payload p a db db' d run =
    let (z, e, m, r) = zone-then zone_id p _ a db db' run in
    let (_, r1) =
      raise_if-ok
        (is_null payload.name
          || is_null payload.type
          || is_null payload.capacity_units
          || is_null payload.is_active)
        (integrity_error SqlState.not_null_violation) _ r in
    let (_, db1, flushed, r2) = >>-eq-ok flush _ r1 in
    let done : db1 ≡ db' =
      ap (λ (x : WarehouseZone × Db). x.1)
        (ok-injective (updated_zone payload z, db1) (a, db') r2) in
    subst (Scoped p db) (flush-eq _ db1 flushed ∙ done)
      (zone-Scoped p z (updated_zone payload z) db d e refl refl m)
