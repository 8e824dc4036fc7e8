-- ===== src/Shipment/Trail/Edited.antt =====
-- The trails after `update`, `add_package` and `update_package`.
use smart_logistics.Base.{
  ℕ, ◌+◌, ◌≡◌, refl, sym, ap, ◌∙◌, not, ◌||◌, ◌==◌, first_where, Bool-cases, inl, inr,
}
use smart_logistics.Platform.Errors.{
  SqlState, integrity_error, ok, ok-injective, conflict, not_found, permission_denied,
}
use smart_logistics.Platform.Session.{>>=-eq-ok, >>-eq-ok, raise_if-ok, or_raise}
use smart_logistics.Platform.Auth.{Principal}
use smart_logistics.Shipment.StateMachine.{is_editable}
use smart_logistics.Shipment.Models.{Db, Shipment, Package, flush, changed, uuid4}
use smart_logistics.Shipment.Repository.{next_package_sequence}
use smart_logistics.Shipment.Service.Requests.{
  PackageCreate, PackageUpdate, ShipmentUpdate, get, emit, summary, assert_can_pack, can_pack,
}
use smart_logistics.Shipment.Service.Changes.{
  update, updated_row, save_if_changed, is_unchanged, is_cleared, changed_names, add_package,
  update_package,
}
use smart_logistics.Shipment.Service.Steps.{
  Keeps, Keeps-trans, Keeps-eq, Reads, get-Reads, flush-ok, emit-Keeps, save-Saves, or_raise-ok,
}
use smart_logistics.Shipment.Trail.Rows.{found-OnlyRow, found-Trails, written-Trails, written-ids}
use smart_logistics.Shipment.Trail.Kept.{IsTrailed, Keeps-IsTrailed}

module _ (payload : ShipmentUpdate) (s : Shipment) where
  updated_row-id : (updated_row payload s).id ≡ s.id
  unfolding updated_row
  updated_row-id = refl

  updated_row-status : (updated_row payload s).status ≡ s.status
  unfolding updated_row
  updated_row-status = refl

save_if_changed-IsTrailed :
    (shipment_id : ℕ) (payload : ShipmentUpdate) (p : Principal) (read saved : Shipment)
    (db db' : Db)
    → Reads shipment_id p read db
    → save_if_changed read (updated_row payload read) db ≡ ok (saved, db')
    → IsTrailed db
    → IsTrailed db'
unfolding save_if_changed
save_if_changed-IsTrailed shipment_id payload p read saved db db' r run t =
    elim (Bool-cases (is_unchanged read (updated_row payload read))) [
      | inl same ↦
          Keeps-IsTrailed db db'
            (Keeps-eq db db'
              (ap (λ (x : Shipment × Db). x.1) (sym (ok-injective _ _ (rw same at run)))))
            t
      | inr differ ↦
          let new = record (updated_row payload read) { version = read.version + 1 } in
          let kept = save-Saves read (updated_row payload read) saved db db' (rw differ at run) in
          let ids = written-ids read new db.shipments (updated_row-id payload read) in
          record {
            trails =
                rw (kept.rows, kept.trail)
                  (written-Trails read new db.history db.history db.shipments
                    (updated_row-id payload read) (λ k e. refl)
                    (rw (updated_row-status payload read)
                      (found-Trails shipment_id read db.history db.shipments r.found t.trails))
                    (found-OnlyRow shipment_id read db.shipments t.unique r.found) t.trails);
            refers = rw (kept.rows, kept.trail, ids) t.refers;
            unique = rw (kept.rows, ids) t.unique;
          }
    ]

pub update-IsTrailed :
    (shipment_id : ℕ) (payload : ShipmentUpdate) (p : Principal) (result : Shipment) (db db' : Db)
    → update shipment_id payload p db ≡ ok (result, db')
    → IsTrailed db
    → IsTrailed db'
unfolding update
update-IsTrailed shipment_id payload p result db db' run t =
    let (read, s1, e1, r1) = >>=-eq-ok (get shipment_id p) _ run in
    let (k1, found) = get-Reads shipment_id p read db s1 e1 in
    let (_, r2) = raise_if-ok (not (is_editable read.status)) conflict _ r1 in
    let (_, r3) =
      raise_if-ok (is_cleared payload.service_level || is_cleared payload.priority) conflict _ r2 in
    let (saved, s4, e4, r4) = >>=-eq-ok (save_if_changed read (updated_row payload read)) _ r3 in
    let t4 =
      save_if_changed-IsTrailed shipment_id payload p read saved s1 s4 (rw k1 found) e4
        (Keeps-IsTrailed db s1 (Keeps-eq db s1 k1) t) in
    let (_, s5, e5, r5) = >>-eq-ok flush _ r4 in
    let (k5, _) = flush-ok s4 s5 e5 in
    let (_, s6, e6, r6) =
      >>-eq-ok (emit "shipment.updated" saved.id (changed (summary saved) (changed_names payload)))
        _ r5 in
    let k6 =
      emit-Keeps "shipment.updated" saved.id (changed (summary saved) (changed_names payload)) s5 s6
        e6 in
    let (k7, _) = get-Reads shipment_id p result s6 db' r6 in
    Keeps-IsTrailed s4 db'
      (Keeps-trans s4 s5 db' (Keeps-eq s4 s5 k5) (Keeps-trans s5 s6 db' k6 (Keeps-eq s6 db' k7))) t4

pub add_package-Keeps :
    (barcode shipment_id : ℕ) (payload : PackageCreate) (p : Principal) (result : Package)
    (db db' : Db)
    → add_package barcode shipment_id payload p db ≡ ok (result, db')
    → Keeps db db'
unfolding add_package assert_can_pack next_package_sequence uuid4
add_package-Keeps barcode shipment_id payload p result db db' run =
    let (read, s1, e1, r1) = >>=-eq-ok (get shipment_id p) _ run in
    let (k1, found) = get-Reads shipment_id p read db s1 e1 in
    let (_, r2) = raise_if-ok (not (can_pack read p)) permission_denied _ r1 in
    let (_, r3) = raise_if-ok (not (is_editable read.status)) conflict _ r2 in
    let (_, s4, e4, r4) = >>-eq-ok flush _ r3 in
    let (k4, _) = flush-ok _ s4 e4 in
    let k5 : db' ≡ s4 = ap (λ (x : Package × Db). x.1) (sym (ok-injective _ _ r4)) in
    record {
      rows = ap (λ (d : Db). d.shipments) (k5 ∙ k4) ∙ ap (λ (d : Db). d.shipments) k1;
      trail = ap (λ (d : Db). d.history) (k5 ∙ k4) ∙ ap (λ (d : Db). d.history) k1;
    }

pub update_package-Keeps :
    (now package_id : ℕ) (payload : PackageUpdate) (p : Principal) (result : Package) (db db' : Db)
    → update_package now package_id payload p db ≡ ok (result, db')
    → Keeps db db'
unfolding update_package assert_can_pack
update_package-Keeps now package_id payload p result db db' run =
    let (found, s0, e0, r0) =
      >>=-eq-ok (or_raise (first_where (λ q. q.id == package_id) db.packages) not_found) _ run in
    let (_, k0) = or_raise-ok (first_where (λ q. q.id == package_id) db.packages) found db s0 e0 in
    let (read, s1, e1, r1) = >>=-eq-ok (get found.shipment_id p) _ r0 in
    let (k1, _) = get-Reads found.shipment_id p read s0 s1 e1 in
    let (_, r2) = raise_if-ok (not (can_pack read p)) permission_denied _ r1 in
    let (_, r3) =
      raise_if-ok (is_cleared payload.weight_g || is_cleared payload.status)
        (integrity_error SqlState.not_null_violation) _ r2 in
    let (_, s4, e4, r4) = >>-eq-ok flush _ r3 in
    let (k4, _) = flush-ok _ s4 e4 in
    let k5 : db' ≡ s4 = ap (λ (x : Package × Db). x.1) (sym (ok-injective _ _ r4)) in
    record {
      rows = ap (λ (d : Db). d.shipments) (k5 ∙ k4) ∙ ap (λ (d : Db). d.shipments) (k1 ∙ k0);
      trail = ap (λ (d : Db). d.history) (k5 ∙ k4) ∙ ap (λ (d : Db). d.history) (k1 ∙ k0);
    }
