-- ===== src/Shipment/Service/Written.antt =====
-- The row of a shipment after it was written (services/shipment/src/shipment/repository.py): it is
-- found again, and the constraints hold.
use mathlib.Core.Path.{subst}
use smart_logistics.Base.{
  ℕ, ◌≡◌, refl, sym, String, true, false, Option, some, List, [], ◌∷◌, map, arith, ◌==◌, ==_refl,
  if◌then◌else◌, first_where, update_where, any, Bool-cases, inl, inr,
}
use smart_logistics.Platform.Auth.{Principal}
use smart_logistics.Shipment.StateMachine.{ShipmentStatus}
use smart_logistics.Shipment.Models.{Shipment}
use smart_logistics.Shipment.Repository.{is_version_of}
use smart_logistics.Shipment.Service.Requests.{visible}
use smart_logistics.Shipment.Service.Changes.{moved_row}
use smart_logistics.Shipment.Service.Steps.{is_live}
use smart_logistics.Shipment.Service.Moves.{written}
use smart_logistics.Shipment.Trail.Rows.{OnlyRow, live_first}

module _ (now : ℕ) (reason : Option String) (s : Shipment) where
  pub moved_row-id : (target : ShipmentStatus) → (moved_row now target reason s).id ≡ s.id
  unfolding moved_row
  moved_row-id target = ground arith

  pub moved_row-reference :
      (target : ShipmentStatus) → (moved_row now target reason s).reference_no ≡ s.reference_no
  unfolding moved_row
  moved_row-reference target = ground arith

  pub moved_row-deleted :
      (target : ShipmentStatus) → (moved_row now target reason s).deleted_at ≡ s.deleted_at
  unfolding moved_row
  moved_row-deleted target = ground arith

  moved_row-origin :
      (target : ShipmentStatus)
      → (moved_row now target reason s).origin_warehouse_id ≡ s.origin_warehouse_id
  unfolding moved_row
  moved_row-origin target = ground arith

  moved_row-courier :
      (target : ShipmentStatus) → (moved_row now target reason s).courier_id ≡ s.courier_id
  unfolding moved_row
  moved_row-courier target = ground arith

visible-same :
    (s t : Shipment) (p : Principal)
    → s.origin_warehouse_id ≡ t.origin_warehouse_id
    → s.courier_id ≡ t.courier_id
    → visible s p ≡ visible t p
unfolding visible
visible-same s t p w c = ground arith

pub visible-written :
    (now : ℕ) (target : ShipmentStatus) (reason : Option String) (s : Shipment) (p : Principal)
    → visible (written now target reason s) p ≡ visible s p
visible-written now target reason s p =
    visible-same (written now target reason s) s p (moved_row-origin now reason s target)
      (moved_row-courier now reason s target)

pub is_live-found :
    (shipment_id : ℕ) (read : Shipment) (rows : List Shipment)
    → first_where (is_live shipment_id) rows ≡ some read
    → is_live shipment_id read ≡ true
is_live-found shipment_id read [] e = absurd (cc e)
is_live-found shipment_id read (s ∷ rows) e = elim (Bool-cases (is_live shipment_id s)) [
  | inl live ↦
      subst (λ (r : Shipment). is_live shipment_id r ≡ true)
        (live_first shipment_id read s rows live e) live
  | inr dead ↦ is_live-found shipment_id read rows (rw dead at e)
]

pub version_there :
    (shipment_id : ℕ) (read : Shipment) (rows : List Shipment)
    → first_where (is_live shipment_id) rows ≡ some read
    → any (is_version_of read) rows ≡ true
version_there shipment_id read [] e = absurd (cc e)
version_there shipment_id read (s ∷ rows) e = elim (Bool-cases (is_live shipment_id s)) [
  | inl live ↦
      subst (λ (r : Shipment). any (is_version_of read) (r ∷ rows) ≡ true)
        (sym (live_first shipment_id read s rows live e))
        (rw (==_refl read.id, ==_refl read.version) refl)
  | inr dead ↦ rw (version_there shipment_id read rows (rw dead at e)) (ground arith)
]

-- A row that was written is found under the id, and keeps the reference numbers.
module _ (shipment_id : ℕ) (read new : Shipment) where
  pub found-written :
      (rows : List Shipment)
      → OnlyRow read rows
      → is_live shipment_id read ≡ true
      → is_live shipment_id new ≡ true
      → first_where (is_live shipment_id) rows ≡ some read
      → first_where (is_live shipment_id) (update_where (is_version_of read) (λ s. new) rows)
        ≡ some new
  found-written [] only l l' e = absurd (cc e)
  found-written (s ∷ rows) (is_read, only) l l' e = elim (Bool-cases (is_live shipment_id s)) [
    | inl live ↦
        subst
          (λ (r : Shipment).
            first_where (is_live shipment_id) (
              (if is_version_of read r then new else r)
              ∷ update_where (is_version_of read) (λ x. new) rows)
            ≡ some new)
          (sym (live_first shipment_id read s rows live e))
          (rw (==_refl read.id, ==_refl read.version, l') refl)
    | inr dead ↦ elim (Bool-cases (s.id == read.id)) [
      | inl same ↦
          absurd
            (cc (subst (λ (r : Shipment). is_live shipment_id r ≡ false) (is_read same) dead, l))
      | inr differ ↦ rw (differ, dead) (found-written rows only l l' (rw dead at e))
    ]
  ]

  pub references-written :
      (rows : List Shipment)
      → new.reference_no ≡ read.reference_no
      → OnlyRow read rows
      → map (λ s. s.reference_no) (update_where (is_version_of read) (λ s. new) rows)
        ≡ map (λ s. s.reference_no) rows
  references-written [] e only = refl
  references-written (s ∷ rows) e (is_read, only) = elim (Bool-cases (s.id == read.id)) [
    | inl same ↦
        subst
          (λ (r : Shipment).
            (if is_version_of read r then new else r).reference_no
              ∷ map (λ x. x.reference_no) (update_where (is_version_of read) (λ x. new) rows)
            ≡ r.reference_no ∷ map (λ x. x.reference_no) rows)
          (sym (is_read same))
          (rw (==_refl read.id, ==_refl read.version, references-written rows e only, e) refl)
    | inr differ ↦ rw (differ, references-written rows e only) refl
  ]
