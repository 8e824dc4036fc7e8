-- ===== src/Inventory/Reserve/Checks.antt =====
-- The steps of `reserve` (services/inventory/src/inventory/services/reservations.py) that only read.
use smart_logistics.Base.{
  ℕ, ◌≡◌, sym, ap, Bool, ◌&&◌, not, List, arith, any, rows_where, contains, is_none,
}
use smart_logistics.Platform.Errors.{
  Result, ok, err, Error, ok-injective, not_found, conflict, insufficient_stock,
}
use smart_logistics.Platform.Session.{Tx, ◌>>◌, raise_if-ok, raise_if, pure, lift}
use smart_logistics.Inventory.Models.{Db, Sku}
use smart_logistics.Inventory.Schemas.{ReservationLineRequest}
use smart_logistics.Inventory.Replicas.{require_operational}
use smart_logistics.Inventory.Reservations.{lock_items, for_shipment}
use smart_logistics.Inventory.Reserve.{check_stock, load_skus, is_short, item_id_for, find_sku}

-- The state that a step returned in.
abbrev pub KeepsDb : {A : Type 0} → Tx Db A → Type 0
KeepsDb {A} m = (a : A) (db db' : Db) → m db ≡ ok (a, db') → db' ≡ db

raise_if-KeepsDb : (b : Bool) (e : Error) → KeepsDb (raise_if b e)
raise_if-KeepsDb b e a db db' run = ground arith

pub lift-KeepsDb : {A : Type 0} (r : Result A) → KeepsDb (lift r)
lift-KeepsDb (ok a) x db db' run = cc
lift-KeepsDb (err e) x db db' run = absurd (cc run)

pub require_operational-KeepsDb : (warehouse_id : ℕ) → KeepsDb (require_operational warehouse_id)
unfolding require_operational
require_operational-KeepsDb warehouse_id a db db' run = ground arith

pub load_skus-KeepsDb : (ids : List ℕ) → KeepsDb (load_skus ids)
unfolding load_skus
load_skus-KeepsDb ids a db db' run =
    let skus = rows_where (λ (s : Sku). contains ids s.id && is_none s.deleted_at) db.skus in
    let inactive : Tx Db (List Sku) =
      raise_if (any (λ s. not s.is_active) skus) conflict >> pure skus in
    let rest = (raise_if-ok (any (λ i. is_none (find_sku i skus)) ids) not_found inactive run).1 in
    let last =
      (raise_if-ok (any (λ (s : Sku). not s.is_active) skus) conflict (pure skus) rest).1 in
    ap (λ (p : List Sku × Db). p.1) (sym (ok-injective (skus, db) (a, db') last))

pub check_stock-KeepsDb :
    (lines : List ReservationLineRequest) (items : List (ℕ × ℕ)) (skus : List Sku)
    → KeepsDb (check_stock lines items skus)
unfolding check_stock
check_stock-KeepsDb lines items skus a db db' run =
    raise_if-KeepsDb (any (is_short items db.items) lines) insufficient_stock a db db'
      (raise_if-ok (any (λ (s : Sku). is_none (item_id_for items s.id)) skus) insufficient_stock
        (λ s. raise_if (any (is_short items s.items) lines) insufficient_stock s) run).1

pub lock_items-KeepsDb : (warehouse_id : ℕ) (ids : List ℕ) → KeepsDb (lock_items warehouse_id ids)
unfolding lock_items
lock_items-KeepsDb warehouse_id ids a db db' run = cc

pub for_shipment-KeepsDb : (shipment_id : ℕ) → KeepsDb (for_shipment shipment_id)
unfolding for_shipment
for_shipment-KeepsDb shipment_id a db db' run = cc
