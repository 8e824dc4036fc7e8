-- ===== src/Shipment/Repository.antt =====
-- services/shipment/src/shipment/repository.py and services/replicas.py: what the service reads,
-- and how a changed row is written. A listing's rows come in the order of the table; sorting for
-- display is not modelled. A reference number that a rolled back create drew is drawn again here,
-- where the database's sequence leaves a gap.
use smart_logistics.Base.{
  satisfies, ℕ, ◌+◌, String, Bool, true, false, not, ◌&&◌, ◌||◌, Option, none, some, List, [], ◌∷◌,
  ltb, leb, ◌==◌, if◌then◌else◌, is_none, str_eq, rows_where, update_where, first_where, any,
  length,
}
use smart_logistics.Platform.Errors.{ok, err, not_found, warehouse_not_operational, stale_data}
use smart_logistics.Platform.Session.{Tx, ◌>>=◌, ◌>>◌, pure, gets, modify, or_raise, raise_if}
use smart_logistics.Inventory.Models.{WarehouseRef, is_operational}
use smart_logistics.Inventory.Replicas.{upsert_ref, find_ref}
use smart_logistics.Inventory.Stock.{take, drop, matches, in_warehouses, wants}
use smart_logistics.Shipment.StateMachine.{ShipmentStatus, is_same, is_open}
use smart_logistics.Shipment.Models.{
  Db, Address, Shipment, Package, ShipmentStatusHistory, ServiceLevel, economy, standard, express,
  same_day, ShipmentPriority, low, normal, high, critical,
}

-- `get_with_detail`: the row; its items and packages are the rows of those tables.
unfoldable pub get_with_detail : ℕ → Tx Db (Option Shipment)
get_with_detail shipment_id =
    gets λ db. first_where (λ s. s.id == shipment_id && is_none s.deleted_at) db.shipments

unfoldable pub next_reference_no : Tx Db ℕ
next_reference_no db = ok (db.next_reference, record db { next_reference = db.next_reference + 1 })

-- The largest of these, 0 if there are none.
abbrev pub highest : List Package → ℕ
highest [] = 0
highest (p ∷ packages) =
    let rest = highest packages in if leb p.sequence_no rest then rest else p.sequence_no

unfoldable pub next_package_sequence : ℕ → Tx Db ℕ
next_package_sequence shipment_id =
    gets λ db. highest (rows_where (λ p. p.shipment_id == shipment_id) db.packages) + 1

abbrev pub history_of : ℕ → List ShipmentStatusHistory → List ShipmentStatusHistory
history_of shipment_id = rows_where (λ h. h.shipment_id == shipment_id)

unfoldable pub history : ℕ → Tx Db (List ShipmentStatusHistory)
history shipment_id = gets λ db. history_of shipment_id db.history

unfoldable pub upsert_warehouse : WarehouseRef → Tx Db Unit
unfolding upsert_ref
upsert_warehouse snapshot =
    modify λ db. record db { warehouse_refs = upsert_ref snapshot db.warehouse_refs }

unfoldable pub require_operational : ℕ → Tx Db WarehouseRef
require_operational warehouse_id = do
  refs ← gets λ db. db.warehouse_refs
  ref ← or_raise (find_ref warehouse_id refs) not_found
  raise_if (not (is_operational ref)) warehouse_not_operational
  pure ref

-- The row that an UPDATE of a shipment looks for: `version_id_col` adds the version that was read.
abbrev pub is_version_of : Shipment → Shipment → Bool
is_version_of read s = s.id == read.id && s.version == read.version

-- UPDATE shipments SET .., version = version + 1 WHERE id = .. AND version = <the version read>,
-- which raises StaleDataError where it matches no row.
unfoldable pub save : Shipment → Shipment → Tx Db Shipment
save read new db =
    if any (is_version_of read) db.shipments
    then ok (
      record new { version = read.version + 1 },
      record db {
        shipments =
            update_where (is_version_of read) (λ s. record new { version = read.version + 1 })
              db.shipments;
      },
    )
    else err stale_data

abbrev pub is_level : ServiceLevel → ServiceLevel → Bool
is_level economy economy = true
is_level standard standard = true
is_level express express = true
is_level same_day same_day = true
is_level _ _ = false

abbrev pub is_priority : ShipmentPriority → ShipmentPriority → Bool
is_priority low low = true
is_priority normal normal = true
is_priority high high = true
is_priority critical critical = true
is_priority _ _ = false

-- The filters of `list_shipments`, with the two scopes of ShipmentService.list.
pub record Filters : Type 0 where
  pub status : Option ShipmentStatus
  pub service_level : Option ServiceLevel
  pub priority : Option ShipmentPriority
  pub origin_warehouse_id : Option ℕ
  pub courier_id : Option ℕ
  pub created_by : Option ℕ
  pub city : Option String
  pub search : Option String
  pub created_from : Option ℕ
  pub created_to : Option ℕ
  pub overdue_only : Option Bool
  pub allowed_warehouse_ids : Option (List ℕ)
  pub restrict_to_courier_id : Option ℕ

-- A filter on a column that may be NULL, which is equal to nothing.
abbrev pub equals : Option ℕ → Option ℕ → Bool
equals none column = true
equals (some x) none = false
equals (some x) (some y) = y == x

abbrev pub is_before : Option ℕ → ℕ → Bool
is_before none now = false
is_before (some t) now = ltb t now

-- `ilike` compares a column with `%<text stripped>%`, which the database does.
module _ (ilike : String → String → Bool) where
  abbrev pub column_like : String → Option String → Bool
  column_like text none = false
  column_like text (some column) = ilike text column

  -- `if search:`; a reference number is printed for the comparison
  abbrev pub found_by : (ℕ → String) → Option String → Shipment → Bool
  found_by print none s = true
  found_by print (some text) s =
      str_eq text "" || ilike text (print s.reference_no) || column_like text s.customer_reference

  abbrev pub in_city : List Address → Option String → Shipment → Bool
  in_city addresses none s = true
  in_city addresses (some city) s =
      str_eq city "" || any (λ a. a.id == s.destination_address_id && ilike city a.city) addresses

  -- The filters that a caller chooses.
  unfoldable pub passes : (ℕ → String) → ℕ → Filters → List Address → Shipment → Bool
  passes print now f addresses s =
      is_none s.deleted_at
      && satisfies is_same f.status s.status
      && satisfies is_level f.service_level s.service_level
      && satisfies is_priority f.priority s.priority
      && matches f.origin_warehouse_id s.origin_warehouse_id
      && equals f.courier_id s.courier_id
      && equals f.created_by s.created_by
      && found_by print f.search s
      && satisfies (λ a b. leb b a) f.created_from s.created_at
      && satisfies leb f.created_to s.created_at
      && (not (wants f.overdue_only) || (is_before s.promised_delivery_at now && is_open s.status))
      && in_city addresses f.city s

  -- The two scopes.
  abbrev pub in_scope : Filters → Shipment → Bool
  in_scope f s =
      in_warehouses f.allowed_warehouse_ids s.origin_warehouse_id
      && equals f.restrict_to_courier_id s.courier_id

  -- One page, and the number of all rows.
  unfoldable pub list_shipments : (ℕ → String) → ℕ → Filters → ℕ → ℕ → Tx Db (List Shipment × ℕ)
  list_shipments print now f limit offset db =
      let rows = rows_where (λ s. passes print now f db.addresses s && in_scope f s) db.shipments in
      ok ((take limit (drop offset rows), length rows), db)
