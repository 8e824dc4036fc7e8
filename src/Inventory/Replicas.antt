-- ===== src/Inventory/Replicas.antt =====
-- services/inventory/src/inventory/services/replicas.py: the local copy of the warehouses.
pub mod Latest
use smart_logistics.Base.{ℕ, Option, List, [], ◌∷◌, leb, ◌==◌, not, first_where, if◌then◌else◌}
use smart_logistics.Platform.Errors.{not_found, warehouse_not_operational}
use smart_logistics.Platform.Session.{Tx, ◌>>=◌, ◌>>◌, pure, modify, or_raise, raise_if}
use smart_logistics.Inventory.Models.{Db, WarehouseRef, is_operational}

-- INSERT .. ON CONFLICT (id) DO UPDATE .. WHERE source_updated_at <= excluded.source_updated_at
unfoldable pub upsert_ref : WarehouseRef → List WarehouseRef → List WarehouseRef
upsert_ref new [] = new ∷ []
upsert_ref new (old ∷ refs) =
    let rest = upsert_ref new refs in
    if old.id == new.id
    then (if leb old.source_updated_at new.source_updated_at then new else old) ∷ refs
    else old ∷ rest

-- `upsert_warehouse` on a snapshot, which names every column of the row.
unfoldable pub upsert_warehouse : WarehouseRef → Tx Db Unit
unfolding upsert_ref
upsert_warehouse snapshot =
    modify λ db. record db { warehouse_refs = upsert_ref snapshot db.warehouse_refs }

-- `session.get(WarehouseRef, warehouse_id)`
abbrev pub find_ref : ℕ → List WarehouseRef → Option WarehouseRef
find_ref warehouse_id refs = first_where (λ w. w.id == warehouse_id) refs

unfoldable pub require_operational : ℕ → Tx Db WarehouseRef
require_operational warehouse_id = do
  ref ← (λ db. or_raise (find_ref warehouse_id db.warehouse_refs) not_found db)
  raise_if (not (is_operational ref)) warehouse_not_operational
  pure ref
