-- ===== src/Inventory/Reserve/Replays.antt =====
-- A `reserve` for a shipment that has holds.
use smart_logistics.Base.{List, rows_where, contains, map}
use smart_logistics.Inventory.Models.{Db, Sku, InventoryReservation}

-- The SKUs of these holds, deleted and inactive ones too.
abbrev pub skus_of : List InventoryReservation → Db → List Sku
skus_of hs db = rows_where (λ s. contains (map (λ r. r.sku_id) hs) s.id) db.skus
