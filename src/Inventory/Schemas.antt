-- ===== src/Inventory/Schemas.antt =====
-- services/inventory/src/inventory/schemas.py: the requests and results of the reservation API,
-- with the checks that the request models make.
use smart_logistics.Base.{ℕ, String, Bool, ◌&&◌, Option, List, map, leb, length, all, distinct}
use smart_logistics.Inventory.Models.{ReservationStatus}

pub record ReservationLineRequest : Type 0 where
  pub sku_id : ℕ
  pub quantity : ℕ

pub record ReservationRequest : Type 0 where
  pub shipment_id : ℕ
  pub warehouse_id : ℕ
  pub lines : List ReservationLineRequest

-- quantity in 1..100_000, 1..200 lines, and `unique_skus`
unfoldable pub accepts_request : ReservationRequest → Bool
accepts_request request =
    all (λ l. leb 1 l.quantity && leb l.quantity 100_000) request.lines
    && leb 1 (length request.lines)
    && leb (length request.lines) 200
    && distinct (map (λ l. l.sku_id) request.lines)

pub record ReservedLine : Type 0 where
  pub sku_id : ℕ
  pub quantity : ℕ
  pub sku_code : String
  pub sku_name : String
  pub unit_weight_g : ℕ
  pub unit_value : Option ℕ
  pub currency : String

pub record ReservationResult : Type 0 where
  pub shipment_id : ℕ
  pub warehouse_id : ℕ
  pub status : ReservationStatus
  pub confirmed : Bool
  pub expires_at : Option ℕ
  pub lines : List ReservedLine
