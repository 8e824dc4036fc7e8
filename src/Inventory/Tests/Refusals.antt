-- ===== src/Inventory/Tests/Refusals.antt =====
-- Four of ten pieces are held; writing off seven is refused.
use smart_logistics.Base.{◌≡◌, refl, none, leb_ℤ, negsuc, pos, ◌+ℤ◌, false, true}
use smart_logistics.Platform.Errors.{Error, err, handled, status_code}
use smart_logistics.Inventory.Models.{adjustment}
use smart_logistics.Inventory.Stock.{StockAdjustment, adjust, manages}
use smart_logistics.Inventory.Stock.Refused.{adjust-refused}
use smart_logistics.Inventory.Tests.Samples.{holding, manager, position}

abbrev write_off : StockAdjustment
write_off = record { movement_type = adjustment; quantity_delta = negsuc 6; notes = none }

manager-manages : manages 10 manager ≡ true
unfolding manages
manager-manages = refl

too_much : leb_ℤ (pos 4) (pos 10 +ℤ negsuc 6) ≡ false
unfolding ◌+ℤ◌
too_much = refl

adjust-refused_example :
    (e : Error) × (adjust 5 write_off manager (holding none) ≡ err e)
    × (status_code (handled e) ≡ 422)
adjust-refused_example =
    adjust-refused 5 write_off manager (position 4) (holding none) refl refl manager-manages
      too_much
