-- ===== src/Inventory/Stock/Fresh.antt =====
-- Accounts of stock with a position that has no hold and no ledger entry yet.
use smart_logistics.Base.{
  ℕ, ◌<◌, ◌≡◌, ◌≢◌, refl, ◌∙◌, true, false, List, [], ◌∷◌, ◌++◌, arith, ℤ, pos, All, contains,
}
use smart_logistics.Inventory.Models.{InventoryItem, InventoryReservation, StockMovement}
use smart_logistics.Inventory.Accounts.Sums.{held_sum, ledger_sum}
use smart_logistics.Inventory.Accounts.Positions.{Booked}
use smart_logistics.Inventory.Accounts.Valid.{item_ids, EntriesOn, Below}
use smart_logistics.Inventory.Accounts.Releases.{OnPositions}

pub fresh_id : (n : ℕ) (ids : List ℕ) → Below n ids → contains ids n ≡ false
fresh_id n [] b = refl
fresh_id n (k ∷ ids) (b, bs) = ground (arith, fresh_id n ids bs)

pub held_sum-zero :
    (k : ℕ) (items : List InventoryItem) (hs : List InventoryReservation)
    → contains (item_ids items) k ≡ false
    → OnPositions items hs
    → held_sum k hs ≡ 0
held_sum-zero k items [] f on = refl
held_sum-zero k items (h ∷ hs) f (on, ons) =
    let other : h.inventory_item_id ≢ k = λ e. cc (rw e at on) in
    ground (arith, held_sum-zero k items hs f ons)

pub ledger_sum-zero :
    (k : ℕ) (ids : List ℕ) (ms : List StockMovement)
    → contains ids k ≡ false
    → EntriesOn ids ms
    → ledger_sum k ms ≡ pos 0
ledger_sum-zero k ids [] f en = refl
ledger_sum-zero k ids (m ∷ ms) f (en, ens) =
    let other : m.inventory_item_id ≢ k = λ e. cc (rw e at en) in
    ground (arith, ledger_sum-zero k ids ms f ens)

-- A new position joins the booked ones.
pub Booked-append :
    (n : ℕ) (r : ℕ → ℕ) (l l' : ℕ → ℤ) (items : List InventoryItem) (item : InventoryItem)
    → Below n (item_ids items)
    → ((i : ℕ) → i < n → l i ≡ l' i)
    → All (Booked r l) items
    → Booked r l' item
    → All (Booked r l') (items ++ item ∷ [])
Booked-append n r l l' [] item b same bk new = (new, tt)
Booked-append n r l l' (x ∷ items) item (b, bs) same (bk, bks) new =
    ((bk.0, bk.1 ∙ same x.id b), Booked-append n r l l' items item bs same bks new)

contains-append :
    (items : List InventoryItem) (item : InventoryItem) (k : ℕ)
    → contains (item_ids items) k ≡ true
    → contains (item_ids (items ++ item ∷ [])) k ≡ true
contains-append [] item k h = absurd (cc h)
contains-append (x ∷ items) item k h = ground (arith, contains-append items item k)

pub contains-last :
    (items : List InventoryItem) (item : InventoryItem)
    → contains (item_ids (items ++ item ∷ [])) item.id ≡ true
contains-last [] item = ground arith
contains-last (x ∷ items) item = ground (arith, contains-last items item)

pub OnPositions-more :
    (items : List InventoryItem) (item : InventoryItem) (hs : List InventoryReservation)
    → OnPositions items hs
    → OnPositions (items ++ item ∷ []) hs
OnPositions-more items item [] on = tt
OnPositions-more items item (h ∷ hs) (on, ons) =
    (contains-append items item h.inventory_item_id on, OnPositions-more items item hs ons)

pub EntriesOn-more :
    (items : List InventoryItem) (item : InventoryItem) (ms : List StockMovement)
    → EntriesOn (item_ids items) ms
    → EntriesOn (item_ids (items ++ item ∷ [])) ms
EntriesOn-more items item [] en = tt
EntriesOn-more items item (m ∷ ms) (en, ens) =
    (contains-append items item m.inventory_item_id en, EntriesOn-more items item ms ens)

pub Below-append :
    (n : ℕ) (items : List InventoryItem) (item : InventoryItem)
    → Below n (item_ids items)
    → item.id < n
    → Below n (item_ids (items ++ item ∷ []))
Below-append n [] item b h = (h, tt)
Below-append n (x ∷ items) item (b, bs) h = (b, Below-append n items item bs h)
