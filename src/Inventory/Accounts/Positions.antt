-- ===== src/Inventory/Accounts/Positions.antt =====
-- How each write to a position changes its accounts.
use smart_logistics.Base.{
  ℕ, ◌+◌, ◌≡◌, refl, true, List, [], ◌∷◌, ◌==◌, if◌then◌else◌, arith, ℤ, pos, ◌+ℤ◌, ◌-ℤ◌, ◌≤ℤ◌,
  int_laws, all, All, update_where,
}
use mathlib.Core.Path.{subst₂, fun_ext}
use smart_logistics.Inventory.Models.{InventoryItem, InventoryReservation, item_checks}
use smart_logistics.Inventory.Holds.{release_qty, commit_qty, reserve_qty, adjust_qty}
use smart_logistics.Inventory.Accounts.Sums.{taken}

-- The position has `r` reserved and `l` on hand, and no more is reserved than is on hand.
abbrev pub Consistent : (ℕ → ℕ) → (ℕ → ℤ) → InventoryItem → Type 0
Consistent r l item =
    (item.reserved_qty ≡ pos (r item.id))
    × (item.on_hand_qty ≡ l item.id)
    × (pos (r item.id) ≤ℤ l item.id)

pub Consistent-checks :
    (r : ℕ → ℕ) (l : ℕ → ℤ) (items : List InventoryItem)
    → All (Consistent r l) items
    → all item_checks items ≡ true
Consistent-checks r l [] c = refl
Consistent-checks r l (item ∷ items) (c, cs) = ground (arith, Consistent-checks r l items cs)

module _ (r : ℕ → ℕ) (l : ℕ → ℤ) (h : InventoryReservation) where
  pub release-Consistent :
      (items : List InventoryItem)
      → All (Consistent (λ i. taken i h + r i) l) items
      → All
          (Consistent r l)
          (update_where (λ i. i.id == h.inventory_item_id) (release_qty h.quantity) items)
  release-Consistent [] c = tt
  release-Consistent (item ∷ items) (c, cs) = (grind int_laws, release-Consistent items cs)

  pub commit-Consistent :
      (items : List InventoryItem)
      → All (Consistent (λ i. taken i h + r i) l) items
      → All
          (Consistent r (λ i. if h.inventory_item_id == i then l i -ℤ pos h.quantity else l i))
          (update_where (λ i. i.id == h.inventory_item_id) (commit_qty h.quantity) items)
  commit-Consistent [] c = tt
  commit-Consistent (item ∷ items) (c, cs) = (grind int_laws, commit-Consistent items cs)

-- The two equations alone: while a method runs, more may be reserved than is on hand.
abbrev pub Booked : (ℕ → ℕ) → (ℕ → ℤ) → InventoryItem → Type 0
Booked r l item = (item.reserved_qty ≡ pos (r item.id)) × (item.on_hand_qty ≡ l item.id)

pub Consistent-Booked :
    (r : ℕ → ℕ) (l : ℕ → ℤ) (items : List InventoryItem)
    → All (Consistent r l) items
    → All (Booked r l) items
Consistent-Booked r l [] c = tt
Consistent-Booked r l (item ∷ items) (c, cs) = ((c.0, c.1), Consistent-Booked r l items cs)

pub Booked-Consistent :
    (r : ℕ → ℕ) (l : ℕ → ℤ) (items : List InventoryItem)
    → All (Booked r l) items
    → all item_checks items ≡ true
    → All (Consistent r l) items
Booked-Consistent r l [] c k = tt
Booked-Consistent r l (item ∷ items) (c, cs) k =
    (ground arith, Booked-Consistent r l items cs (ground arith))

pub reserve-Booked :
    (r : ℕ → ℕ) (l : ℕ → ℤ) (h : InventoryReservation) (items : List InventoryItem)
    → All (Booked r l) items
    → All
        (Booked (λ i. r i + taken i h) l)
        (update_where (λ i. i.id == h.inventory_item_id) (reserve_qty h.quantity) items)
reserve-Booked r l h [] c = tt
reserve-Booked r l h (item ∷ items) (c, cs) = (grind int_laws, reserve-Booked r l h items cs)

-- An adjustment, or an opening quantity, of `delta` on position `item_id`.
pub adjust-Booked :
    (r : ℕ → ℕ) (l : ℕ → ℤ) (item_id : ℕ) (delta : ℤ) (items : List InventoryItem)
    → All (Booked r l) items
    → All
        (Booked r (λ i. if item_id == i then l i +ℤ delta else l i))
        (update_where (λ i. i.id == item_id) (adjust_qty delta) items)
adjust-Booked r l item_id delta [] c = tt
adjust-Booked r l item_id delta (item ∷ items) (c, cs) =
    (grind int_laws, adjust-Booked r l item_id delta items cs)

-- The same accounts written another way.
pub Consistent-eq :
    (r r' : ℕ → ℕ) (l l' : ℕ → ℤ) (items : List InventoryItem)
    → ((i : ℕ) → r i ≡ r' i)
    → ((i : ℕ) → l i ≡ l' i)
    → All (Consistent r l) items
    → All (Consistent r' l') items
Consistent-eq r r' l l' items er el c =
    subst₂ (λ (a : ℕ → ℕ) (b : ℕ → ℤ). All (Consistent a b) items) (fun_ext er) (fun_ext el) c

pub Booked-eq :
    (r r' : ℕ → ℕ) (l l' : ℕ → ℤ) (items : List InventoryItem)
    → ((i : ℕ) → r i ≡ r' i)
    → ((i : ℕ) → l i ≡ l' i)
    → All (Booked r l) items
    → All (Booked r' l') items
Booked-eq r r' l l' items er el c =
    subst₂ (λ (a : ℕ → ℕ) (b : ℕ → ℤ). All (Booked a b) items) (fun_ext er) (fun_ext el) c
