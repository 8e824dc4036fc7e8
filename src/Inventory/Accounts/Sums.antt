-- ===== src/Inventory/Accounts/Sums.antt =====
-- The quantity of the open holds on a position, and the sum of its ledger entries.
use smart_logistics.Base.{
  ℕ, ◌+◌, ◌≡◌, Bool, true, false, List, [], ◌∷◌, ◌++◌, ◌==◌, if◌then◌else◌, arith, Bool-cases, inl,
  inr, ℤ, pos, ◌+ℤ◌, int_laws, sum_by, rows_where, update_where,
}
use smart_logistics.Inventory.Models.{InventoryReservation, StockMovement, held, is_status}

-- What a hold takes of position i, whatever its status.
abbrev pub taken : ℕ → InventoryReservation → ℕ
taken i h = if h.inventory_item_id == i then h.quantity else 0

-- What it takes while it is held.
abbrev pub held_qty : ℕ → InventoryReservation → ℕ
held_qty i h = if is_status h.status held then taken i h else 0

abbrev pub taken_sum : ℕ → List InventoryReservation → ℕ
taken_sum i = sum_by (taken i)

abbrev pub held_sum : ℕ → List InventoryReservation → ℕ
held_sum i = sum_by (held_qty i)

abbrev pub ledger_sum : ℕ → List StockMovement → ℤ
ledger_sum i [] = pos 0
ledger_sum i (m ∷ ms) =
    let rest = ledger_sum i ms in
    if m.inventory_item_id == i then m.quantity_delta +ℤ rest else rest

module _ (i : ℕ) where
  pub held_sum-append :
      (xs ys : List InventoryReservation) → held_sum i (xs ++ ys) ≡ held_sum i xs + held_sum i ys
  held_sum-append [] ys = omega arith
  held_sum-append (x ∷ xs) ys = omega (arith, held_sum-append xs ys)

  pub ledger_sum-append :
      (xs : List StockMovement) (m : StockMovement)
      → ledger_sum i (xs ++ m ∷ []) ≡ (
          if m.inventory_item_id == i then ledger_sum i xs +ℤ m.quantity_delta else ledger_sum i xs)
  ledger_sum-append [] m = grind int_laws
  ledger_sum-append (x ∷ xs) m = grind (int_laws, ledger_sum-append xs m)

  -- Closing the selected holds lowers the sum by what they take.
  pub held_sum-close :
      (p : InventoryReservation → Bool) (f : InventoryReservation → InventoryReservation)
      → ((h : InventoryReservation)
          → p h ≡ true
          → (is_status h.status held ≡ true) × (is_status (f h).status held ≡ false))
      → (hs : List InventoryReservation)
      → held_sum i hs ≡ held_sum i (update_where p f hs) + taken_sum i (rows_where p hs)
  held_sum-close p f closes [] = omega arith
  held_sum-close p f closes (h ∷ hs) = elim (Bool-cases (p h)) [
    | inl e ↦ simp (e, (closes h e).0, (closes h e).1) (omega (arith, held_sum-close p f closes hs))
    | inr e ↦ simp e (omega (arith, held_sum-close p f closes hs))
  ]

  -- A change of other columns leaves the sum as it is.
  pub held_sum-keep :
      (p : InventoryReservation → Bool) (f : InventoryReservation → InventoryReservation)
      → ((h : InventoryReservation) → held_qty i (f h) ≡ held_qty i h)
      → (hs : List InventoryReservation) → held_sum i (update_where p f hs) ≡ held_sum i hs
  held_sum-keep p f keeps [] = omega arith
  held_sum-keep p f keeps (h ∷ hs) = elim (Bool-cases (p h)) [
    | inl e ↦ simp (e, keeps h) (omega (arith, held_sum-keep p f keeps hs))
    | inr e ↦ simp e (omega (arith, held_sum-keep p f keeps hs))
  ]
