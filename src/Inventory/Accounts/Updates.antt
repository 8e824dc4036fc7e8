-- ===== src/Inventory/Accounts/Updates.antt =====
-- What an update of hold rows keeps, for any selection of rows and any write to them.
use smart_logistics.Base.{
  ◌≡◌, refl, ap, Bool, true, false, List, [], ◌∷◌, arith, Bool-cases, inl, inr, all, rows_where,
  update_where, &&_left, &&_right, &&_intro,
}
use smart_logistics.Inventory.Models.{
  Db, InventoryItem, InventoryReservation, reservation_checks, reservation_keys, item_keys,
  unique_constraints,
}
use smart_logistics.Inventory.Accounts.Releases.{OnPositions}

module _ (p : InventoryReservation → Bool) where
  pub OnPositions-rows_where :
      (items : List InventoryItem) (hs : List InventoryReservation)
      → OnPositions items hs
      → OnPositions items (rows_where p hs)
  OnPositions-rows_where items [] on = tt
  OnPositions-rows_where items (h ∷ hs) (on, ons) = elim (Bool-cases (p h)) [
    | inl e ↦ rw e (on, OnPositions-rows_where items hs ons)
    | inr e ↦ rw e (OnPositions-rows_where items hs ons)
  ]

  pub checks-rows_where :
      (hs : List InventoryReservation)
      → all reservation_checks hs ≡ true
      → all reservation_checks (rows_where p hs) ≡ true
  checks-rows_where [] k = refl
  checks-rows_where (h ∷ hs) k = elim (Bool-cases (p h)) [
    | inl e ↦ rw e (&&_intro _ _ (&&_left _ _ k) (checks-rows_where hs (&&_right _ _ k)))
    | inr e ↦ rw e (checks-rows_where hs (&&_right _ _ k))
  ]

  module _ (f : InventoryReservation → InventoryReservation) where
    pub OnPositions-update :
        ((h : InventoryReservation) → (f h).inventory_item_id ≡ h.inventory_item_id)
        → (items : List InventoryItem) (hs : List InventoryReservation) → OnPositions items hs
        → OnPositions items (update_where p f hs)
    OnPositions-update same items [] on = tt
    OnPositions-update same items (h ∷ hs) (on, ons) = elim (Bool-cases (p h)) [
      | inl e ↦ rw (e, same h) (on, OnPositions-update same items hs ons)
      | inr e ↦ rw e (on, OnPositions-update same items hs ons)
    ]

    pub checks-update :
        ((h : InventoryReservation)
          → p h ≡ true
          → reservation_checks h ≡ true
          → reservation_checks (f h) ≡ true)
        → (hs : List InventoryReservation) → all reservation_checks hs ≡ true
        → all reservation_checks (update_where p f hs) ≡ true
    checks-update keep [] k = refl
    checks-update keep (h ∷ hs) k = elim (Bool-cases (p h)) [
      | inl e ↦
          rw e (&&_intro _ _ (keep h e (&&_left _ _ k)) (checks-update keep hs (&&_right _ _ k)))
      | inr e ↦ rw e (&&_intro _ _ (&&_left _ _ k) (checks-update keep hs (&&_right _ _ k)))
    ]

    pub keys-update :
        ((h : InventoryReservation) → (f h).shipment_id ≡ h.shipment_id)
        → ((h : InventoryReservation) → (f h).sku_id ≡ h.sku_id)
        → (hs : List InventoryReservation)
        → reservation_keys (update_where p f hs) ≡ reservation_keys hs
    keys-update same_shipment same_sku [] = refl
    keys-update same_shipment same_sku (h ∷ hs) = elim (Bool-cases (p h)) [
      | inl e ↦
          rw e (ground (arith, same_shipment h, same_sku h, keys-update same_shipment same_sku hs))
      | inr e ↦ rw e (ground (arith, keys-update same_shipment same_sku hs))
    ]

-- The unique constraints see the keys alone.
pub unique-eq :
    (db db' : Db)
    → item_keys db'.items ≡ item_keys db.items
    → reservation_keys db'.reservations ≡ reservation_keys db.reservations
    → unique_constraints db ≡ true
    → unique_constraints db' ≡ true
unfolding unique_constraints
unique-eq db db' ei er u = rw (ei, er) u

-- An update that selects nothing changes nothing.
pub update-none :
    (p : InventoryReservation → Bool) (f : InventoryReservation → InventoryReservation)
    (hs : List InventoryReservation)
    → rows_where p hs ≡ []
    → update_where p f hs ≡ hs
update-none p f [] e = refl
update-none p f (h ∷ hs) e = elim (Bool-cases (p h)) [
  | inl e' ↦ absurd (cc (rw e' at e))
  | inr e' ↦ rw e' (ap (λ (t : List InventoryReservation). h ∷ t) (update-none p f hs (rw e' at e)))
]

-- After a write that takes a row out of the selection, nothing is selected.
pub rows_where-update :
    (p : InventoryReservation → Bool) (f : InventoryReservation → InventoryReservation)
    → ((h : InventoryReservation) → p (f h) ≡ false)
    → (hs : List InventoryReservation) → rows_where p (update_where p f hs) ≡ []
rows_where-update p f out [] = refl
rows_where-update p f out (h ∷ hs) = elim (Bool-cases (p h)) [
  | inl e ↦ simp (e, out h) (rows_where-update p f out hs)
  | inr e ↦ simp e (rows_where-update p f out hs)
]
