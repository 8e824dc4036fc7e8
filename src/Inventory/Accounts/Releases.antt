-- ===== src/Inventory/Accounts/Releases.antt =====
-- The loop over holds in `release` (services/inventory/src/inventory/services/reservations.py).
use smart_logistics.Base.{
  ℕ, ◌+◌, ◌≡◌, ◌∙◌, refl, true, some, List, [], ◌∷◌, ◌==◌, arith, ℤ, All, first_where, update_where,
  contains, Bool-cases, inl, inr,
}
use smart_logistics.Platform.Errors.{ok}
use smart_logistics.Platform.Session.{Tx}
use smart_logistics.Inventory.Models.{Db, InventoryItem, InventoryReservation, item_keys}
use smart_logistics.Inventory.Holds.{modify_item, for_each, release_qty, release_position}
use smart_logistics.Inventory.Accounts.Sums.{taken_sum}
use smart_logistics.Inventory.Accounts.Positions.{Consistent, release-Consistent, Consistent-eq}
use smart_logistics.Inventory.Accounts.Valid.{item_ids}

pub for_each-ok :
    {A : Type 0} (body : A → Tx Db Unit) (x : A) (xs : List A) (db db' : Db)
    → body x db ≡ ok (tt, db')
    → for_each body (x ∷ xs) db ≡ for_each body xs db'
unfolding for_each
for_each-ok body x xs db db' e = rw (e, for_each)

-- A position whose id is known is found.
pub first_where-contains :
    (k : ℕ) (items : List InventoryItem)
    → contains (item_ids items) k ≡ true
    → (item : InventoryItem) × (first_where (λ i. i.id == k) items ≡ some item) × (item.id ≡ k)
first_where-contains k [] h = cc
first_where-contains k (item ∷ items) h = elim (Bool-cases (item.id == k)) [
  | inl e ↦ (item, ground arith, ground arith)
  | inr e ↦
      let (found, p, q) = first_where-contains k items (ground arith) in (found, ground arith, q)
]

-- A write that keeps the id, the warehouse and the SKU of a row keeps the keys of the table.
module _ (k : ℕ) (f : InventoryItem → InventoryItem) where
  pub item_ids-update :
      ((i : InventoryItem) → (f i).id ≡ i.id)
      → (items : List InventoryItem)
      → item_ids (update_where (λ i. i.id == k) f items) ≡ item_ids items
  item_ids-update same [] = refl
  item_ids-update same (item ∷ items) = ground (arith, same item, item_ids-update same items)

  pub item_keys-update :
      ((i : InventoryItem) → (f i).warehouse_id ≡ i.warehouse_id)
      → ((i : InventoryItem) → (f i).sku_id ≡ i.sku_id)
      → (items : List InventoryItem)
      → item_keys (update_where (λ i. i.id == k) f items) ≡ item_keys items
  item_keys-update same_w same_s [] = refl
  item_keys-update same_w same_s (item ∷ items) =
      ground (arith, same_w item, same_s item, item_keys-update same_w same_s items)

abbrev pub OnPositions : List InventoryItem → List InventoryReservation → Type 0
OnPositions items =
    All (λ (r : InventoryReservation). contains (item_ids items) r.inventory_item_id ≡ true)

pub OnPositions-eq :
    (items items' : List InventoryItem) (hs : List InventoryReservation)
    → item_ids items' ≡ item_ids items
    → OnPositions items hs
    → OnPositions items' hs
OnPositions-eq items items' [] e on = tt
OnPositions-eq items items' (h ∷ hs) e (on, ons) = (rw e on, OnPositions-eq items items' hs e ons)

-- What the release loop leaves.
pub record Released (r : ℕ → ℕ) (l : ℕ → ℤ) (before after : List InventoryItem) : Type 0 where
  pub positions : All (Consistent r l) after
  pub ids : item_ids after ≡ item_ids before
  pub keys : item_keys after ≡ item_keys before

release_position-step :
    (h : InventoryReservation) (db : Db)
    → contains (item_ids db.items) h.inventory_item_id ≡ true
    → release_position h db
      ≡ ok (
        tt,
        record db {
          items = update_where (λ i. i.id == h.inventory_item_id) (release_qty h.quantity) db.items;
        },
      )
unfolding release_position modify_item
release_position-step h db on =
    let (item, found, same) = first_where-contains h.inventory_item_id db.items on in
    ground (arith, found)

pub release_loop :
    (r : ℕ → ℕ) (l : ℕ → ℤ) (hs : List InventoryReservation) (db : Db)
    → All (Consistent (λ i. taken_sum i hs + r i) l) db.items
    → OnPositions db.items hs
    → (items' : List InventoryItem) × (for_each release_position hs db
        ≡ ok (tt, record db { items = items' }))
      × Released r l db.items items'
unfolding for_each
release_loop r l [] db c on = (
  db.items,
  refl,
  record {
    positions = Consistent-eq _ _ l l db.items (λ i. omega arith) (λ i. refl) c;
    ids = refl;
    keys = refl;
  },
)
release_loop r l (h ∷ hs) db c (on, ons) =
    let q : ℕ → ℕ = λ i. taken_sum i hs + r i in
    let items1 =
      update_where (λ i. i.id == h.inventory_item_id) (release_qty h.quantity) db.items in
    let ids1 : item_ids items1 ≡ item_ids db.items =
      item_ids-update h.inventory_item_id (release_qty h.quantity) (λ i. refl) db.items in
    let keys1 : item_keys items1 ≡ item_keys db.items =
      item_keys-update h.inventory_item_id (release_qty h.quantity) (λ i. refl) (λ i. refl)
        db.items in
    let c1 : All (Consistent q l) items1 =
      release-Consistent q l h db.items
        (Consistent-eq _ _ l l db.items (λ i. omega arith) (λ i. refl) c) in
    let (items', run, rel) =
      release_loop r l hs (record db { items = items1 }) c1
        (OnPositions-eq db.items items1 hs ids1 ons) in
    (
      items',
      for_each-ok release_position h hs db _ (release_position-step h db on) ∙ run,
      record { positions = rel.positions; ids = rel.ids ∙ ids1; keys = rel.keys ∙ keys1 },
    )
