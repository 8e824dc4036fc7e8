-- ===== src/Inventory/Replicas/Latest.antt =====
-- The replica of a warehouse after snapshots in any order, some of them more than once:
-- `upsert_warehouse` of services/inventory/src/inventory/services/replicas.py.
use smart_logistics.Base.{
  ℕ, ◌≤◌, ◌<◌, ◌≡◌, ◌⊎◌, refl, sym, ap, ◌∙◌, false, Option, none, some, List, [], ◌∷◌, arith, leb,
  ◌==◌, ==_iff, ==_refl, if◌then◌else◌, All, Bool-cases, inl, inr,
}
use mathlib.Core.Path.{subst}
use smart_logistics.Inventory.Models.{WarehouseRef}
use smart_logistics.Inventory.Replicas.{upsert_ref, find_ref}

-- Snapshots, one after the other.
abbrev pub deliver_all : List WarehouseRef → List WarehouseRef → List WarehouseRef
deliver_all [] refs = refs
deliver_all (s ∷ rest) refs = deliver_all rest (upsert_ref s refs)

-- What a snapshot makes of the row of its warehouse.
abbrev merged : WarehouseRef → Option WarehouseRef → WarehouseRef
merged s none = s
merged s (some old) = if leb old.source_updated_at s.source_updated_at then s else old

find-upsert_other :
    (k : ℕ) (s : WarehouseRef) (refs : List WarehouseRef)
    → (s.id == k) ≡ false
    → find_ref k (upsert_ref s refs) ≡ find_ref k refs
unfolding upsert_ref
find-upsert_other k s [] e = rw e refl
find-upsert_other k s (old ∷ refs) e = ground (arith, find-upsert_other k s refs)

find-upsert_self :
    (s : WarehouseRef) (refs : List WarehouseRef)
    → find_ref s.id (upsert_ref s refs) ≡ some (merged s (find_ref s.id refs))
unfolding upsert_ref
find-upsert_self s [] = rw (==_refl s.id) refl
find-upsert_self s (old ∷ refs) = elim (Bool-cases (old.id == s.id)) [
  | inr apart ↦ rw apart (rw apart (find-upsert_self s refs))
  | inl same ↦ rw same (elim (Bool-cases (leb old.source_updated_at s.source_updated_at)) [
    | inl newer ↦ rw (newer, ==_refl s.id) refl
    | inr older ↦ rw (older, same) refl
  ])
]

find-upsert :
    (k : ℕ) (s : WarehouseRef) (refs : List WarehouseRef)
    → s.id ≡ k
    → find_ref k (upsert_ref s refs) ≡ some (merged s (find_ref k refs))
find-upsert k s refs e =
    subst (λ (j : ℕ). find_ref j (upsert_ref s refs) ≡ some (merged s (find_ref j refs))) e
      (find-upsert_self s refs)

-- The row of a warehouse is not newer than `w`, or there is none.
abbrev pub NotNewer : WarehouseRef → Option WarehouseRef → Type 0
NotNewer w none = Unit
NotNewer w (some r) = r.source_updated_at ≤ w.source_updated_at

-- A snapshot of another warehouse, an older one, or `w` itself.
abbrev pub IsBefore : WarehouseRef → WarehouseRef → Type 0
IsBefore w s = ((s.id == w.id) ≡ false) ⊎ (s.source_updated_at < w.source_updated_at) ⊎ (s ≡ w)

-- `w` is one of them.
abbrev pub IsAmong : WarehouseRef → List WarehouseRef → Type 0
IsAmong w [] = ⊥
IsAmong w (s ∷ rest) = (s ≡ w) ⊎ IsAmong w rest

merged_latest :
    (w s : WarehouseRef)
    → (s.source_updated_at < w.source_updated_at) ⊎ (s ≡ w)
    → merged s (some w) ≡ w
merged_latest w s (inl older) = ground arith
merged_latest w s (inr same) = ground arith

merged_self : (w : WarehouseRef) (o : Option WarehouseRef) → NotNewer w o → merged w o ≡ w
merged_self w none n = refl
merged_self w (some r) n = ground arith

merged-NotNewer :
    (w s : WarehouseRef) (o : Option WarehouseRef)
    → s.source_updated_at < w.source_updated_at
    → NotNewer w o
    → NotNewer w (some (merged s o))
merged-NotNewer w s none older n = omega arith
merged-NotNewer w s (some r) older n = ground arith

module _ (w : WarehouseRef) where
  keeps_latest :
      (s : WarehouseRef) (refs : List WarehouseRef)
      → IsBefore w s
      → find_ref w.id refs ≡ some w
      → find_ref w.id (upsert_ref s refs) ≡ some w
  keeps_latest s refs (inl apart) found = find-upsert_other w.id s refs apart ∙ found
  keeps_latest s refs (inr before) found = elim (Bool-cases (s.id == w.id)) [
    | inr apart ↦ find-upsert_other w.id s refs apart ∙ found
    | inl same ↦
        find-upsert w.id s refs ((==_iff s.id w.id).0 same)
        ∙ rw found (ap (λ (r : WarehouseRef). some r) (merged_latest w s before))
  ]

  still_latest :
      (list refs : List WarehouseRef)
      → All (IsBefore w) list
      → find_ref w.id refs ≡ some w
      → find_ref w.id (deliver_all list refs) ≡ some w
  still_latest [] refs all found = found
  still_latest (s ∷ rest) refs (b, all) found =
      still_latest rest (upsert_ref s refs) all (keeps_latest s refs b found)

  keeps-NotNewer :
      (s : WarehouseRef) (refs : List WarehouseRef)
      → ((s.id == w.id) ≡ false) ⊎ (s.source_updated_at < w.source_updated_at)
      → NotNewer w (find_ref w.id refs)
      → NotNewer w (find_ref w.id (upsert_ref s refs))
  keeps-NotNewer s refs (inl apart) n =
      subst (NotNewer w) (sym (find-upsert_other w.id s refs apart)) n
  keeps-NotNewer s refs (inr older) n = elim (Bool-cases (s.id == w.id)) [
    | inr apart ↦ subst (NotNewer w) (sym (find-upsert_other w.id s refs apart)) n
    | inl same ↦
        subst (NotNewer w) (sym (find-upsert w.id s refs ((==_iff s.id w.id).0 same)))
          (merged-NotNewer w s (find_ref w.id refs) older n)
  ]

  becomes_latest :
      (s : WarehouseRef) (refs : List WarehouseRef)
      → s ≡ w
      → NotNewer w (find_ref w.id refs)
      → find_ref w.id (upsert_ref s refs) ≡ some w
  becomes_latest s refs same n =
      subst (λ (x : WarehouseRef). find_ref w.id (upsert_ref x refs) ≡ some w) (sym same)
        (find-upsert w.id w refs refl
          ∙ ap (λ (r : WarehouseRef). some r) (merged_self w (find_ref w.id refs) n))

  -- The replica forgets the order of the snapshots: whatever snapshots are delivered, in whatever
  -- order and however often, if `w` is among them, every other one of the same warehouse is older,
  -- and the row that was there is not newer, the row is `w`.
  pub replica_latest :
      (list refs : List WarehouseRef)
      → IsAmong w list
      → All (IsBefore w) list
      → NotNewer w (find_ref w.id refs)
      → find_ref w.id (deliver_all list refs) ≡ some w
  replica_latest [] refs among all n = absurd among
  replica_latest (s ∷ rest) refs (inl same) (b, all) n =
      still_latest rest (upsert_ref s refs) all (becomes_latest s refs same n)
  replica_latest (s ∷ rest) refs (inr among) (inl apart, all) n =
      replica_latest rest (upsert_ref s refs) among all (keeps-NotNewer s refs (inl apart) n)
  replica_latest (s ∷ rest) refs (inr among) (inr (inl older), all) n =
      replica_latest rest (upsert_ref s refs) among all (keeps-NotNewer s refs (inr older) n)
  replica_latest (s ∷ rest) refs (inr among) (inr (inr same), all) n =
      still_latest rest (upsert_ref s refs) all (becomes_latest s refs same n)
