-- ===== src/Shipment/Trail/Rows.antt =====
-- The trails of all rows, and what a written or an added row does to them.
use smart_logistics.Base.{
  distinct_tail, ℕ, ◌≡◌, refl, sym, ap, true, false, Option, none, some, List, [], ◌∷◌, ◌++◌, arith,
  ◌==◌, ==_iff, ==_refl, if◌then◌else◌, update_where, first_where, contains, distinct, All,
  Bool-cases, inl, inr,
}
use mathlib.Core.Path.{subst}
use smart_logistics.Shipment.Models.{Shipment, ShipmentStatusHistory, shipment_ids}
use smart_logistics.Shipment.Repository.{history_of, is_version_of}
use smart_logistics.Shipment.Service.Steps.{is_live}
use smart_logistics.Shipment.Trail.Chain.{Follows}

abbrev pub Trails : List ShipmentStatusHistory → List Shipment → Type 0
Trails trail = All (λ (s : Shipment). Follows none (history_of s.id trail) (some s.status))

-- The rows with this id are this row.
abbrev pub OnlyRow : Shipment → List Shipment → Type 0
OnlyRow read = All (λ (s : Shipment). (s.id == read.id) ≡ true → s ≡ read)

none_of_id :
    (read : Shipment) (rows : List Shipment)
    → contains (shipment_ids rows) read.id ≡ false
    → OnlyRow read rows
none_of_id read [] c = tt
none_of_id read (s ∷ rows) c = elim (Bool-cases (read.id == s.id)) [
  | inl e ↦ absurd (cc (rw e at c))
  | inr e ↦ (λ f. absurd (cc (e, (==_iff s.id read.id).0 f)), none_of_id read rows (rw e at c))
]

pub live_first :
    (shipment_id : ℕ) (read s : Shipment) (rows : List Shipment)
    → is_live shipment_id s ≡ true
    → first_where (is_live shipment_id) (s ∷ rows) ≡ some read
    → s ≡ read
live_first shipment_id read s rows live e =
    ap (λ (o : Option Shipment). elim o [ none ↦ s | some r ↦ r ]) (rw live at e)

pub found-contains :
    (shipment_id : ℕ) (read : Shipment) (rows : List Shipment)
    → first_where (is_live shipment_id) rows ≡ some read
    → contains (shipment_ids rows) read.id ≡ true
found-contains shipment_id read [] e = absurd (cc e)
found-contains shipment_id read (s ∷ rows) e = elim (Bool-cases (is_live shipment_id s)) [
  | inl live ↦
      subst (λ (r : Shipment). contains (shipment_ids (s ∷ rows)) r.id ≡ true)
        (live_first shipment_id read s rows live e) (ground arith)
  | inr dead ↦ rw (found-contains shipment_id read rows (rw dead at e)) (ground arith)
]

-- The trail of the row that a read finds.
pub found-Trails :
    (shipment_id : ℕ) (read : Shipment) (trail : List ShipmentStatusHistory) (rows : List Shipment)
    → first_where (is_live shipment_id) rows ≡ some read
    → Trails trail rows
    → Follows none (history_of read.id trail) (some read.status)
found-Trails shipment_id read trail [] e ts = absurd (cc e)
found-Trails shipment_id read trail (s ∷ rows) e (t, ts) =
    elim (Bool-cases (is_live shipment_id s)) [
      | inl live ↦
          subst (λ (r : Shipment). Follows none (history_of r.id trail) (some r.status))
            (live_first shipment_id read s rows live e) t
      | inr dead ↦ found-Trails shipment_id read trail rows (rw dead at e) ts
    ]

pub found-OnlyRow :
    (shipment_id : ℕ) (read : Shipment) (rows : List Shipment)
    → distinct (shipment_ids rows) ≡ true
    → first_where (is_live shipment_id) rows ≡ some read
    → OnlyRow read rows
found-OnlyRow shipment_id read [] d e = tt
found-OnlyRow shipment_id read (s ∷ rows) d e =
    let (c, d') = distinct_tail s.id (shipment_ids rows) d in
    elim (Bool-cases (is_live shipment_id s)) [
      | inl live ↦
          let same = live_first shipment_id read s rows live e in
          (
            λ _. same,
            none_of_id read rows
                (subst (λ (r : Shipment). contains (shipment_ids rows) r.id ≡ false) same c),
          )
      | inr dead ↦
          let there = found-contains shipment_id read rows (rw dead at e) in
          (
            λ f. absurd (cc (c, there, (==_iff s.id read.id).0 f)),
            found-OnlyRow shipment_id read rows d' (rw dead at e),
          )
    ]

differs : (a b : ℕ) → (b == a) ≡ false → (a == b) ≡ false
differs a b h = ground arith

-- A row that was written over the one of its id and version, with the trail as it is then.
pub written-Trails :
    (read new : Shipment) (trail trail' : List ShipmentStatusHistory) (rows : List Shipment)
    → new.id ≡ read.id
    → ((k : ℕ) → (read.id == k) ≡ false → history_of k trail' ≡ history_of k trail)
    → Follows none (history_of read.id trail') (some new.status)
    → OnlyRow read rows
    → Trails trail rows
    → Trails trail' (update_where (is_version_of read) (λ s. new) rows)
written-Trails read new trail trail' [] e other chain only t = tt
written-Trails read new trail trail' (s ∷ rows) e other chain (is_read, only) (t, ts) = (
  elim (Bool-cases (s.id == read.id)) [
    | inl same ↦
        subst
          (λ (r : Shipment).
            Follows none (history_of (if is_version_of read r then new else r).id trail')
              (some (if is_version_of read r then new else r).status))
          (sym (is_read same)) (rw (==_refl read.id, ==_refl read.version, e) chain)
    | inr differ ↦ rw (differ, other s.id (differs read.id s.id differ)) t
  ],
  written-Trails read new trail trail' rows e other chain only ts,
)

pub written-ids :
    (read new : Shipment) (rows : List Shipment)
    → new.id ≡ read.id
    → shipment_ids (update_where (is_version_of read) (λ s. new) rows) ≡ shipment_ids rows
written-ids read new [] e = refl
written-ids read new (s ∷ rows) e = ground (arith, written-ids read new rows e)

-- A row that was added, with the first row of its trail.
pub added-Trails :
    (new : Shipment) (trail trail' : List ShipmentStatusHistory) (rows : List Shipment)
    → contains (shipment_ids rows) new.id ≡ false
    → ((k : ℕ) → (new.id == k) ≡ false → history_of k trail' ≡ history_of k trail)
    → Follows none (history_of new.id trail') (some new.status)
    → Trails trail rows
    → Trails trail' (rows ++ new ∷ [])
added-Trails new trail trail' [] c other chain t = (chain, tt)
added-Trails new trail trail' (s ∷ rows) c other chain (t, ts) =
    elim (Bool-cases (new.id == s.id)) [
      | inl e ↦ absurd (cc (rw e at c))
      | inr e ↦ (rw (other s.id e) t, added-Trails new trail trail' rows (rw e at c) other chain ts)
    ]

pub added-ids :
    (new : Shipment) (rows : List Shipment)
    → shipment_ids (rows ++ new ∷ []) ≡ shipment_ids rows ++ new.id ∷ []
added-ids new [] = refl
added-ids new (s ∷ rows) = rw (added-ids new rows) refl
