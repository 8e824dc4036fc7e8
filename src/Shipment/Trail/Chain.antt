-- ===== src/Shipment/Trail/Chain.antt =====
-- A history as a chain of transitions (services/shipment/src/shipment/models.py,
-- ShipmentStatusHistory).
use smart_logistics.Base.{
  contains-last, ℕ, ◌≡◌, refl, sym, ◌∙◌, true, false, Option, none, some, List, [], ◌∷◌, ◌++◌,
  arith, ◌==◌, ==_iff, contains, distinct, All, Bool-cases, inl, inr,
}
use smart_logistics.Shipment.StateMachine.{ShipmentStatus, created, can_transition}
use smart_logistics.Shipment.Models.{ShipmentStatusHistory}
use smart_logistics.Shipment.Repository.{history_of}

-- A shipment starts as `created`, and moves by the state machine.
abbrev pub Allowed : Option ShipmentStatus → ShipmentStatus → Type 0
Allowed none t = t ≡ created
Allowed (some s) t = can_transition s t ≡ true

-- These rows lead from one status to the other.
abbrev pub Follows :
    Option ShipmentStatus → List ShipmentStatusHistory → Option ShipmentStatus → Type 0
Follows from [] to = from ≡ to
Follows from (h ∷ rows) to =
    (h.from_status ≡ from) × Allowed from h.to_status × Follows (some h.to_status) rows to

pub Follows-append :
    (from to : Option ShipmentStatus) (rows : List ShipmentStatusHistory)
    (h : ShipmentStatusHistory)
    → Follows from rows to
    → h.from_status ≡ to
    → Allowed to h.to_status
    → Follows from (rows ++ h ∷ []) (some h.to_status)
Follows-append from to [] h e f a = (f ∙ sym e, rw e a, refl)
Follows-append from to (k ∷ rows) h (e, b, rest) f a =
    (e, b, Follows-append (some k.to_status) to rows h rest f a)

-- The history of another shipment, and of the same, once a row is added.
pub history_of-other :
    (shipment_id : ℕ) (rows : List ShipmentStatusHistory) (h : ShipmentStatusHistory)
    → (h.shipment_id == shipment_id) ≡ false
    → history_of shipment_id (rows ++ h ∷ []) ≡ history_of shipment_id rows
history_of-other shipment_id [] h e = rw e refl
history_of-other shipment_id (k ∷ rows) h e = rw (history_of-other shipment_id rows h e) refl

pub history_of-same :
    (rows : List ShipmentStatusHistory) (h : ShipmentStatusHistory)
    → history_of h.shipment_id (rows ++ h ∷ []) ≡ history_of h.shipment_id rows ++ h ∷ []
history_of-same [] h = ground arith
history_of-same (k ∷ rows) h = elim (Bool-cases (k.shipment_id == h.shipment_id)) [
  | inl e ↦ rw (e, history_of-same rows h) refl
  | inr e ↦ rw (e, history_of-same rows h) refl
]

-- Every row of the trail is of one of these shipments.
abbrev pub RefersTo : List ℕ → List ShipmentStatusHistory → Type 0
RefersTo ids = All (λ (h : ShipmentStatusHistory). contains ids h.shipment_id ≡ true)

pub history_of-none :
    (ids : List ℕ) (shipment_id : ℕ) (rows : List ShipmentStatusHistory)
    → RefersTo ids rows
    → contains ids shipment_id ≡ false
    → history_of shipment_id rows ≡ []
history_of-none ids shipment_id [] r c = refl
history_of-none ids shipment_id (h ∷ rows) (k, r) c =
    elim (Bool-cases (h.shipment_id == shipment_id)) [
      | inl e ↦ absurd (cc (k, c, (==_iff h.shipment_id shipment_id).0 e))
      | inr e ↦ rw (e, history_of-none ids shipment_id rows r c) refl
    ]

pub RefersTo-append :
    (ids : List ℕ) (rows : List ShipmentStatusHistory) (h : ShipmentStatusHistory)
    → RefersTo ids rows
    → contains ids h.shipment_id ≡ true
    → RefersTo ids (rows ++ h ∷ [])
RefersTo-append ids [] h r c = (c, tt)
RefersTo-append ids (k ∷ rows) h (e, r) c = (e, RefersTo-append ids rows h r c)

contains-append :
    (ids : List ℕ) (k m : ℕ) → contains ids k ≡ true → contains (ids ++ m ∷ []) k ≡ true
contains-append [] k m c = absurd (cc c)
contains-append (i ∷ ids) k m c = ground (arith, contains-append ids k m)

pub RefersTo-more :
    (ids : List ℕ) (m : ℕ) (rows : List ShipmentStatusHistory)
    → RefersTo ids rows
    → RefersTo (ids ++ m ∷ []) rows
RefersTo-more ids m [] r = tt
RefersTo-more ids m (h ∷ rows) (c, r) =
    (contains-append ids h.shipment_id m c, RefersTo-more ids m rows r)

-- An id that was added to distinct ones is new.
pub distinct-last :
    (ids : List ℕ) (m : ℕ) → distinct (ids ++ m ∷ []) ≡ true → contains ids m ≡ false
distinct-last [] m d = refl
distinct-last (i ∷ ids) m d = elim (Bool-cases (contains (ids ++ m ∷ []) i)) [
  | inl c ↦ absurd (cc (rw c at d))
  | inr c ↦ elim (Bool-cases (m == i)) [
    | inl e ↦ absurd (cc (contains-last ids m, c, (==_iff m i).0 e))
    | inr e ↦ rw (e, distinct-last ids m (rw c at d)) refl
  ]
]
