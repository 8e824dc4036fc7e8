-- ===== src/Base/Rows.antt =====
-- The rows of a table as a list in the order of their ids, and what a statement does with them:
-- SELECT .. WHERE, UPDATE .. WHERE, and the checks that a table's constraints make of its rows.
use Prim.Native.Nat.{ℕ, suc, ◌+◌}
use mathlib.Core.Bool.{Bool, true, false, ◌&&◌, ◌||◌}
use mathlib.Core.Option.{Option, none, some}
use mathlib.Core.List.{List, [], ◌∷◌, ◌++◌}
use mathlib.Core.Path.{◌≡◌, sym, ap, ◌∙◌}
use mathlib.Core.Logic.{inl, inr}
use native.Mathlib.Omega.{arith}
use smart_logistics.Base.Tests.{Bool-cases, ◌==◌, if◌then◌else◌}

module _ {ℓ} {A : Type ℓ} where
  abbrev pub length : List A → ℕ
  length [] = 0
  length (x ∷ xs) = suc (length xs)

  -- SELECT .. WHERE p
  abbrev pub rows_where : (A → Bool) → List A → List A
  rows_where p [] = []
  rows_where p (x ∷ xs) = let rest = rows_where p xs in if p x then x ∷ rest else rest

  -- UPDATE .. WHERE p
  abbrev pub update_where : (A → Bool) → (A → A) → List A → List A
  update_where p f [] = []
  update_where p f (x ∷ xs) = (if p x then f x else x) ∷ update_where p f xs

  -- The first row for which p holds.
  abbrev pub first_where : (A → Bool) → List A → Option A
  first_where p [] = none
  first_where p (x ∷ xs) = let rest = first_where p xs in if p x then some x else rest

  abbrev pub any : (A → Bool) → List A → Bool
  any p [] = false
  any p (x ∷ xs) = p x || any p xs

  abbrev pub all : (A → Bool) → List A → Bool
  all p [] = true
  all p (x ∷ xs) = p x && all p xs

  -- Sums a number over the rows.
  abbrev pub sum_by : (A → ℕ) → List A → ℕ
  sum_by f [] = 0
  sum_by f (x ∷ xs) = f x + sum_by f xs

  -- A predicate that holds of every row.
  abbrev pub All {κ} : (A → Type κ) → List A → Type κ
  All P [] = Unit
  All P (x ∷ xs) = P x × All P xs

-- `x in xs`
abbrev pub contains : List ℕ → ℕ → Bool
contains [] a = false
contains (x ∷ xs) a = a == x || contains xs a

-- No two of the numbers are equal.
abbrev pub distinct : List ℕ → Bool
distinct [] = true
distinct (x ∷ xs) = if contains xs x then false else distinct xs

pub contains-last : (ids : List ℕ) (m : ℕ) → contains (ids ++ m ∷ []) m ≡ true
contains-last [] m = ground arith
contains-last (i ∷ ids) m = ground (arith, contains-last ids m)

-- The first of distinct ids is not among the others.
pub distinct_tail :
    (k : ℕ) (ids : List ℕ)
    → distinct (k ∷ ids) ≡ true
    → (contains ids k ≡ false) × (distinct ids ≡ true)
distinct_tail k ids d = ground arith

-- The row that a query finds.
module _ {ℓ} {A : Type ℓ} (p : A → Bool) (a : A) where
  pub found-head : (x : A) (xs : List A) → p x ≡ true → first_where p (x ∷ xs) ≡ some a → x ≡ a
  found-head x xs hit e = ap (λ (o : Option A). elim o [ none ↦ x | some y ↦ y ]) (rw hit at e)

  pub found-true : (xs : List A) → first_where p xs ≡ some a → p a ≡ true
  found-true [] e = absurd (cc e)
  found-true (x ∷ xs) e = elim (Bool-cases (p x)) [
    | inl hit ↦ ap p (sym (found-head x xs hit e)) ∙ hit
    | inr miss ↦ found-true xs (rw miss at e)
  ]
