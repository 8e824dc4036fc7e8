-- ===== src/Platform/Session.antt =====
-- A SQLAlchemy session (libs/sl-platform/src/sl_platform/db.py, `Database.session`): one
-- transaction over a service's database. A service method flushes and does not commit, so a method
-- that raises leaves nothing: the request's session is rolled back. `S` is the database.
use smart_logistics.Base.{◌≡◌, refl, Bool, true, false, Option, none, some, if◌then◌else◌}
use smart_logistics.Platform.Errors.{Error, Result, ok, err}

abbrev pub Tx : Type 0 → Type 0 → Type 0
Tx S A = S → Result (A × S)

module _ {S A : Type 0} where
  abbrev pub pure : A → Tx S A
  pure a s = ok (a, s)

  abbrev pub raise : Error → Tx S A
  raise e s = err e

  abbrev pub gets : (S → A) → Tx S A
  gets f s = ok (f s, s)

  abbrev pub lift : Result A → Tx S A
  lift (ok a) s = ok (a, s)
  lift (err e) s = err e

  -- `None` raises
  abbrev pub or_raise : Option A → Error → Tx S A
  or_raise none e s = err e
  or_raise (some a) e s = ok (a, s)

infixl 5 ◌>>=◌ ◌>>◌
abbrev pub ◌>>=◌ : {S A B : Type 0} → Tx S A → (A → Tx S B) → Tx S B
◌>>=◌ m f s = elim (m s) [ ok (a, s') ↦ f a s' | err e ↦ err e ]

abbrev pub ◌>>◌ : {S A B : Type 0} → Tx S A → Tx S B → Tx S B
◌>>◌ m k s = elim (m s) [ ok (a, s') ↦ k s' | err e ↦ err e ]

abbrev pub raise_if : {S : Type 0} → Bool → Error → Tx S (Unit {0})
raise_if b e s = if b then err e else ok (tt, s)

abbrev pub modify : {S : Type 0} → (S → S) → Tx S (Unit {0})
modify f s = ok (tt, f s)

-- The endpoint: commit what the method flushed, or roll back and answer with its error.
abbrev pub finish : {S A : Type 0} → S → Result (A × S) → Result A × S
finish s (ok (a, s')) = (ok a, s')
finish s (err e) = (err e, s)

unfoldable pub transact : {S A : Type 0} → Tx S A → S → Result A × S
transact m s = finish s (m s)

-- A step that returns, and what follows it.
pub >>-ok :
    {S A B : Type 0} (m : Tx S A) (k : Tx S B) {s s' : S} {a : A}
    → m s ≡ ok (a, s')
    → (m >> k) s ≡ k s'
>>-ok m k e = rw (e, ◌>>◌)

pub >>=-ok :
    {S A B : Type 0} (m : Tx S A) (f : A → Tx S B) {s s' : S} {a : A}
    → m s ≡ ok (a, s')
    → (m >>= f) s ≡ f a s'
>>=-ok m f e = rw (e, ◌>>=◌)

-- A step that raises ends the method.
pub >>-err :
    {S A B : Type 0} (m : Tx S A) (k : Tx S B) {s : S} {e : Error}
    → m s ≡ err e
    → (m >> k) s ≡ err e
>>-err m k h = rw (h, ◌>>◌)

pub >>=-err :
    {S A B : Type 0} (m : Tx S A) (f : A → Tx S B) {s : S} {e : Error}
    → m s ≡ err e
    → (m >>= f) s ≡ err e
>>=-err m f h = rw (h, ◌>>=◌)

-- A method that returned has returned at each step.
pub >>-eq-ok :
    {S A B : Type 0} (m : Tx S A) (k : Tx S B) {s t : S} {b : B}
    → (m >> k) s ≡ ok (b, t)
    → (a : A) × (s' : S) × (m s ≡ ok (a, s')) × (k s' ≡ ok (b, t))
>>-eq-ok {S} {A} {B} m k {s} {t} {b} h = go (m s) refl h
  where
    go :
        (r : Result (A × S))
        → m s ≡ r
        → (elim r as (λ _. Result (B × S)) [ ok x ↦ k x.1 | err e ↦ err e ]) ≡ ok (b, t)
        → (a : A) × (s' : S) × (m s ≡ ok (a, s')) × (k s' ≡ ok (b, t))
    go (ok (a, s')) e h' = (a, s', e, h')
    go (err x) e h' = absurd (cc h')

pub >>=-eq-ok :
    {S A B : Type 0} (m : Tx S A) (f : A → Tx S B) {s t : S} {b : B}
    → (m >>= f) s ≡ ok (b, t)
    → (a : A) × (s' : S) × (m s ≡ ok (a, s')) × (f a s' ≡ ok (b, t))
>>=-eq-ok {S} {A} {B} m f {s} {t} {b} h = go (m s) refl h
  where
    go :
        (r : Result (A × S))
        → m s ≡ r
        → (elim r as (λ _. Result (B × S)) [ ok x ↦ f x.0 x.1 | err e ↦ err e ]) ≡ ok (b, t)
        → (a : A) × (s' : S) × (m s ≡ ok (a, s')) × (f a s' ≡ ok (b, t))
    go (ok (a, s')) e h' = (a, s', e, h')
    go (err x) e h' = absurd (cc h')

-- A test that was passed.
pub raise_if-ok :
    {S A : Type 0} (b : Bool) (e : Error) (k : Tx S A) {s t : S} {a : A}
    → (raise_if b e >> k) s ≡ ok (a, t)
    → (b ≡ false) × (k s ≡ ok (a, t))
raise_if-ok true e k h = absurd (cc h)
raise_if-ok false e k h = (refl, h)
