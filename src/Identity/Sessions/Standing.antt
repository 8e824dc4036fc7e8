-- ===== src/Identity/Sessions/Standing.antt =====
-- What a change of a user's role, status or deletion (UserService,
-- services/identity/src/identity/services/users.py) does to the sessions.
use mathlib.Core.Path.{subst}
use smart_logistics.Base.{
  ℕ, ◌≡◌, refl, ap, String, Bool, true, false, Option, none, some, arith, ◌==◌, Bool-cases, inl,
  inr,
}
use smart_logistics.Platform.Errors.{Result, ok, ok-injective, Error, not_found, permission_denied}
use smart_logistics.Platform.Session.{Tx, ◌>>=◌, ◌>>◌, >>-eq-ok, raise_if-ok, or_raise}
use smart_logistics.Platform.Roles.{UserRole}
use smart_logistics.Identity.Models.{
  Db, User, UserStatus, is_active_status, flush, uuid4, unique_constraints,
}
use smart_logistics.Identity.Repository as Repository
use smart_logistics.Identity.Repository.{
  save_user, unless_deleted, user_with_id, revoke_all, revoked, is_open_of, delete_for_warehouse,
  get_assignment, is_assignment,
}
use smart_logistics.Identity.Users.{
  deleted_user, revoke_unless_active, emit, get, change_role, change_status, delete,
}
use smart_logistics.Identity.Sessions.{written-IsLive, closed-IsLive}
use smart_logistics.Identity.Sessions.Kept.{unless_deleted-cases}
use smart_logistics.Identity.Sessions.Opened.{Live, flush-ok}

-- A method that flushes goes on with a database that satisfies its constraints.
pub flush-then :
    {A : Type 0} (m : Tx Db A) {s t : Db} {a : A}
    → (flush >> m) s ≡ ok (a, t)
    → (unique_constraints s ≡ true) × (m s ≡ ok (a, t))
flush-then m {s} {t} {a} run =
    let (_, s', flushed, rest) = >>-eq-ok flush m {s = s} {t = t} {b = a} run in
    let (e, unique) = flush-ok s s' flushed in (unique, rw e at rest)

-- A method that reads a user goes on with the row of the id.
pub user-then :
    {A : Type 0} (b : Bool) (user_id : ℕ) (e : Error) (f : User → Tx Db A) {s t : Db} {a : A}
    → (or_raise (unless_deleted b (user_with_id user_id s.users)) e >>= f) s ≡ ok (a, t)
    → (user : User) × (user_with_id user_id s.users ≡ some user) × (f user s ≡ ok (a, t))
user-then {A} b user_id e f {s} {t} {a} run = go (user_with_id user_id s.users) refl run
  where
    go :
        (m : Option User)
        → user_with_id user_id s.users ≡ m
        → (or_raise (unless_deleted b m) e >>= f) s ≡ ok (a, t)
        → (user : User) × (user_with_id user_id s.users ≡ some user) × (f user s ≡ ok (a, t))
    go none found r = absurd (cc r)
    go (some user) found r = elim (unless_deleted-cases b user) [
      | inl gone ↦ absurd (cc (rw gone at r))
      | inr there ↦ (user, found, rw there at r)
    ]

pub get-then :
    {A : Type 0} (user_id : ℕ) (f : User → Tx Db A) {s t : Db} {a : A}
    → (get user_id >>= f) s ≡ ok (a, t)
    → (user : User) × (user_with_id user_id s.users ≡ some user) × (f user s ≡ ok (a, t))
unfolding get Repository.get
get-then user_id f {s} {t} {a} run = user-then false user_id not_found f {s = s} {t = t} {a = a} run

-- The end of a method.
pub ended :
    {A : Type 0} (a b : A) (d t : Db)
    → ◌≡◌ {A = Result (A × Db)} (ok (a, d)) (ok (b, t))
    → Live d
    → Live t
ended {A} a b d t e l = subst Live (ap (λ (x : A × Db). x.1) (ok-injective (a, d) (b, t) e)) l

-- The new status of a user, with what follows for the sessions.
status-Live :
    (now user_id : ℕ) (status : UserStatus) (user : User) (db db' : Db)
    → user_with_id user_id db.users ≡ some user
    → revoke_unless_active now status user.id
        (record db { users = save_user (record user { status = status }) db.users })
      ≡ ok (tt, db')
    → Live db
    → Live db'
unfolding revoke_all
status-Live now user_id status user db db' found run l =
    let new : User = record user { status = status } in
    elim (Bool-cases (is_active_status status)) [
      | inl on ↦ ended _ tt _ db' (rw on at run) (
          written-IsLive (λ u. u.id == user_id) user new db.users db.tokens found refl
            (λ h. ground arith) l)
      | inr off ↦ ended _ tt _ db' (rw off at run) (closed-IsLive now new db.users db.tokens l)
    ]

module _ (now user_id : ℕ) (db db' : Db) where
  pub change_role-Live :
      (role : UserRole) (reason : Option String) (actor_id : ℕ) (a : User)
      → change_role now user_id role reason actor_id db ≡ ok (a, db')
      → Live db
      → Live db'
  unfolding change_role revoke_all emit uuid4
  change_role-Live role reason actor_id a run l =
      let (user, found, r) = get-then user_id _ run in
      let (_, r') = raise_if-ok (user.id == actor_id) permission_denied _ r in
      let (_, done) = flush-then _ r' in
      ended _ a _ db' done (closed-IsLive now (record user { role = role }) db.users db.tokens l)

  pub change_status-Live :
      (status : UserStatus) (reason : Option String) (actor_id : ℕ) (a : User)
      → change_status now user_id status reason actor_id db ≡ ok (a, db')
      → Live db
      → Live db'
  unfolding change_status revoke_all emit uuid4
  change_status-Live status reason actor_id a run l =
      let (user, found, r) = get-then user_id _ run in
      let (_, r') = raise_if-ok (user.id == actor_id) permission_denied _ r in
      let (_, db1, settled, r'') = >>-eq-ok (revoke_unless_active now status user.id) _ r' in
      let (_, done) = flush-then _ r'' in
      ended _ a _ db' done (status-Live now user_id status user db db1 found settled l)

  pub delete-Live :
      (actor_id : ℕ) → delete now user_id actor_id db ≡ ok (tt, db') → Live db → Live db'
  unfolding delete revoke_all emit uuid4
  delete-Live actor_id run l =
      let (user, found, r) = get-then user_id _ run in
      let (_, r') = raise_if-ok (user.id == actor_id) permission_denied _ r in
      let (_, done) = flush-then _ r' in
      ended _ tt _ db' done
        (closed-IsLive now (deleted_user now actor_id user) db.users db.tokens l)
