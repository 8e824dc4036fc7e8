-- ===== src/Identity/Sessions/Edited.antt =====
-- What the methods of UserService (services/identity/src/identity/services/users.py) do to users
-- and sessions.
use mathlib.Core.Path.{subst}
use smart_logistics.Base.{
  ℕ, ◌≡◌, refl, sym, ap, String, true, false, Option, none, some, List, [], ◌∷◌, arith, ◌==◌,
  first_where, update_where, not,
}
use smart_logistics.Platform.Errors.{
  Result, ok, err, ok-injective, Error, not_found, permission_denied, conflict,
  authentication_error,
}
use smart_logistics.Platform.Session.{>>-eq-ok, >>=-eq-ok, raise_if-ok, or_raise, lift}
use smart_logistics.Platform.Roles.{is_role, warehouse_operator}
use smart_logistics.Identity.Models.{Db, User, is_active, UserWarehouseAssignment, uuid4}
use smart_logistics.Identity.Repository as Repository
use smart_logistics.Identity.Repository.{
  save_user, unless_deleted, user_with_id, revoke_all, revoked, is_open_of, delete_for_warehouse,
  get_assignment, is_assignment,
}
use smart_logistics.Identity.Auth.{Security}
use smart_logistics.Identity.Users.{
  UserCreate, UserUpdate, name_of, phone_of, new_user, restored_user, emit, create, update_profile,
  change_password, get_current_user, change_my_password, restore,
}
use smart_logistics.Identity.Assignments.{
  asked, assign_warehouse, unassign_warehouse, report_loss, lose_scope, on_warehouse_deleted,
}
use smart_logistics.Identity.Sessions.{written-IsLive, closed-IsLive, revoked-IsLive, joined-IsLive}
use smart_logistics.Identity.Sessions.Opened.{Live, unique-ids, flush-ok}
use smart_logistics.Identity.Sessions.Standing.{flush-then, user-then, get-then, ended}

-- A step that raises or returns leaves the database as it is.
lift-ok :
    {A : Type 0} (r : Result A) (a : A) (s s' : Db)
    → ◌≡◌ {A = Result (A × Db)} (lift r s) (ok (a, s'))
    → s ≡ s'
lift-ok {A} (ok b) a s s' run = ap (λ (x : A × Db). x.1) (ok-injective (b, s) (a, s') run)
lift-ok (err e) a s s' run = absurd (cc run)

or_raise-ok :
    {A : Type 0} (o : Option A) (e : Error) (a : A) (s s' : Db)
    → ◌≡◌ {A = Result (A × Db)} (or_raise o e s) (ok (a, s'))
    → (o ≡ some a) × (s ≡ s')
or_raise-ok {A} none e a s s' run = absurd (cc run)
or_raise-ok {A} (some b) e a s s' run =
    let same = ok-injective (b, s) (a, s') run in
    (ap (λ (x : A × Db). some x.0) same, ap (λ (x : A × Db). x.1) same)

asked-ok : (answer : Option (Result (Unit {0}))) (s s' : Db) → asked answer s ≡ ok (tt, s') → s ≡ s'
asked-ok none s s' run = ap (λ (x : Unit {0} × Db). x.1) (ok-injective (tt, s) (tt, s') run)
asked-ok (some answer) s s' run = lift-ok answer tt s s' run

module _ (user_id : ℕ) (db db' : Db) where
  pub update_profile-Live :
      (payload : UserUpdate) (a : User)
      → update_profile user_id payload db ≡ ok (a, db')
      → Live db
      → Live db'
  unfolding update_profile emit uuid4
  update_profile-Live payload a run l =
      let (user, found, r) = get-then user_id _ run in
      let (name, db1, named, r') = >>=-eq-ok (lift (name_of user payload.full_name)) _ r in
      let same = lift-ok (name_of user payload.full_name) name db db1 named in
      let (_, done) = flush-then _ r' in
      let new : User = record user { full_name = name; phone = phone_of user payload.phone } in
      ended _ a _ db' done (
        written-IsLive (λ u. u.id == user_id) user new db1.users db1.tokens
          (subst (λ (d : Db). user_with_id user_id d.users ≡ some user) same found) refl (λ h. h)
          (subst Live same l))

  pub restore-Live : (a : User) → restore user_id db ≡ ok (a, db') → Live db → Live db'
  unfolding restore Repository.get emit uuid4
  restore-Live a run l =
      let (user, found, r) = user-then true user_id not_found _ {s = db} {t = db'} {a = a} run in
      let (_, done) = flush-then _ r in
      ended _ a _ db' done (
        written-IsLive (λ u. u.id == user_id) user (restored_user user) db.users db.tokens found
          refl (λ h. refl) l)

  pub assign_warehouse-Live :
      (now : ℕ) (answer : Option (Result (Unit {0}))) (warehouse_id : ℕ)
      (a : UserWarehouseAssignment)
      → assign_warehouse now answer user_id warehouse_id db ≡ ok (a, db')
      → Live db
      → Live db'
  unfolding assign_warehouse revoke_all emit uuid4
  assign_warehouse-Live now answer warehouse_id a run l =
      let (user, found, r) = get-then user_id _ run in
      let (_, r1) = raise_if-ok (not (is_role user.role warehouse_operator)) conflict _ r in
      let (_, db1, called, r2) = >>-eq-ok (asked answer) _ r1 in
      let same = asked-ok answer db db1 called in
      let (_, done) = flush-then _ r2 in
      ended _ a _ db' done (
        revoked-IsLive (is_open_of user.id) (revoked now) db1.users db1.tokens (λ t. refl)
          (subst Live same l))

  pub unassign_warehouse-Live :
      (now warehouse_id : ℕ)
      → unassign_warehouse now user_id warehouse_id db ≡ ok (tt, db')
      → Live db
      → Live db'
  unfolding unassign_warehouse get_assignment revoke_all emit uuid4
  unassign_warehouse-Live now warehouse_id run l =
      let (user, found, r) = get-then user_id _ run in
      let (x, db1, there, r1) =
        >>=-eq-ok
          (or_raise (first_where (is_assignment user_id warehouse_id) db.assignments) not_found) _
          r in
      let (_, same) =
        or_raise-ok (first_where (is_assignment user_id warehouse_id) db.assignments) not_found x db
          db1 there in
      let (_, done) = flush-then _ r1 in
      ended _ tt _ db' done (
        revoked-IsLive (is_open_of user.id) (revoked now) db1.users db1.tokens (λ t. refl)
          (subst Live same l))

pub change_my_password-Live :
    (k : Security) (now user_id : ℕ) (current new : String) (db db' : Db)
    → change_my_password k now user_id current new db ≡ ok (tt, db')
    → Live db
    → Live db'
unfolding change_my_password get_current_user Repository.get change_password revoke_all
change_my_password-Live k now user_id current new db db' run l =
    let (user, db1, read, r) = >>=-eq-ok (get_current_user user_id) _ run in
    let (user', found, r0) =
      user-then false user_id authentication_error _ {s = db} {t = db1} {a = user} read in
    let (_, r1) = raise_if-ok (not (is_active user')) authentication_error _ r0 in
    let same : db ≡ db1 = ap (λ (x : User × Db). x.1) (ok-injective (user', db) (user, db1) r1) in
    let (_, r2) =
      raise_if-ok (not (k.verify_password current user.password_hash)) permission_denied _ r in
    let (_, r3) = raise_if-ok (k.verify_password new user.password_hash) conflict _ r2 in
    let written : User = record user {
      password_hash = k.hash_password new;
      password_changed_at = some now;
    } in
    let (e, _) = flush-ok _ db' r3 in
    subst Live (sym e) (closed-IsLive now written db1.users db1.tokens (subst Live same l))

pub create-Live :
    (k : Security) (now : ℕ) (payload : UserCreate) (a : User) (db db' : Db)
    → create k now payload db ≡ ok (a, db')
    → Live db
    → Live db'
unfolding create uuid4 emit
create-Live k now payload a db db' run l =
    let (unique, done) = flush-then _ run in
    ended _ a _ db' done
      (joined-IsLive (new_user k now db.next_id payload) db.users db.tokens (unique-ids _ unique) l)

-- The deletion of a warehouse.
report_loss-ok :
    (warehouse_id : ℕ) (found : Option User) (s s' : Db)
    → report_loss warehouse_id found s ≡ ok (tt, s')
    → (s'.users ≡ s.users) × (s'.tokens ≡ s.tokens)
unfolding emit uuid4
report_loss-ok warehouse_id none s s' run = ground arith
report_loss-ok warehouse_id (some user) s s' run = ground arith

lose_scope-Live :
    (now warehouse_id : ℕ) (ids : List ℕ) (db db' : Db)
    → lose_scope now warehouse_id ids db ≡ ok (tt, db')
    → Live db
    → Live db'
unfolding lose_scope revoke_all
lose_scope-Live now warehouse_id [] db db' run l = ended tt tt db db' run l
lose_scope-Live now warehouse_id (user_id ∷ ids) db db' run l =
    let (_, db1, told, rest) =
      >>-eq-ok (report_loss warehouse_id (user_with_id user_id db.users))
        (lose_scope now warehouse_id ids)
        {s = record db { tokens = update_where (is_open_of user_id) (revoked now) db.tokens }}
        {t = db'} {b = tt} run in
    let (users, tokens) =
      report_loss-ok warehouse_id (user_with_id user_id db.users)
        (record db { tokens = update_where (is_open_of user_id) (revoked now) db.tokens }) db1
        told in
    lose_scope-Live now warehouse_id ids db1 db' rest (
      rw (users, tokens)
        (revoked-IsLive (is_open_of user_id) (revoked now) db.users db.tokens (λ t. refl) l))

pub on_warehouse_deleted-Live :
    (now warehouse_id : ℕ) (db db' : Db)
    → on_warehouse_deleted now warehouse_id db ≡ ok (tt, db')
    → Live db
    → Live db'
unfolding on_warehouse_deleted delete_for_warehouse
on_warehouse_deleted-Live now warehouse_id db db' run l =
    lose_scope-Live now warehouse_id _ _ db' run l
