-- ===== src/Identity/Sessions/Opened.antt =====
-- Sessions that `_issue` and `login` of AuthService (services/identity/src/identity/services/auth.py) open.
use mathlib.Core.Path.{subst}
use smart_logistics.Base.{
  ℕ, ◌≡◌, refl, ap, ◌∙◌, String, Bool, true, Option, none, some, [], ◌∷◌, ◌++◌, arith, first_where,
  Bool-cases, inl, inr, distinct, &&_left,
}
use smart_logistics.Platform.Errors.{Result, ok, err, ok-injective, authentication_error}
use smart_logistics.Platform.Session.{>>=-eq-ok, finish, pure}
use smart_logistics.Identity.Models.{
  Db, User, is_active, RefreshToken, flush, uuid4, unique_constraints, user_ids,
}
use smart_logistics.Identity.Repository.{get_by_email, has_email, save_user, warehouse_ids_for}
use smart_logistics.Identity.Auth.{
  Settings, Security, Request, IssuedTokens, new_token, issue, is_locked, register_failed_attempt,
  signed_in, sign_in, login_as, login,
}
use smart_logistics.Identity.Sessions.{
  IsLive, has_owner, found_owner, written-IsLive, save-active, opened-IsLive,
}

pub flush-ok : (db db' : Db) → flush db ≡ ok (tt, db') → (db' ≡ db) × (unique_constraints db ≡ true)
unfolding flush
flush-ok db db' run = ground arith

pub unique-ids : (db : Db) → unique_constraints db ≡ true → distinct (user_ids db.users) ≡ true
unfolding unique_constraints
unique-ids db h = &&_left _ _ (&&_left _ _ (&&_left _ _ (&&_left _ _ h)))

-- What a session of a user is: `_issue` adds it, and touches no user.
pub issue-ok :
    (c : Settings) (k : Security) (q : Request) (user : User) (db db' : Db)
    (a : IssuedTokens × RefreshToken)
    → issue c k q user db ≡ ok (a, db')
    → (id : ℕ) × (a.1 ≡ new_token c k q id user)
      × (db'.users ≡ db.users)
      × (db'.tokens ≡ db.tokens ++ new_token c k q id user ∷ [])
unfolding issue uuid4 warehouse_ids_for flush
issue-ok c k q user db db' a run = (db.next_id, ground arith, ground arith, ground arith)

-- The sessions of a database.
abbrev pub Live : Db → Type 0
Live db = IsLive db.users db.tokens

-- A session that is added for a user who was found and is active.
pub found_active :
    (p : User → Bool) (user : User) (db : Db)
    → first_where p db.users ≡ some user
    → is_active user ≡ true
    → Live db
    → has_owner db.users user.id ≡ true
found_active p user db found a l = found_owner p user db.users l.unique found ∙ a

sign_in-Live :
    (c : Settings) (k : Security) (q : Request) (p : User → Bool) (user : User) (db : Db)
    → first_where p db.users ≡ some user
    → is_active user ≡ true
    → Live db
    → Live (finish db (sign_in c k q user db)).1
unfolding sign_in
sign_in-Live c k q p user db found a l = go (sign_in c k q user db) refl
  where
    new : User
    new = signed_in q.now user

    middle : Db
    middle = record db { users = save_user new db.users }

    middle_live : Live middle
    middle_live = written-IsLive p user new db.users db.tokens found refl (λ h. h) l

    go :
        (m : Result ((User × IssuedTokens) × Db)) → sign_in c k q user db ≡ m → Live (finish db m).1
    go (err e) run = l
    go (ok (b, db')) run =
        let (r, db1, issued, last) =
          >>=-eq-ok (issue c k q new) (λ r. pure (new, r.0)) {s = middle} {t = db'} {b = b} run in
        let (id, same, users, tokens) = issue-ok c k q new middle db1 r issued in
        let same_db : db1 ≡ db' =
          ap (λ (x : (User × IssuedTokens) × Db). x.1) (ok-injective _ _ last) in
        subst Live same_db (
          rw (users, tokens)
            (opened-IsLive (new_token c k q id new) middle.users middle.tokens
              (save-active new user.id db.users a (found_active p user db found a l)) middle_live))

register-active :
    (c : Settings) (now : ℕ) (user : User)
    → is_active user ≡ true
    → is_active (register_failed_attempt c now user) ≡ true
unfolding register_failed_attempt
register-active c now user a = ground arith

register-id :
    (c : Settings) (now : ℕ) (user : User) → (register_failed_attempt c now user).id ≡ user.id
unfolding register_failed_attempt
register-id c now user = ground arith

login_as-Live :
    (c : Settings) (k : Security) (q : Request) (password : String) (p : User → Bool) (user : User)
    (db : Db)
    → first_where p db.users ≡ some user
    → Live db
    → Live (login_as c k q password user db).1
unfolding login_as
login_as-Live c k q password p user db found l = elim (Bool-cases (is_locked q.now user)) [
  | inl locked ↦ rw locked l
  | inr clear ↦ rw clear (elim (Bool-cases (k.verify_password password user.password_hash)) [
    | inr wrong ↦ rw wrong (
        written-IsLive p user (register_failed_attempt c q.now user) db.users db.tokens found
          (register-id c q.now user) (register-active c q.now user) l)
    | inl right ↦ rw right (elim (Bool-cases (is_active user)) [
      | inr idle ↦ rw idle l
      | inl a ↦ rw a (sign_in-Live c k q p user db found a l)
    ])
  ])
]

-- A login leaves only sessions of active users open, whatever it answers.
pub login-Live :
    (c : Settings) (k : Security) (q : Request) (email password : String) (db : Db)
    → Live db
    → Live (login c k q email password db).1
unfolding login get_by_email
login-Live c k q email password db l = go (first_where p db.users) refl
  where
    p : User → Bool
    p = has_email (k.lower email)

    go :
        (m : Option User)
        → first_where p db.users ≡ m
        → Live
            (elim m as (λ _. Result (User × IssuedTokens) × Db) [
              | none ↦ (err authentication_error, db)
              | some user ↦ login_as c k q password user db
            ]).1
    go none e = l
    go (some user) e = login_as-Live c k q password p user db e l
