-- ===== src/Identity/Auth/Lockout.antt =====
-- The lockout of an account: `login` and `_register_failed_attempt` of
-- services/identity/src/identity/services/auth.py, over a sequence of requests.
use mathlib.Core.Path.{subst}
use smart_logistics.Base.{
  ℕ, ◌+◌, ◌*◌, ◌<◌, ◌≡◌, refl, ap, String, Bool, true, false, some, List, [], ◌∷◌, arith, ◌==◌,
  ==_refl, first_where, found-true, found-head, length, All, Bool-cases, inl, inr,
}
use smart_logistics.Platform.Errors.{err, authentication_error, account_locked}
use smart_logistics.Identity.Models.{Db, User}
use smart_logistics.Identity.Repository.{has_email, save_user}
use smart_logistics.Identity.Auth.{
  Settings, Security, Request, is_locked, register_failed_attempt, login_as, login,
}

-- The row that a query finds is written, and the query finds it again.
found-saved :
    (p : User → Bool) (old new : User) (users : List User)
    → new.id ≡ old.id
    → p new ≡ true
    → first_where p users ≡ some old
    → first_where p (save_user new users) ≡ some new
found-saved p old new [] same pn found = absurd (cc found)
found-saved p old new (u ∷ users) same pn found = elim (Bool-cases (u.id == new.id)) [
  | inl here ↦ rw (here, pn) refl
  | inr apart ↦ rw apart (elim (Bool-cases (p u)) [
    | inl yes_p ↦
        let is_old = found-head p old u users yes_p found in
        absurd (cc (apart, ==_refl new.id, ap (λ (x : User). x.id) is_old, same))
    | inr no_p ↦ rw no_p (found-saved p old new users same pn (rw no_p at found))
  ])
]

module _ (c : Settings) (k : Security) (email : String) where
  -- Requests that log in to one account, with their passwords, one after the other.
  abbrev pub tries : List (Request × String) → Db → Db
  tries [] db = db
  tries ((q, password) ∷ rest) db = tries rest (login c k q email password db).1

  abbrev pub Found : User → Db → Type 0
  Found user db = first_where (has_email (k.lower email)) db.users ≡ some user

  wrong_password :
      (q : Request) (password : String) (user : User) (db : Db)
      → Found user db
      → is_locked q.now user ≡ false
      → k.verify_password password user.password_hash ≡ false
      → login c k q email password db ≡ (
        err authentication_error,
        record db { users = save_user (register_failed_attempt c q.now user) db.users },
      )
  unfolding login login_as
  wrong_password q password user db found clear wrong = rw (login, found, clear, wrong) refl

  -- A locked account takes no password.
  locked_out :
      (q : Request) (password : String) (user : User) (db : Db)
      → Found user db
      → is_locked q.now user ≡ true
      → login c k q email password db ≡ (err account_locked, db)
  unfolding login login_as
  locked_out q password user db found locked = rw (login, found, locked) refl

  registered :
      (q : Request) (password : String) (user new : User) (db : Db)
      → register_failed_attempt c q.now user ≡ new
      → new.id ≡ user.id
      → new.email ≡ user.email
      → new.deleted_at ≡ user.deleted_at
      → Found user db
      → is_locked q.now user ≡ false
      → k.verify_password password user.password_hash ≡ false
      → Found new (login c k q email password db).1
  registered q password user new db becomes same mail gone found clear wrong =
      rw (wrong_password q password user db found clear wrong, becomes)
        (found-saved (has_email (k.lower email)) user new db.users same
          (rw (mail, gone) (found-true (has_email (k.lower email)) user db.users found)) found)

  -- A request with a wrong password, at a time when the account is not locked.
  abbrev pub Fails : User → Request × String → Type 0
  Fails user a =
      (k.verify_password a.1 user.password_hash ≡ false) × (is_locked a.0.now user ≡ false)

  counts :
      (q : Request) (user : User)
      → user.failed_login_attempts + 1 < c.max_failed_login_attempts
      → register_failed_attempt c q.now user
        ≡ record user { failed_login_attempts = user.failed_login_attempts + 1 }
  unfolding register_failed_attempt
  counts q user h = ground arith

  locks :
      (q : Request) (user : User)
      → user.failed_login_attempts + 1 ≡ c.max_failed_login_attempts
      → register_failed_attempt c q.now user ≡ record user {
        locked_until = some (q.now + c.account_lockout_minutes * 60);
        failed_login_attempts = 0;
      }
  unfolding register_failed_attempt
  locks q user h = ground arith

  -- Below the limit, failures are counted and nothing else happens to the account.
  counted :
      (fails : List (Request × String)) (user : User) (db : Db)
      → Found user db
      → All (Fails user) fails
      → user.failed_login_attempts + length fails < c.max_failed_login_attempts
      → Found
          (record user { failed_login_attempts = user.failed_login_attempts + length fails })
          (tries fails db)
  counted [] user db found all below =
      subst (λ (u : User). Found u db)
        (ap (λ (n : ℕ). record user { failed_login_attempts = n }) (omega arith)) found
  counted ((q, password) ∷ fails) user db found ((wrong, clear), all) below =
      let new : User = record user { failed_login_attempts = user.failed_login_attempts + 1 } in
      subst
        (λ (n : ℕ).
          Found (record user { failed_login_attempts = n })
            (tries fails (login c k q email password db).1))
        (omega arith)
        (counted fails new (login c k q email password db).1
          (registered q password user new db (counts q user (omega arith)) refl refl refl found
            clear wrong)
          all (omega arith))

  -- Failures below the limit are counted and change nothing else of the account; the last one that
  -- is allowed locks it, and until the lockout is over every login to it, with whatever password, is
  -- refused and changes nothing.
  pub lockout :
      (fails : List (Request × String)) (last q : Request) (password tried : String) (user : User)
      (db : Db)
      → Found user db
      → All (Fails user) fails
      → Fails user (last, password)
      → user.failed_login_attempts + length fails + 1 ≡ c.max_failed_login_attempts
      → q.now < last.now + c.account_lockout_minutes * 60
      → let after : Db = (login c k last email password (tries fails db)).1 in
        Found
          (record user { failed_login_attempts = user.failed_login_attempts + length fails })
          (tries fails db)
        × (login c k q email tried after ≡ (err account_locked, after))
  lockout fails last q password tried user db found all (wrong, clear) most soon =
      let counted_user : User = record user {
        failed_login_attempts = user.failed_login_attempts + length fails;
      } in
      let locked_user : User = record user {
        locked_until = some (last.now + c.account_lockout_minutes * 60);
        failed_login_attempts = 0;
      } in
      let before = counted fails user db found all (omega arith) in
      (
        before,
        locked_out q tried locked_user (login c k last email password (tries fails db)).1
            (registered last password counted_user locked_user (tries fails db)
              (locks last counted_user (omega arith)) refl refl refl before clear wrong)
            (ground arith),
      )
