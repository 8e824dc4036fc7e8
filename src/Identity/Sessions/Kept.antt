-- ===== src/Identity/Sessions/Kept.antt =====
-- What the methods of AuthService (services/identity/src/identity/services/auth.py) do to users and
-- sessions.
use mathlib.Core.Path.{subst}
use smart_logistics.Identity.Sessions.Opened.{flush-ok, issue-ok, Live, found_active}
use smart_logistics.Base.{
  ℕ, ◌≡◌, ◌⊎◌, refl, sym, ap, ◌∙◌, Bool, true, false, ◌||◌, is_none, Option, none, some, [], ◌∷◌,
  ◌++◌, ◌==◌, if◌then◌else◌, first_where, update_where, Bool-cases, inl, inr, leb, not,
}
use smart_logistics.Platform.Errors.{Result, ok, err, ok-injective, authentication_error}
use smart_logistics.Platform.Session.{◌>>◌, >>-eq-ok, >>=-eq-ok, raise_if-ok, finish, pure, modify}
use smart_logistics.Identity.Models.{
  Db, User, is_active, RefreshToken, is_revoked, flush, unique_constraints,
}
use smart_logistics.Identity.Repository.{
  get_by_token, unless_deleted, user_with_id, revoke_all, revoked, is_open_of,
}
use smart_logistics.Identity.Auth.{
  Settings, Security, Request, IssuedTokens, new_token, issue, rotated, rotate, rotate_for,
  refresh_session, refresh, revoke_one, logout_session, logout,
}
use smart_logistics.Identity.Sessions.{revoked-IsLive, opened-IsLive}

-- What an exchange of sessions does: the old one is marked, after the new one was added.
pub rotate-ok :
    (c : Settings) (k : Security) (q : Request) (stored : RefreshToken) (user : User) (db db' : Db)
    (a : IssuedTokens)
    → rotate c k q stored user db ≡ ok (a, db')
    → (id : ℕ) × (db'.users ≡ db.users)
      × (db'.tokens
          ≡ update_where
              (λ t. t.id == stored.id)
              (rotated q.now id)
              (db.tokens ++ new_token c k q id user ∷ []))
      × (unique_constraints db' ≡ true)
unfolding rotate
rotate-ok c k q stored user db db' a run =
    let (r, db1, issued, rest) =
      >>=-eq-ok (issue c k q user)
        (λ r. (do
          modify λ d. record d {
            tokens = update_where (λ t. t.id == stored.id) (rotated q.now r.1.id) d.tokens;
          }
          flush
          pure r.0))
        {s = db} {t = db'} {b = a} run in
    let (id, same, users, tokens) = issue-ok c k q user db db1 r issued in
    let db2 : Db = record db1 {
      tokens = update_where (λ t. t.id == stored.id) (rotated q.now r.1.id) db1.tokens;
    } in
    let (_, db3, flushed, last) = >>-eq-ok flush (pure r.0) {s = db2} {t = db'} {b = a} rest in
    let (e, unique) = flush-ok db2 db3 flushed in
    let e' : db' ≡ db2 = ap (λ (x : IssuedTokens × Db). x.1) (sym (ok-injective _ _ last)) ∙ e in
    (id, rw (e') users, rw (e', same, tokens) refl, rw (e') unique)

rotate-Live :
    (c : Settings) (k : Security) (q : Request) (stored : RefreshToken) (p : User → Bool)
    (user : User) (db : Db)
    → first_where p db.users ≡ some user
    → is_active user ≡ true
    → Live db
    → Live (finish db (rotate c k q stored user db)).1
rotate-Live c k q stored p user db found a l = go (rotate c k q stored user db) refl
  where
    go : (m : Result (IssuedTokens × Db)) → rotate c k q stored user db ≡ m → Live (finish db m).1
    go (err e) run = l
    go (ok (b, db')) run =
        let (id, users, tokens, _) = rotate-ok c k q stored user db db' b run in
        rw (users, tokens)
          (revoked-IsLive (λ t. t.id == stored.id) (rotated q.now id) db.users
            (db.tokens ++ new_token c k q id user ∷ []) (λ t. refl)
            (opened-IsLive (new_token c k q id user) db.users db.tokens
              (found_active p user db found a l) l))

pub unless_deleted-cases :
    (b : Bool) (u : User)
    → (unless_deleted b (some u) ≡ none) ⊎ (unless_deleted b (some u) ≡ some u)
unless_deleted-cases b u = elim (Bool-cases (is_none u.deleted_at || b)) [
  | inl kept ↦ inr (rw kept refl)
  | inr gone ↦ inl (rw gone refl)
]

rotate_for-Live :
    (c : Settings) (k : Security) (q : Request) (stored : RefreshToken) (db : Db)
    (found : Option User)
    → user_with_id stored.user_id db.users ≡ found
    → Live db
    → Live (rotate_for c k q stored (unless_deleted false found) db).1
unfolding rotate_for
rotate_for-Live c k q stored db none e l = l
rotate_for-Live c k q stored db (some user) e l = elim (unless_deleted-cases false user) [
  | inl gone ↦ rw gone l
  | inr there ↦ rw there (elim (Bool-cases (is_active user)) [
    | inl a ↦ rw a (rotate-Live c k q stored (λ u. u.id == stored.user_id) user db e a l)
    | inr idle ↦ rw idle l
  ])
]

pub revoke_all-Live :
    (now user_id : ℕ) (db : Db) → Live db → Live (finish db (revoke_all now user_id db)).1
unfolding revoke_all
revoke_all-Live now user_id db l =
    revoked-IsLive (is_open_of user_id) (revoked now) db.users db.tokens (λ t. refl) l

refresh_session-Live :
    (c : Settings) (k : Security) (q : Request) (stored : RefreshToken) (db : Db)
    → Live db
    → Live (refresh_session c k q stored db).1
unfolding refresh_session
refresh_session-Live c k q stored db l = elim (Bool-cases (is_revoked stored)) [
  | inl out ↦ rw out (revoke_all-Live q.now stored.user_id db l)
  | inr open_still ↦ rw open_still (elim (Bool-cases (leb stored.expires_at q.now)) [
    | inl late ↦ rw late l
    | inr early ↦
        rw early (rotate_for-Live c k q stored db (user_with_id stored.user_id db.users) refl l)
  ])
]

-- A refresh leaves only sessions of active users open, whatever it answers.
pub refresh-Live :
    (c : Settings) (k : Security) (q : Request) (raw_token : ℕ) (db : Db)
    → Live db
    → Live (refresh c k q raw_token db).1
unfolding refresh
refresh-Live c k q raw_token db l =
    elim (get_by_token (k.hash_token raw_token) db.tokens)
      as (λ m.
        Live
          (elim m as (λ _. Result IssuedTokens × Db) [
            | none ↦ (err authentication_error, db)
            | some stored ↦ refresh_session c k q stored db
          ]).1) [ none ↦ l | some stored ↦ refresh_session-Live c k q stored db l ]

logout_session-Live :
    (now user_id : ℕ) (found : Option RefreshToken) (db db' : Db)
    → logout_session now user_id found db ≡ ok (tt, db')
    → Live db
    → Live db'
unfolding logout_session
logout_session-Live now user_id none db db' run l = absurd (cc run)
logout_session-Live now user_id (some stored) db db' run l =
    let (_, rest) =
      raise_if-ok (not (stored.user_id == user_id)) authentication_error
        (if is_revoked stored then pure tt else revoke_one now stored) run in
    elim (Bool-cases (is_revoked stored)) [
      | inl out ↦
          subst Live
            (ap (λ (x : Unit {0} × Db). x.1) (ok-injective (tt, db) (tt, db') (rw out at rest))) l
      | inr open_still ↦
          let middle : Db = record db {
            tokens = update_where (λ t. t.id == stored.id) (revoked now) db.tokens;
          } in
          let (e, _) = flush-ok middle db' (rw open_still at rest) in
          subst Live (sym e)
            (revoked-IsLive (λ t. t.id == stored.id) (revoked now) db.users db.tokens (λ t. refl) l)
    ]

pub logout-Live :
    (k : Security) (now raw_token user_id : ℕ) (db db' : Db)
    → logout k now raw_token user_id db ≡ ok (tt, db')
    → Live db
    → Live db'
unfolding logout
logout-Live k now raw_token user_id db db' run l =
    logout_session-Live now user_id (get_by_token (k.hash_token raw_token) db.tokens) db db' run l
