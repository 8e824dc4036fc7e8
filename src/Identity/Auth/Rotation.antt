-- ===== src/Identity/Auth/Rotation.antt =====
-- The exchange of a refresh token (`refresh` of
-- services/identity/src/identity/services/auth.py), and what comes of a token that comes back.
use mathlib.Core.Path.{subst}
use smart_logistics.Base.{
  ℕ, ◌≡◌, refl, sym, ap, ◌∙◌, Bool, true, false, not, Option, none, some, List, [], ◌∷◌, ◌++◌,
  arith, ◌==◌, ==_refl, if◌then◌else◌, first_where, found-head, update_where, rows_where,
  Bool-cases, inl, inr, leb, ◌<◌,
}
use smart_logistics.Platform.Errors.{
  Result, ok, err, authentication_error, account_inactive, token_reuse,
}
use smart_logistics.Platform.Session.{finish}
use smart_logistics.Identity.Models.{Db, User, is_active, RefreshToken, is_revoked}
use smart_logistics.Identity.Repository.{
  get_by_token, unless_deleted, user_with_id, revoke_all, revoked, is_open_of,
}
use smart_logistics.Identity.Auth.{
  Settings, Security, Request, IssuedTokens, new_token, rotated, rotate, rotate_for,
  refresh_session, refresh,
}
use smart_logistics.Identity.Sessions.Kept.{rotate-ok, unless_deleted-cases}

pub finish-ok :
    {S A : Type 0} (s : S) (m : Result (A × S)) (a : A) (t : S)
    → ◌≡◌ {A = Result A × S} (finish s m) (ok a, t)
    → m ≡ ok (a, t)
finish-ok s (ok (b, u)) a t e = ground arith
finish-ok s (err x) a t e = absurd (cc e)

-- What an exchange read and wrote.
pub record Rotates (c : Settings) (k : Security) (q : Request) (stored : RefreshToken) (db db' : Db)
    : Type 0 where
  pub valid : is_revoked stored ≡ false
  pub early : q.now < stored.expires_at
  pub user : User
  pub found : user_with_id stored.user_id db.users ≡ some user
  pub active : is_active user ≡ true
  pub replacement : ℕ
  pub users : db'.users ≡ db.users
  pub tokens :
      db'.tokens
      ≡ update_where
          (λ t. t.id == stored.id)
          (rotated q.now replacement)
          (db.tokens ++ new_token c k q replacement user ∷ [])

module _ (c : Settings) (k : Security) (q : Request) (stored : RefreshToken) (db db' : Db)
    (a : IssuedTokens) where
  rotate_for-Rotates :
      (m : Option User)
      → user_with_id stored.user_id db.users ≡ m
      → rotate_for c k q stored (unless_deleted false m) db ≡ (ok a, db')
      → is_revoked stored ≡ false
      → q.now < stored.expires_at
      → Rotates c k q stored db db'
  unfolding rotate_for
  rotate_for-Rotates none e run valid early = absurd (cc run)
  rotate_for-Rotates (some user) e run valid early = elim (unless_deleted-cases false user) [
    | inl gone ↦ absurd (cc (rw gone at run))
    | inr there ↦ go (is_active user) refl (rw there at run)
  ]
    where
      go :
          (b : Bool)
          → is_active user ≡ b
          → ◌≡◌ {A = Result IssuedTokens × Db}
              (if not b
                then (err account_inactive, db)
                else finish db (rotate c k q stored user db))
              (ok a, db')
          → Rotates c k q stored db db'
      go false i r = absurd (cc r)
      go true i r =
          let (id, users, tokens, _) =
            rotate-ok c k q stored user db db' a
              (finish-ok db (rotate c k q stored user db) a db' r) in
          record {
            valid = valid;
            early = early;
            user = user;
            found = e;
            active = i;
            replacement = id;
            users = users;
            tokens = tokens;
          }

  -- A refresh that succeeds for a stored session: the session was neither revoked nor expired and
  -- its user is active and not deleted; it is marked as revoked and replaced, one new session of the user is
  -- added, and no user changes.
  pub refresh-Rotates :
      (raw_token : ℕ)
      → get_by_token (k.hash_token raw_token) db.tokens ≡ some stored
      → refresh c k q raw_token db ≡ (ok a, db')
      → Rotates c k q stored db db'
  unfolding refresh refresh_session
  refresh-Rotates raw_token found run = go (is_revoked stored) refl (rw (found, refresh) at run)
    where
      late :
          (b : Bool)
          → leb stored.expires_at q.now ≡ b
          → is_revoked stored ≡ false
          → ◌≡◌ {A = Result IssuedTokens × Db}
              (if b
                then (err authentication_error, db)
                else rotate_for c k q stored
                    (unless_deleted false (user_with_id stored.user_id db.users))
                    db)
              (ok a, db')
          → Rotates c k q stored db db'
      late true e valid r = absurd (cc r)
      late false e valid r =
          rotate_for-Rotates (user_with_id stored.user_id db.users) refl r valid (ground arith)

      go :
          (b : Bool)
          → is_revoked stored ≡ b
          → ◌≡◌ {A = Result IssuedTokens × Db}
              (if b
                then (err token_reuse, (finish db (revoke_all q.now stored.user_id db)).1)
                else if leb stored.expires_at q.now
                then (err authentication_error, db)
                else rotate_for c k q stored
                    (unless_deleted false (user_with_id stored.user_id db.users))
                    db)
              (ok a, db')
          → Rotates c k q stored db db'
      go true e r = absurd (cc r)
      go false e r = late (leb stored.expires_at q.now) refl e r

-- The row that a query finds, after an UPDATE that leaves what the query asks for, and an INSERT.
first_where-update {ℓ} :
    {A : Type ℓ} (p q : A → Bool) (f : A → A) (a : A) (xs ys : List A)
    → ((x : A) → p (f x) ≡ p x)
    → q a ≡ true
    → first_where p xs ≡ some a
    → first_where p (update_where q f (xs ++ ys)) ≡ some (f a)
first_where-update p q f a [] ys keeps qa found = absurd (cc found)
first_where-update {A} p q f a (x ∷ xs) ys keeps qa found = elim (Bool-cases (p x)) [
  | inl yes_p ↦
      let same = found-head p a x xs yes_p found in
      subst
        (λ (y : A).
          first_where p ((if q y then f y else y) ∷ update_where q f (xs ++ ys)) ≡ some (f a))
        (sym same) (rw (qa, keeps a, ap p (sym same) ∙ yes_p) refl)
  | inr no_p ↦
      let rest = first_where-update p q f a xs ys keeps qa (rw no_p at found) in
      elim (Bool-cases (q x)) [
        | inl yes_q ↦ rw (yes_q, keeps x, no_p) rest
        | inr no_q ↦ rw (no_q, no_p) rest
      ]
]

closed_none :
    (now user_id : ℕ) (tokens : List RefreshToken)
    → rows_where (is_open_of user_id) (update_where (is_open_of user_id) (revoked now) tokens) ≡ []
closed_none now user_id [] = refl
closed_none now user_id (t ∷ tokens) = ground (arith, closed_none now user_id tokens)

-- A refresh token works once: after a refresh that succeeded, a refresh with the same token, at any
-- time and from anybody, is refused as a reuse, and leaves the user without a session that was not
-- revoked; the one that the first refresh opened is revoked too.
pub refresh_reuse :
    (c c' : Settings) (k : Security) (q q' : Request) (raw_token : ℕ) (stored : RefreshToken)
    (db db' : Db) (a : IssuedTokens)
    → get_by_token (k.hash_token raw_token) db.tokens ≡ some stored
    → refresh c k q raw_token db ≡ (ok a, db')
    → ((refresh c' k q' raw_token db').0 ≡ err token_reuse)
      × (rows_where (is_open_of stored.user_id) (refresh c' k q' raw_token db').1.tokens ≡ [])
unfolding refresh refresh_session revoke_all
refresh_reuse c c' k q q' raw_token stored db db' a found run =
    let r = refresh-Rotates c k q stored db db' a raw_token found run in
    let again : get_by_token (k.hash_token raw_token) db'.tokens
        ≡ some (rotated q.now r.replacement stored) =
      rw (r.tokens) (
        first_where-update (λ t. t.token_hash == k.hash_token raw_token) (λ t. t.id == stored.id)
          (rotated q.now r.replacement) stored db.tokens (new_token c k q r.replacement r.user ∷ [])
          (λ t. refl) (==_refl stored.id) found) in
    (rw (again, refresh) refl, rw (again, refresh) (closed_none q'.now stored.user_id db'.tokens))
