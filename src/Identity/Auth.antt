-- ===== src/Identity/Auth.antt =====
-- services/identity/src/identity/services/auth.py: AuthService, with the commits of api/auth.py.
-- `login` and `refresh` commit before some of their errors, so they are given with the database that
-- the request leaves; the other methods are transactions.
pub mod Rotation
pub mod Lockout
use smart_logistics.Base.{
  ℕ, ◌+◌, ◌*◌, String, Bool, not, ◌||◌, Option, none, some, List, [], ◌∷◌, ◌++◌, ltb, leb, ◌==◌,
  if◌then◌else◌, update_where,
}
use smart_logistics.Platform.Errors.{
  Error, Result, ok, err, authentication_error, account_locked, account_inactive, token_reuse,
}
use smart_logistics.Platform.Session.{Tx, ◌>>=◌, ◌>>◌, pure, modify, raise, raise_if, finish}
use smart_logistics.Platform.Roles.{UserRole, warehouse_operator, is_role}
use smart_logistics.Identity.Models.{Db, User, is_active, RefreshToken, is_revoked, flush, uuid4}
use smart_logistics.Identity.Repository.{
  get_by_email, get_by_token, save_user, unless_deleted, user_with_id, revoke_all, revoked,
  warehouse_ids_for,
}

-- The settings that the service reads.
pub record Settings : Type 0 where
  pub access_token_ttl_minutes : ℕ
  pub refresh_token_ttl_days : ℕ
  pub max_failed_login_attempts : ℕ
  pub account_lockout_minutes : ℕ
  pub jwt_issuer : String
  pub jwt_audience : String

-- security.py: Argon2 and SHA-256 are libraries. `hash_password` is the hash of one call, whose salt
-- is random.
pub record Security : Type 0 where
  pub verify_password : String → String → Bool
  pub hash_password : String → String
  pub hash_token : ℕ → ℕ
  pub lower : String → String

-- What `sign_access_token` of keys.py is given to sign.
pub record AccessToken : Type 0 where
  pub user_id : ℕ
  pub role : UserRole
  pub name : String
  pub warehouse_ids : List ℕ
  pub courier_id : Option ℕ
  pub ttl : ℕ
  pub issuer : String
  pub audience : String

pub record IssuedTokens : Type 0 where
  pub access_token : AccessToken
  pub refresh_token : ℕ
  pub expires_in : ℕ

-- What a request brings: its clock, the token that `generate_token` draws for it, and the client.
pub record Request : Type 0 where
  pub now : ℕ
  pub raw_refresh : ℕ
  pub user_agent : Option String
  pub ip_address : Option String

-- `user.locked_until and user.locked_until > utcnow()`
abbrev pub is_locked : ℕ → User → Bool
is_locked now user = elim user.locked_until [ none ↦ Bool.false | some t ↦ ltb now t ]

abbrev pub scope_of : User → Tx Db (List ℕ)
scope_of user = if is_role user.role warehouse_operator then warehouse_ids_for user.id else pure []

-- The row of a session. The request has what the code keeps of the header: 255 characters, if any.
abbrev pub new_token : Settings → Security → Request → ℕ → User → RefreshToken
new_token c k q token_id user = record {
  id = token_id;
  user_id = user.id;
  token_hash = k.hash_token q.raw_refresh;
  expires_at = q.now + c.refresh_token_ttl_days * 86400;
  revoked_at = none;
  replaced_by_id = none;
  user_agent = q.user_agent;
  ip_address = q.ip_address;
}

abbrev pub access_token : Settings → List ℕ → User → AccessToken
access_token c warehouse_ids user = record {
  user_id = user.id;
  role = user.role;
  name = user.full_name;
  warehouse_ids = warehouse_ids;
  courier_id = user.courier_id;
  ttl = c.access_token_ttl_minutes * 60;
  issuer = c.jwt_issuer;
  audience = c.jwt_audience;
}

abbrev pub add_token : RefreshToken → Tx Db Unit
add_token token = modify λ db. record db { tokens = db.tokens ++ token ∷ [] }

-- `_issue`
unfoldable pub issue : Settings → Security → Request → User → Tx Db (IssuedTokens × RefreshToken)
issue c k q user = do
  warehouse_ids ← scope_of user
  token_id ← uuid4
  add_token (new_token c k q token_id user)
  flush
  pure (
    record {
      access_token = access_token c warehouse_ids user;
      refresh_token = q.raw_refresh;
      expires_in = c.access_token_ttl_minutes * 60;
    },
    new_token c k q token_id user,
  )

-- `_register_failed_attempt`
unfoldable pub register_failed_attempt : Settings → ℕ → User → User
register_failed_attempt c now user =
    if leb c.max_failed_login_attempts (user.failed_login_attempts + 1)
    then record user {
      locked_until = some (now + c.account_lockout_minutes * 60);
      failed_login_attempts = 0;
    }
    else record user { failed_login_attempts = user.failed_login_attempts + 1 }

-- The row of a user whose password was right.
abbrev pub signed_in : ℕ → User → User
signed_in now user = record user {
  failed_login_attempts = 0;
  locked_until = none;
  last_login_at = some now;
}

-- The end of `login`.
unfoldable pub sign_in : Settings → Security → Request → User → Tx Db (User × IssuedTokens)
unfolding issue
sign_in c k q user = do
  modify λ db. record db { users = save_user (signed_in q.now user) db.users }
  issued ← issue c k q (signed_in q.now user)
  pure (signed_in q.now user, issued.0)

-- `login` of a user that was found. The failed attempt is committed.
unfoldable pub login_as :
    Settings → Security → Request → String → User → Db → Result (User × IssuedTokens) × Db
unfolding register_failed_attempt sign_in
login_as c k q password user db =
    if is_locked q.now user
    then (err account_locked, db)
    else if not (k.verify_password password user.password_hash)
    then (
      err authentication_error,
      record db { users = save_user (register_failed_attempt c q.now user) db.users },
    )
    else if not (is_active user)
    then (err account_inactive, db)
    else finish db (sign_in c k q user db)

unfoldable pub login :
    Settings → Security → Request → String → String → Db → Result (User × IssuedTokens) × Db
unfolding login_as get_by_email
login c k q email password db = elim (get_by_email k.lower email db.users) [
  | none ↦ (err authentication_error, db)
  | some user ↦ login_as c k q password user db
]

-- A session that was exchanged for another.
abbrev pub rotated : ℕ → ℕ → RefreshToken → RefreshToken
rotated now replacement t = record t { revoked_at = some now; replaced_by_id = some replacement }

-- The end of `refresh`, for a user that was found.
unfoldable pub rotate : Settings → Security → Request → RefreshToken → User → Tx Db IssuedTokens
unfolding issue
rotate c k q stored user = do
  issued ← issue c k q user
  modify λ db. record db {
    tokens = update_where (λ t. t.id == stored.id) (rotated q.now issued.1.id) db.tokens;
  }
  flush
  pure issued.0

-- The user of a session, if there is one.
unfoldable pub rotate_for :
    Settings → Security → Request → RefreshToken → Option User → Db → Result IssuedTokens × Db
unfolding rotate
rotate_for c k q stored none db = (err account_inactive, db)
rotate_for c k q stored (some user) db =
    if not (is_active user)
    then (err account_inactive, db)
    else finish db (rotate c k q stored user db)

-- `refresh` of a session that was found. The revocation of all sessions is committed.
unfoldable pub refresh_session :
    Settings → Security → Request → RefreshToken → Db → Result IssuedTokens × Db
unfolding rotate_for revoke_all
refresh_session c k q stored db =
    if is_revoked stored
    then (err token_reuse, (finish db (revoke_all q.now stored.user_id db)).1)
    else if leb stored.expires_at q.now
    then (err authentication_error, db)
    else rotate_for c k q stored (unless_deleted Bool.false (user_with_id stored.user_id db.users))
        db

unfoldable pub refresh : Settings → Security → Request → ℕ → Db → Result IssuedTokens × Db
unfolding refresh_session
refresh c k q raw_token db = elim (get_by_token (k.hash_token raw_token) db.tokens) [
  | none ↦ (err authentication_error, db)
  | some stored ↦ refresh_session c k q stored db
]

abbrev pub revoke_one : ℕ → RefreshToken → Tx Db Unit
revoke_one now stored = do
  modify λ db. record db { tokens = update_where (λ t. t.id == stored.id) (revoked now) db.tokens }
  flush

unfoldable pub logout_session : ℕ → ℕ → Option RefreshToken → Tx Db Unit
logout_session now user_id none = raise authentication_error
logout_session now user_id (some stored) = do
  raise_if (not (stored.user_id == user_id)) authentication_error
  if is_revoked stored then pure tt else revoke_one now stored

unfoldable pub logout : Security → ℕ → ℕ → ℕ → Tx Db Unit
unfolding logout_session
logout k now raw_token user_id db =
    logout_session now user_id (get_by_token (k.hash_token raw_token) db.tokens) db

abbrev pub logout_all : ℕ → ℕ → Tx Db ℕ
logout_all = revoke_all
