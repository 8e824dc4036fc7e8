-- ===== src/Identity/Models.antt =====
-- services/identity/src/identity/models.py: the tables and their constraints, and the one session
-- over them. Identifiers, opaque tokens and their hashes are numbers, since the code only compares
-- them; times are seconds since an epoch. created_at and updated_at, which only order listings, are
-- left out.
use smart_logistics.Base.{
  ℕ, ◌+◌, String, Bool, true, false, not, ◌&&◌, Option, none, some, List, [], ◌∷◌, str_eq, is_some,
  is_none, if◌then◌else◌, any, distinct, map,
}
use smart_logistics.Platform.Errors.{SqlState, integrity_error, ok, err}
use smart_logistics.Platform.Session.{Tx}
use smart_logistics.Platform.Roles.{UserRole}
use smart_logistics.Platform.Outbox.{Outbox}
use smart_logistics.Inventory.Models.{distinct_pairs}

pub data UserStatus : Type 0 where
  pending_activation active suspended deactivated : UserStatus

-- `status is UserStatus.ACTIVE`
abbrev pub is_active_status : UserStatus → Bool
is_active_status active = true
is_active_status _ = false

pub record User : Type 0 where
  pub id : ℕ
  pub email : String
  pub full_name : String
  pub phone : Option String
  pub password_hash : String
  pub password_changed_at : Option ℕ
  pub role : UserRole
  pub status : UserStatus
  pub courier_id : Option ℕ
  pub failed_login_attempts : ℕ
  pub locked_until : Option ℕ
  pub last_login_at : Option ℕ
  pub deleted_at : Option ℕ
  pub deleted_by : Option ℕ

abbrev pub is_active : User → Bool
is_active user = is_active_status user.status && is_none user.deleted_at

pub record RefreshToken : Type 0 where
  pub id : ℕ
  pub user_id : ℕ
  pub token_hash : ℕ
  pub expires_at : ℕ
  pub revoked_at : Option ℕ
  pub replaced_by_id : Option ℕ
  pub user_agent : Option String
  pub ip_address : Option String

abbrev pub is_revoked : RefreshToken → Bool
is_revoked token = is_some token.revoked_at

pub record UserWarehouseAssignment : Type 0 where
  pub id : ℕ
  pub user_id : ℕ
  pub warehouse_id : ℕ

-- The payload of the events of events.py: the public profile, with what the call adds.
pub record UserProfile : Type 0 where
  pub id : ℕ
  pub email : String
  pub full_name : String
  pub phone : Option String
  pub role : UserRole
  pub status : UserStatus
  pub courier_id : Option ℕ
  pub deleted : Bool

pub data Extra : Type 0 where
  no_extra : Extra
  role_change : UserRole → Option String → ℕ → Extra
  status_change : UserStatus → Option String → ℕ → Extra
  actor : ℕ → Extra
  added_warehouse removed_warehouse : ℕ → Extra

-- The service's database. `next_id` is the next identifier that uuid4 generates.
pub record Db : Type 0 where
  pub users : List User
  pub tokens : List RefreshToken
  pub assignments : List UserWarehouseAssignment
  pub outbox : Outbox (UserProfile × Extra)
  pub next_id : ℕ

-- No two of the texts are equal.
abbrev pub distinct_texts : List String → Bool
distinct_texts [] = true
distinct_texts (t ∷ rest) = not (any (str_eq t) rest) && distinct_texts rest

-- The values of a column that are not NULL.
abbrev pub values : List (Option ℕ) → List ℕ
values [] = []
values (none ∷ rest) = values rest
values (some x ∷ rest) = x ∷ values rest

abbrev pub token_hashes : List RefreshToken → List ℕ
token_hashes = map (λ t. t.token_hash)

abbrev pub user_ids : List User → List ℕ
user_ids = map (λ u. u.id)

-- The primary key of users, the unique columns email, courier_id and token_hash, and
-- uq_user_warehouse_assignment. Other primary keys are generated and new.
unfoldable pub unique_constraints : Db → Bool
unique_constraints db =
    distinct (user_ids db.users)
    && distinct_texts (map (λ u. u.email) db.users)
    && distinct (values (map (λ u. u.courier_id) db.users))
    && distinct (token_hashes db.tokens)
    && distinct_pairs (map (λ a. (a.user_id, a.warehouse_id)) db.assignments)

-- `session.flush()`
unfoldable pub flush : Tx Db Unit
flush db =
    if unique_constraints db then ok (tt, db) else err (integrity_error SqlState.unique_violation)

-- `uuid.uuid4()`
unfoldable pub uuid4 : Tx Db ℕ
uuid4 db = ok (db.next_id, record db { next_id = db.next_id + 1 })
