-- ===== src/Identity/Repository.antt =====
-- services/identity/src/identity/repository.py: the queries. `lower` is str.lower, `ilike` compares
-- a column with `%<text stripped>%`, which the database does; the hash of a token is given where its
-- text is in the code.
use smart_logistics.Base.{
  satisfies, ℕ, String, Bool, true, not, ◌&&◌, ◌||◌, Option, none, some, List, [], ◌∷◌, map, ltb,
  ◌==◌, str_eq, is_none, if◌then◌else◌, rows_where, update_where, first_where, length,
}
use smart_logistics.Platform.Errors.{ok}
use smart_logistics.Platform.Session.{Tx, gets}
use smart_logistics.Platform.Roles.{UserRole, is_role}
use smart_logistics.Inventory.Stock.{take, drop}
use smart_logistics.Identity.Models.{
  Db, User, UserStatus, pending_activation, active, suspended, deactivated, RefreshToken,
  UserWarehouseAssignment,
}

-- `session.get(User, user_id)`
abbrev pub user_with_id : ℕ → List User → Option User
user_with_id user_id users = first_where (λ u. u.id == user_id) users

-- A row that is live, or any if deleted ones are included.
abbrev pub unless_deleted : Bool → Option User → Option User
unless_deleted include_deleted none = none
unless_deleted include_deleted (some u) =
    if is_none u.deleted_at || include_deleted then some u else none

-- UserRepository.get
unfoldable pub get : ℕ → Bool → Tx Db (Option User)
get user_id include_deleted =
    gets λ db. unless_deleted include_deleted (user_with_id user_id db.users)

-- The WHERE clause of `get_by_email`, on an address in lower case.
abbrev pub has_email : String → User → Bool
has_email email u = str_eq u.email email && is_none u.deleted_at

unfoldable pub get_by_email : (String → String) → String → List User → Option User
get_by_email lower email users = first_where (has_email (lower email)) users

-- UPDATE users SET .. WHERE id = ..
abbrev pub save_user : User → List User → List User
save_user user = update_where (λ u. u.id == user.id) (λ _. user)

abbrev pub is_same_status : UserStatus → UserStatus → Bool
is_same_status pending_activation pending_activation = true
is_same_status active active = true
is_same_status suspended suspended = true
is_same_status deactivated deactivated = true
is_same_status _ _ = Bool.false

-- `if search:`
abbrev pub is_found : (String → String → Bool) → Option String → User → Bool
is_found ilike none u = true
is_found ilike (some text) u = str_eq text "" || ilike text u.full_name || ilike text u.email

abbrev pub is_listed :
    (String → String → Bool) → Option UserRole → Option UserStatus → Option String → User → Bool
is_listed ilike role status search u =
    is_none u.deleted_at
    && satisfies is_role role u.role
    && satisfies is_same_status status u.status
    && is_found ilike search u

-- One page, and the number of all rows.
unfoldable pub list_users :
    (String → String → Bool)
    → Option UserRole
    → Option UserStatus
    → Option String
    → ℕ
    → ℕ
    → Tx Db (List User × ℕ)
list_users ilike role status search limit offset db =
    let rows = rows_where (is_listed ilike role status search) db.users in
    ok ((take limit (drop offset rows), length rows), db)

-- RefreshTokenRepository.get_by_token; the row is locked where the code asks for it
abbrev pub get_by_token : ℕ → List RefreshToken → Option RefreshToken
get_by_token token_hash tokens = first_where (λ t. t.token_hash == token_hash) tokens

-- The sessions of a user that are neither revoked nor expired.
unfoldable pub list_active : ℕ → ℕ → Tx Db (List RefreshToken)
list_active now user_id = gets λ db.
    rows_where (λ t. t.user_id == user_id && is_none t.revoked_at && ltb now t.expires_at) db.tokens

-- The WHERE clause of `revoke_all`
abbrev pub is_open_of : ℕ → RefreshToken → Bool
is_open_of user_id t = t.user_id == user_id && is_none t.revoked_at

abbrev pub revoked : ℕ → RefreshToken → RefreshToken
revoked now t = record t { revoked_at = some now }

unfoldable pub revoke_all : ℕ → ℕ → Tx Db ℕ
revoke_all now user_id db = ok (
  length (rows_where (is_open_of user_id) db.tokens),
  record db { tokens = update_where (is_open_of user_id) (revoked now) db.tokens },
)

-- `order_by(warehouse_id)`
unfoldable pub insert_id : ℕ → List ℕ → List ℕ
insert_id x [] = x ∷ []
insert_id x (y ∷ ys) = let rest = insert_id x ys in if ltb y x then y ∷ rest else x ∷ y ∷ ys

unfoldable pub sort_ids : List ℕ → List ℕ
unfolding insert_id
sort_ids [] = []
sort_ids (x ∷ xs) = insert_id x (sort_ids xs)

unfoldable pub warehouse_ids_for : ℕ → Tx Db (List ℕ)
unfolding sort_ids
warehouse_ids_for user_id = gets λ db.
    sort_ids (map (λ a. a.warehouse_id) (rows_where (λ a. a.user_id == user_id) db.assignments))

unfoldable pub list_for_user : ℕ → Tx Db (List UserWarehouseAssignment)
list_for_user user_id = gets λ db. rows_where (λ a. a.user_id == user_id) db.assignments

abbrev pub is_assignment : ℕ → ℕ → UserWarehouseAssignment → Bool
is_assignment user_id warehouse_id a = a.user_id == user_id && a.warehouse_id == warehouse_id

-- AssignmentRepository.get
unfoldable pub get_assignment : ℕ → ℕ → Tx Db (Option UserWarehouseAssignment)
get_assignment user_id warehouse_id =
    gets λ db. first_where (is_assignment user_id warehouse_id) db.assignments

-- DELETE .. RETURNING user_id
unfoldable pub delete_for_warehouse : ℕ → Tx Db (List ℕ)
delete_for_warehouse warehouse_id db = ok (
  map (λ a. a.user_id) (rows_where (λ a. a.warehouse_id == warehouse_id) db.assignments),
  record db { assignments = rows_where (λ a. not (a.warehouse_id == warehouse_id)) db.assignments },
)
