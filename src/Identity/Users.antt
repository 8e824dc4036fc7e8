-- ===== src/Identity/Users.antt =====
-- services/identity/src/identity/services/users.py: UserService, and the events of events.py, those
-- that the service publishes and the one that it consumes.
use smart_logistics.Base.{
  ℕ, String, true, false, not, Option, none, some, [], ◌∷◌, ◌++◌, ◌==◌, is_some, if◌then◌else◌,
}
use smart_logistics.Platform.Errors.{
  Result, ok, err, not_found, conflict, permission_denied, authentication_error,
}
use smart_logistics.Platform.Session.{Tx, ◌>>=◌, ◌>>◌, pure, lift, modify, or_raise, raise_if}
use smart_logistics.Platform.Roles.{UserRole}
use smart_logistics.Platform.Events.{Topic}
use smart_logistics.Platform.Outbox.{add_event}
use smart_logistics.Identity.Models.{
  Db, User, UserStatus, active, deactivated, is_active_status, is_active, UserProfile, Extra,
  no_extra, role_change, status_change, actor, flush, uuid4,
}
use smart_logistics.Identity.Repository as Repository
use smart_logistics.Identity.Repository.{
  save_user, user_with_id, revoke_all, list_for_user, get_assignment, delete_for_warehouse,
  is_assignment,
}
use smart_logistics.Identity.Auth.{Security}

-- UserEvents
abbrev pub user_created : String
user_created = "user.created"

abbrev pub user_updated : String
user_updated = "user.updated"

abbrev pub user_role_changed : String
user_role_changed = "user.role_changed"

abbrev pub user_status_changed : String
user_status_changed = "user.status_changed"

abbrev pub user_deleted : String
user_deleted = "user.deleted"

abbrev pub user_restored : String
user_restored = "user.restored"

abbrev pub user_scope_changed : String
user_scope_changed = "user.scope_changed"

-- `user_payload`
abbrev pub user_profile : User → UserProfile
user_profile user = record {
  id = user.id;
  email = user.email;
  full_name = user.full_name;
  phone = user.phone;
  role = user.role;
  status = user.status;
  courier_id = user.courier_id;
  deleted = is_some user.deleted_at;
}

unfoldable pub emit : String → User → Extra → Tx Db Unit
emit event_type user extra = do
  event_id ← uuid4
  modify λ db. record db {
    outbox =
        add_event Topic.identity event_id event_type user.id (user_profile user, extra) db.outbox;
  }

-- The requests of schemas.py. A field is unset, or set to a value that may be None.
pub record UserCreate : Type 0 where
  pub email : String
  pub full_name : String
  pub phone : Option String
  pub password : String
  pub role : UserRole

pub record UserUpdate : Type 0 where
  pub full_name : Option (Option String)
  pub phone : Option (Option String)

-- UserService.get
unfoldable pub get : ℕ → Tx Db User
get user_id = do found ← Repository.get user_id false; or_raise found not_found

-- `session.add(user)` and the UPDATE of a row
abbrev pub add_user : User → Tx Db Unit
add_user user = modify λ db. record db { users = db.users ++ user ∷ [] }

abbrev pub write_user : User → Tx Db Unit
write_user user = modify λ db. record db { users = save_user user db.users }

abbrev pub new_user : Security → ℕ → ℕ → UserCreate → User
new_user k now user_id payload = record {
  id = user_id;
  email = payload.email;
  full_name = payload.full_name;
  phone = payload.phone;
  password_hash = k.hash_password payload.password;
  password_changed_at = some now;
  role = payload.role;
  status = active;
  courier_id = none;
  failed_login_attempts = 0;
  locked_until = none;
  last_login_at = none;
  deleted_at = none;
  deleted_by = none;
}

unfoldable pub create : Security → ℕ → UserCreate → Tx Db User
unfolding emit
create k now payload = do
  user_id ← uuid4
  add_user (new_user k now user_id payload)
  flush
  emit user_created (new_user k now user_id payload) no_extra
  pure (new_user k now user_id payload)

-- `full_name` cannot be cleared.
abbrev pub name_of : User → Option (Option String) → Result String
name_of user none = ok user.full_name
name_of user (some none) = err conflict
name_of user (some (some name)) = ok name

abbrev pub phone_of : User → Option (Option String) → Option String
phone_of user none = user.phone
phone_of user (some phone) = phone

unfoldable pub update_profile : ℕ → UserUpdate → Tx Db User
unfolding get emit
update_profile user_id payload = do
  user ← get user_id
  name ← lift (name_of user payload.full_name)
  let new = record user { full_name = name; phone = phone_of user payload.phone }
  write_user new
  flush
  emit user_updated new no_extra
  pure new

unfoldable pub change_role : ℕ → ℕ → UserRole → Option String → ℕ → Tx Db User
unfolding get emit
change_role now user_id role reason actor_id = do
  user ← get user_id
  raise_if (user.id == actor_id) permission_denied
  write_user (record user { role = role })
  revoke_all now user.id
  flush
  emit user_role_changed (record user { role = role }) (role_change user.role reason actor_id)
  pure (record user { role = role })

-- The sessions of a user that is no longer active.
abbrev pub revoke_unless_active : ℕ → UserStatus → ℕ → Tx Db Unit
revoke_unless_active now status user_id =
    if is_active_status status then pure tt else (do revoke_all now user_id; pure tt)

unfoldable pub change_status : ℕ → ℕ → UserStatus → Option String → ℕ → Tx Db User
unfolding get emit
change_status now user_id status reason actor_id = do
  user ← get user_id
  raise_if (user.id == actor_id) permission_denied
  write_user (record user { status = status })
  revoke_unless_active now status user.id
  flush
  emit user_status_changed (record user { status = status })
      (status_change user.status reason actor_id)
  pure (record user { status = status })

unfoldable pub change_password : Security → ℕ → User → String → String → Tx Db Unit
change_password k now user current new = do
  raise_if (not (k.verify_password current user.password_hash)) permission_denied
  raise_if (k.verify_password new user.password_hash) conflict
  write_user (record user { password_hash = k.hash_password new; password_changed_at = some now })
  revoke_all now user.id
  flush

-- `get_current_user` of api/deps.py
unfoldable pub get_current_user : ℕ → Tx Db User
get_current_user user_id = do
  found ← Repository.get user_id false
  user ← or_raise found authentication_error
  raise_if (not (is_active user)) authentication_error
  pure user

-- The route that changes the caller's password.
unfoldable pub change_my_password : Security → ℕ → ℕ → String → String → Tx Db Unit
unfolding get_current_user change_password
change_my_password k now user_id current new = do
  user ← get_current_user user_id
  change_password k now user current new

abbrev pub deleted_user : ℕ → ℕ → User → User
deleted_user now actor_id user = record user {
  status = deactivated;
  deleted_at = some now;
  deleted_by = some actor_id;
}

unfoldable pub delete : ℕ → ℕ → ℕ → Tx Db Unit
unfolding get emit
delete now user_id actor_id = do
  user ← get user_id
  raise_if (user.id == actor_id) permission_denied
  write_user (deleted_user now actor_id user)
  revoke_all now user.id
  flush
  emit user_deleted (deleted_user now actor_id user) (actor actor_id)

abbrev pub restored_user : User → User
restored_user user = record user { status = active; deleted_at = none; deleted_by = none }

unfoldable pub restore : ℕ → Tx Db User
unfolding emit
restore user_id = do
  found ← Repository.get user_id true
  user ← or_raise found not_found
  write_user (restored_user user)
  flush
  emit user_restored (restored_user user) no_extra
  pure (restored_user user)
