-- ===== src/Identity/System.antt =====
-- The Identity service as a transition system: each step is one request of
-- services/identity/src/identity/api, or one consumed event, by anybody and at any time. A login or a
-- refresh is a step whatever it answers, since it may commit before it fails; a transaction that
-- raises is rolled back and is no step.
use smart_logistics.Base.{ℕ, ◌≡◌, String, Option}
use smart_logistics.Platform.Errors.{Result, ok}
use smart_logistics.Platform.Session.{finish}
use smart_logistics.Platform.Roles.{UserRole}
use smart_logistics.Identity.Models.{Db, User, UserStatus, UserWarehouseAssignment}
use smart_logistics.Identity.Auth.{Settings, Security, Request, login, refresh, logout, logout_all}
use smart_logistics.Identity.Users.{
  UserCreate, UserUpdate, create, update_profile, change_role, change_status, change_my_password,
  delete, restore,
}
use smart_logistics.Identity.Assignments.{
  assign_warehouse, unassign_warehouse, on_warehouse_deleted,
}
use smart_logistics.Identity.Sessions.Kept.{refresh-Live, logout-Live, revoke_all-Live}
use smart_logistics.Identity.Sessions.Opened.{Live, login-Live}
use smart_logistics.Identity.Sessions.Edited.{
  create-Live, update_profile-Live, change_my_password-Live, restore-Live, assign_warehouse-Live,
  unassign_warehouse-Live, on_warehouse_deleted-Live,
}
use smart_logistics.Identity.Sessions.Standing.{change_role-Live, change_status-Live, delete-Live}

pub data Step (db : Db) : Db → Type 0 where
  logs_in :
      (c : Settings) (k : Security) (q : Request) (email password : String)
      → Step db (login c k q email password db).1
  refreshes :
      (c : Settings) (k : Security) (q : Request) (raw_token : ℕ)
      → Step db (refresh c k q raw_token db).1
  logs_out :
      {db' : Db} (k : Security) (now raw_token user_id : ℕ)
      → logout k now raw_token user_id db ≡ ok (tt, db')
      → Step db db'
  logs_out_all : (now user_id : ℕ) → Step db (finish db (logout_all now user_id db)).1
  joins :
      {db' : Db} (k : Security) (now : ℕ) (payload : UserCreate) (u : User)
      → create k now payload db ≡ ok (u, db')
      → Step db db'
  edits :
      {db' : Db} (user_id : ℕ) (payload : UserUpdate) (u : User)
      → update_profile user_id payload db ≡ ok (u, db')
      → Step db db'
  gets_role :
      {db' : Db} (now user_id : ℕ) (role : UserRole) (reason : Option String) (actor_id : ℕ)
      (u : User)
      → change_role now user_id role reason actor_id db ≡ ok (u, db')
      → Step db db'
  gets_status :
      {db' : Db} (now user_id : ℕ) (status : UserStatus) (reason : Option String) (actor_id : ℕ)
      (u : User)
      → change_status now user_id status reason actor_id db ≡ ok (u, db')
      → Step db db'
  gets_password :
      {db' : Db} (k : Security) (now user_id : ℕ) (current new : String)
      → change_my_password k now user_id current new db ≡ ok (tt, db')
      → Step db db'
  leaves :
      {db' : Db} (now user_id actor_id : ℕ)
      → delete now user_id actor_id db ≡ ok (tt, db')
      → Step db db'
  returns : {db' : Db} (user_id : ℕ) (u : User) → restore user_id db ≡ ok (u, db') → Step db db'
  gains_warehouse :
      {db' : Db} (now : ℕ) (answer : Option (Result (Unit {0}))) (user_id warehouse_id : ℕ)
      (a : UserWarehouseAssignment)
      → assign_warehouse now answer user_id warehouse_id db ≡ ok (a, db')
      → Step db db'
  loses_warehouse :
      {db' : Db} (now user_id warehouse_id : ℕ)
      → unassign_warehouse now user_id warehouse_id db ≡ ok (tt, db')
      → Step db db'
  hears_of_deletion :
      {db' : Db} (now warehouse_id : ℕ)
      → on_warehouse_deleted now warehouse_id db ≡ ok (tt, db')
      → Step db db'

pub data Reach (start : Db) : Db → Type 0 where
  here : Reach start start
  next : {db db' : Db} → Reach start db → Step db db' → Reach start db'

Step-Live : {db db' : Db} → Step db db' → Live db → Live db'
Step-Live {db} {db'} (logs_in c k q email password) l = login-Live c k q email password db l
Step-Live {db} {db'} (refreshes c k q raw_token) l = refresh-Live c k q raw_token db l
Step-Live {db} {db'} (logs_out k now raw_token user_id run) l =
    logout-Live k now raw_token user_id db db' run l
Step-Live {db} {db'} (logs_out_all now user_id) l = revoke_all-Live now user_id db l
Step-Live {db} {db'} (joins k now payload u run) l = create-Live k now payload u db db' run l
Step-Live {db} {db'} (edits user_id payload u run) l =
    update_profile-Live user_id db db' payload u run l
Step-Live {db} {db'} (gets_role now user_id role reason actor_id u run) l =
    change_role-Live now user_id db db' role reason actor_id u run l
Step-Live {db} {db'} (gets_status now user_id status reason actor_id u run) l =
    change_status-Live now user_id db db' status reason actor_id u run l
Step-Live {db} {db'} (gets_password k now user_id current new run) l =
    change_my_password-Live k now user_id current new db db' run l
Step-Live {db} {db'} (leaves now user_id actor_id run) l =
    delete-Live now user_id db db' actor_id run l
Step-Live {db} {db'} (returns user_id u run) l = restore-Live user_id db db' u run l
Step-Live {db} {db'} (gains_warehouse now answer user_id warehouse_id a run) l =
    assign_warehouse-Live user_id db db' now answer warehouse_id a run l
Step-Live {db} {db'} (loses_warehouse now user_id warehouse_id run) l =
    unassign_warehouse-Live user_id db db' now warehouse_id run l
Step-Live {db} {db'} (hears_of_deletion now warehouse_id run) l =
    on_warehouse_deleted-Live now warehouse_id db db' run l

-- Whatever requests and events the service has handled, from a database with this property on and
-- in whatever order: every session that was not revoked belongs to a user who is active and not
-- deleted, and user ids are distinct.
pub Reach-Live : {start db : Db} → Reach start db → Live start → Live db
Reach-Live here l = l
Reach-Live (next r s) l = Step-Live s (Reach-Live r l)
