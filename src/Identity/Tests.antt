-- ===== src/Identity/Tests.antt =====
-- The theorems of the Identity service at work on one user (4), whose account is locked after two
-- failures, and one session (20) of the token 77.
use smart_logistics.Base.{ℕ, ◌≡◌, refl, none, [], ◌∷◌, arith, str_eq, rows_where}
use smart_logistics.Platform.Errors.{Result, ok, err, account_locked, token_reuse}
use smart_logistics.Platform.Roles.{warehouse_operator}
use smart_logistics.Platform.Outbox.{add_event}
use smart_logistics.Identity.Models.{
  Db, User, active, suspended, RefreshToken, flush, uuid4, unique_constraints,
}
use smart_logistics.Identity.Repository.{
  get_by_email, revoke_all, warehouse_ids_for, sort_ids, insert_id, is_open_of,
}
use smart_logistics.Identity.Repository as Repository
use smart_logistics.Identity.Auth.{
  Settings, Security, Request, IssuedTokens, issue, login, rotate, rotate_for, refresh_session,
  refresh,
}
use smart_logistics.Identity.Auth.Rotation.{refresh_reuse}
use smart_logistics.Identity.Auth.Lockout.{lockout, tries, Found}
use smart_logistics.Identity.Users.{change_status, get, emit}
use smart_logistics.Identity.Sessions.Opened.{Live}
use smart_logistics.Identity.System.{here, next, refreshes, gets_status, Reach-Live}

abbrev settings : Settings
settings = record {
  access_token_ttl_minutes = 15;
  refresh_token_ttl_days = 14;
  max_failed_login_attempts = 2;
  account_lockout_minutes = 15;
  jwt_issuer = "identity";
  jwt_audience = "smart-logistics";
}

abbrev security : Security
security = record {
  verify_password = str_eq;
  hash_password = λ plain. plain;
  hash_token = λ token. token;
  lower = λ email. email;
}

abbrev at_time : ℕ → Request
at_time now = record { now = now; raw_refresh = 78; user_agent = none; ip_address = none }

abbrev operator : User
operator = record {
  id = 4;
  email = "ops@transfleet.com";
  full_name = "Ayesha Khan";
  phone = none;
  password_hash = "Dispatch!2026Ops";
  password_changed_at = none;
  role = warehouse_operator;
  status = active;
  courier_id = none;
  failed_login_attempts = 0;
  locked_until = none;
  last_login_at = none;
  deleted_at = none;
  deleted_by = none;
}

abbrev session : RefreshToken
session = record {
  id = 20;
  user_id = 4;
  token_hash = 77;
  expires_at = 1000;
  revoked_at = none;
  replaced_by_id = none;
  user_agent = none;
  ip_address = none;
}

abbrev one_session : Db
one_session = record {
  users = operator ∷ [];
  tokens = session ∷ [];
  assignments = record { id = 30; user_id = 4; warehouse_id = 10 } ∷ [];
  outbox = record { rows = []; next_seq = 1 };
  next_id = 100;
}

abbrev refreshed : Result IssuedTokens × Db
refreshed = refresh settings security (at_time 200) 77 one_session

abbrev issued : IssuedTokens
issued = record {
  access_token = record {
    user_id = 4;
    role = warehouse_operator;
    name = "Ayesha Khan";
    warehouse_ids = 10 ∷ [];
    courier_id = none;
    ttl = 900;
    issuer = "identity";
    audience = "smart-logistics";
  };
  refresh_token = 78;
  expires_in = 900;
}

refresh_run : refreshed ≡ (ok issued, refreshed.1)
unfolding refresh refresh_session rotate_for rotate issue uuid4 flush unique_constraints
    warehouse_ids_for sort_ids insert_id
refresh_run = refl

refresh_reuse_example :
    ((refresh settings security (at_time 300) 77 refreshed.1).0 ≡ err token_reuse)
    × (rows_where (is_open_of 4) (refresh settings security (at_time 300) 77 refreshed.1).1.tokens
        ≡ [])
refresh_reuse_example =
    refresh_reuse settings settings security (at_time 200) (at_time 300) 77 session one_session
      refreshed.1 issued refl refresh_run

lockout_example :
    Found settings security "ops@transfleet.com"
      (record operator { failed_login_attempts = 1 })
      (tries settings security "ops@transfleet.com" ((at_time 200, "guess") ∷ []) one_session)
    × (login settings security
          (at_time 400)
          "ops@transfleet.com"
          "Dispatch!2026Ops"
          (login settings security (at_time 210) "ops@transfleet.com" "again" (
            tries settings security "ops@transfleet.com"
              ((at_time 200, "guess") ∷ [])
              one_session)).1
        ≡ (
          err account_locked,
          (login settings security (at_time 210) "ops@transfleet.com" "again" (
              tries settings security "ops@transfleet.com"
                ((at_time 200, "guess") ∷ [])
                one_session)).1,
        ))
lockout_example =
    lockout settings security "ops@transfleet.com" ((at_time 200, "guess") ∷ []) (at_time 210)
      (at_time 400) "again" "Dispatch!2026Ops" operator one_session refl ((refl, refl), tt)
      (refl, refl) (omega arith) (omega arith)

-- An administrator (2) suspends the user.
abbrev suspended_db : Db
suspended_db = elim (change_status 250 4 suspended none 2 refreshed.1) [
  | ok (u, db) ↦ db
  | err e ↦ one_session
]

suspend_run :
    change_status 250 4 suspended none 2 refreshed.1
    ≡ ok (record operator { status = suspended }, suspended_db)
unfolding change_status get Repository.get revoke_all emit add_event refresh refresh_session
    rotate_for rotate issue uuid4 flush unique_constraints warehouse_ids_for sort_ids insert_id
suspend_run = refl

Reach-Live_example : Live suspended_db
Reach-Live_example =
    Reach-Live {start = one_session} {db = suspended_db}
      (next (next here (refreshes settings security (at_time 200) 77))
        (gets_status 250 4 suspended none 2 (record operator { status = suspended }) suspend_run))
      (record { owned = (refl, tt); unique = refl })
