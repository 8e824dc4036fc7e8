-- ===== src/Platform/Errors.antt =====
-- libs/sl-platform/src/sl_platform/errors.py: the exceptions of all services in one type, and
-- their translation to an answer. The texts of messages and the headers are not modelled.
use smart_logistics.Base.{ℕ, ◌≡◌, String, Bool, true, false}

-- The SQLSTATE of an IntegrityError; `other` is any state that the module does not name.
pub data SqlState : Type 0 where
  unique_violation foreign_key_violation check_violation not_null_violation other : SqlState

-- DomainError and its subclasses, those that the services add, and what is raised below them:
-- SQLAlchemy's IntegrityError and StaleDataError, and Python's KeyError.
pub data Error : Type 0 where
  not_found conflict authentication_error permission_denied : Error
  invalid_reference constraint_violation concurrent_update upstream_unavailable : Error
  remote_error : ℕ → String → Error
  insufficient_stock reservation_mismatch warehouse_not_operational : Error
  idempotency_conflict request_in_progress : Error
  account_locked account_inactive token_reuse : Error
  integrity_error : SqlState → Error
  stale_data key_error : Error

-- What a call that may raise returns.
pub data Result {ℓ} (A : Type ℓ) : Type ℓ where
  ok : A → Result A
  err : Error → Result A

pub ok-injective {ℓ} : {A : Type ℓ} (a b : A) → ok a ≡ ok b → a ≡ b
ok-injective a b e = cc

abbrev pub is_ok {ℓ} : {A : Type ℓ} → Result A → Bool
is_ok (ok a) = true
is_ok (err e) = false

unfoldable pub translate_integrity_error : SqlState → Error
translate_integrity_error SqlState.unique_violation = conflict
translate_integrity_error SqlState.foreign_key_violation = invalid_reference
translate_integrity_error SqlState.check_violation = constraint_violation
translate_integrity_error SqlState.not_null_violation = constraint_violation
translate_integrity_error SqlState.other = conflict

-- The exception handlers of the application: the class that an exception is answered as.
unfoldable pub handled : Error → Error
unfolding translate_integrity_error
handled (integrity_error s) = translate_integrity_error s
handled stale_data = concurrent_update
handled e = e

-- `status_code` of each class. What has no handler is the framework's answer 500.
unfoldable pub status_code : Error → ℕ
status_code not_found = 404
status_code conflict = 409
status_code authentication_error = 401
status_code permission_denied = 403
status_code invalid_reference = 409
status_code constraint_violation = 422
status_code concurrent_update = 409
status_code upstream_unavailable = 503
status_code (remote_error s c) = s
status_code insufficient_stock = 409
status_code reservation_mismatch = 409
status_code warehouse_not_operational = 409
status_code idempotency_conflict = 422
status_code request_in_progress = 409
status_code account_locked = 401
status_code account_inactive = 401
status_code token_reuse = 401
status_code _ = 500
