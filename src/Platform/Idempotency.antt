-- ===== src/Platform/Idempotency.antt =====
-- libs/sl-platform/src/sl_platform/idempotency.py and models.py (IdempotencyKey): requests with a
-- key, whose responses are stored. `B` is the type of response bodies. A request's hash is a number, which
-- `hash_payload` computes with the JSON and SHA-256 libraries. The clock is read once in a call.
pub mod Replays
pub mod Leases
use smart_logistics.Base.{
  ℕ, ◌+◌, String, Bool, true, false, not, ◌&&◌, ◌||◌, Option, none, some, List, [], ◌∷◌, ◌++◌, leb,
  ltb, ◌==◌, str_eq, is_some, is_none, if◌then◌else◌, rows_where, update_where, first_where, length,
}
use smart_logistics.Platform.Errors.{
  Error, Result, ok, err, idempotency_conflict, request_in_progress,
}
use smart_logistics.Platform.Session.{Tx}

pub record IdempotencyKey (B : Type 0) : Type 0 where
  pub id : ℕ
  pub owner : String
  pub key : String
  pub endpoint : String
  pub request_hash : ℕ
  pub response_status : Option ℕ
  pub response_body : Option B
  pub locked_until : Option ℕ
  pub completed_at : Option ℕ
  pub expires_at : ℕ

-- `is_complete`
abbrev pub is_complete : {B : Type 0} → IdempotencyKey B → Bool
is_complete r = is_some r.completed_at

-- The table, and the next id that uuid4 generates.
pub record Keys (B : Type 0) : Type 0 where
  pub rows : List (IdempotencyKey B)
  pub next_id : ℕ

-- The settings `ttl` and `lease`, in seconds.
pub record Times : Type 0 where
  pub ttl : ℕ
  pub lease : ℕ

-- A call of `claim`.
pub record Request : Type 0 where
  pub key : String
  pub owner : String
  pub endpoint : String
  pub request_hash : ℕ

pub data Outcome (B : Type 0) : Type 0 where
  claimed : ℕ → Outcome B
  replayed : ℕ → Option B → Outcome B

-- `record.response_status or 200`: 0 is no status
abbrev pub status_or_ok : Option ℕ → ℕ
status_or_ok none = 200
status_or_ok (some s) = if s == 0 then 200 else s

module _ {B : Type 0} where
  -- The row that uq_idempotency_keys_owner_key makes the only one.
  abbrev pub is_for : Request → IdempotencyKey B → Bool
  is_for q r = str_eq r.owner q.owner && str_eq r.key q.key

  abbrev pub find_key : Request → List (IdempotencyKey B) → Option (IdempotencyKey B)
  find_key q rows = first_where (is_for q) rows

  -- The inserted row.
  abbrev pub new_key : Times → ℕ → Request → ℕ → IdempotencyKey B
  new_key times now q key_id = record {
    id = key_id;
    owner = q.owner;
    key = q.key;
    endpoint = q.endpoint;
    request_hash = q.request_hash;
    response_status = none;
    response_body = none;
    locked_until = some (now + times.lease);
    completed_at = none;
    expires_at = now + times.ttl;
  }

  -- An expired row, used afresh.
  abbrev pub renewed : Times → ℕ → Request → IdempotencyKey B → IdempotencyKey B
  renewed times now q r = record r {
    endpoint = q.endpoint;
    request_hash = q.request_hash;
    response_status = none;
    response_body = none;
    completed_at = none;
    locked_until = some (now + times.lease);
    expires_at = now + times.ttl;
  }

  -- `record.locked_until and record.locked_until > now`
  abbrev pub is_locked : ℕ → IdempotencyKey B → Bool
  is_locked now r = elim r.locked_until [ none ↦ false | some t ↦ ltb now t ]

  -- A write to the row of an id.
  abbrev pub write_key : ℕ → (IdempotencyKey B → IdempotencyKey B) → Keys B → Keys B
  write_key key_id f keys = record keys { rows = update_where (λ r. r.id == key_id) f keys.rows }

  -- `claim`, on the row that holds the key
  unfoldable pub claim_held :
      Times → ℕ → Request → IdempotencyKey B → Keys B → Result (Outcome B) × Keys B
  claim_held times now q r keys =
      if leb r.expires_at now
      then (ok (claimed r.id), write_key r.id (renewed times now q) keys)
      else if not (str_eq r.endpoint q.endpoint) || not (r.request_hash == q.request_hash)
      then (err idempotency_conflict, keys)
      else if is_complete r
      then (ok (replayed (status_or_ok r.response_status) r.response_body), keys)
      else if is_locked now r
      then (err request_in_progress, keys)
      else (
        ok (claimed r.id),
        write_key r.id (λ s. record s { locked_until = some (now + times.lease) }) keys,
      )

  -- `claim`, which commits
  unfoldable pub claim : Times → ℕ → Request → Keys B → Result (Outcome B) × Keys B
  unfolding claim_held
  claim times now q keys = elim (find_key q keys.rows) [
    | none ↦ (
      ok (claimed keys.next_id),
      record {
        rows = keys.rows ++ new_key times now q keys.next_id ∷ [];
        next_id = keys.next_id + 1;
      },
    )
    | some r ↦ claim_held times now q r keys
  ]

  -- `record`
  abbrev pub completed : ℕ → ℕ → B → IdempotencyKey B → IdempotencyKey B
  completed now status body r = record r {
    response_status = some status;
    response_body = some body;
    completed_at = some now;
    locked_until = none;
  }

  unfoldable pub record_response : ℕ → ℕ → ℕ → B → Keys B → Keys B
  record_response now key_id status body = write_key key_id (completed now status body)

  -- `release`
  unfoldable pub release : ℕ → Keys B → Keys B
  release key_id keys = record keys {
    rows = rows_where (λ r. not (r.id == key_id && is_none r.completed_at)) keys.rows;
  }

  -- `purge_expired`: the number of rows deleted
  unfoldable pub purge_expired : ℕ → Keys B → ℕ × Keys B
  purge_expired now keys = (
    length (rows_where (λ r. leb r.expires_at now) keys.rows),
    record keys { rows = rows_where (λ r. not (leb r.expires_at now)) keys.rows },
  )

-- The answer of a call: what the action returned, or a stored response.
pub data Answer (B : Type 0) : Type 0 where
  fresh : B → Answer B
  replay : ℕ → Option B → Answer B

module _ {S B : Type 0} where
  -- The action's transaction, once the key is claimed.
  unfoldable pub run_claimed : ℕ → ℕ → ℕ → Tx S B → S × Keys B → Result (Answer B) × S × Keys B
  unfolding record_response release
  run_claimed now key_id status action (db, keys) = elim (action db) [
    | ok (b, db') ↦ (ok (fresh b), db', record_response now key_id status b keys)
    | err e ↦ (err e, db, release key_id keys)
  ]

  unfoldable pub run_outcome :
      ℕ → ℕ → Tx S B → S → Result (Outcome B) → Keys B → Result (Answer B) × S × Keys B
  unfolding run_claimed
  run_outcome now status action db (err e) keys = (err e, db, keys)
  run_outcome now status action db (ok (replayed s b)) keys = (ok (replay s b), db, keys)
  run_outcome now status action db (ok (claimed key_id)) keys =
      run_claimed now key_id status action (db, keys)

  -- `run_idempotent` with a key that is not empty
  unfoldable pub run_keyed :
      Times → ℕ → Request → ℕ → Tx S B → S × Keys B → Result (Answer B) × S × Keys B
  unfolding claim run_outcome
  run_keyed times now q status action (db, keys) =
      let (outcome, keys') = claim times now q keys in
      run_outcome now status action db outcome keys'

  -- `run_idempotent` without one
  unfoldable pub run_plain : Tx S B → S × Keys B → Result (Answer B) × S × Keys B
  run_plain action (db, keys) = elim (action db) [
    | ok (b, db') ↦ (ok (fresh b), db', keys)
    | err e ↦ (err e, db, keys)
  ]

  unfoldable pub run_idempotent :
      Times → ℕ → Option String → Request → ℕ → Tx S B → S × Keys B → Result (Answer B) × S × Keys B
  unfolding run_keyed run_plain
  run_idempotent times now none q status action world = run_plain action world
  run_idempotent times now (some key) q status action world =
      if str_eq key ""
      then run_plain action world
      else run_keyed times now (record q { key = key }) status action world
