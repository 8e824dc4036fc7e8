-- ===== src/Platform/Idempotency/Replays.antt =====
-- A repeat of a request that was answered.
use smart_logistics.Base.{
  ℕ, ◌+◌, ◌<◌, ◌≡◌, refl, sym, ap, ◌∙◌, String, true, false, Option, none, some, List, [], ◌∷◌,
  ◌++◌, arith, leb, ◌==◌, ==_refl, str_eq, eq_iff, if◌then◌else◌, update_where, Bool-cases, inl,
  inr,
}
use mathlib.Core.Path.{subst}
use smart_logistics.Platform.Errors.{Result, ok, err}
use smart_logistics.Platform.Session.{Tx}
use smart_logistics.Platform.Idempotency.{
  IdempotencyKey, Keys, Times, Request, Outcome, claimed, replayed, is_for, find_key, new_key,
  claim, claim_held, completed, record_response, Answer, fresh, replay, run_claimed, run_outcome,
  run_keyed, release,
}

module _ {B : Type 0} where
  pub find_key-append :
      (q : Request) (rows : List (IdempotencyKey B)) (r : IdempotencyKey B)
      → find_key q rows ≡ none
      → is_for q r ≡ true
      → find_key q (rows ++ r ∷ []) ≡ some r
  find_key-append q [] r e k = rw k refl
  find_key-append q (s ∷ rows) r e k = elim (Bool-cases (is_for q s)) [
    | inl hit ↦ absurd (cc (rw hit at e))
    | inr miss ↦ rw (miss, find_key-append q rows r (rw miss at e) k) refl
  ]

  -- A write that leaves the owner and the key alone is found under them.
  pub find_key-write :
      (q : Request) (f : IdempotencyKey B → IdempotencyKey B) (rows : List (IdempotencyKey B))
      (r : IdempotencyKey B)
      → ((s : IdempotencyKey B) → is_for q (f s) ≡ is_for q s)
      → find_key q rows ≡ some r
      → find_key q (update_where (λ s. s.id == r.id) f rows) ≡ some (f r)
  find_key-write q f [] r same e = absurd (cc e)
  find_key-write q f (s ∷ rows) r same e = elim (Bool-cases (is_for q s)) [
    | inl hit ↦
        let is_r : s ≡ r =
          ap (λ (o : Option (IdempotencyKey B)). elim o [ none ↦ s | some x ↦ x ]) (rw hit at e) in
        subst
          (λ (x : IdempotencyKey B).
            find_key q ((if x.id == r.id then f x else x) ∷ update_where (λ y. y.id == r.id) f rows)
            ≡ some (f r))
          (sym is_r)
          (rw (==_refl r.id, same r, subst (λ (x : IdempotencyKey B). is_for q x ≡ true) is_r hit)
            refl)
    | inr miss ↦ elim (Bool-cases (s.id == r.id)) [
      | inl e' ↦ rw (e', same s, miss, find_key-write q f rows r same (rw miss at e)) refl
      | inr e' ↦ rw (e', miss, find_key-write q f rows r same (rw miss at e)) refl
    ]
  ]

pub str_refl : (s : String) → str_eq s s ≡ true
str_refl s = (eq_iff s s).1 refl

module _ {B : Type 0} where
  -- A claim of a key whose response is stored, by the same request.
  claim-replays :
      (times : Times) (later : ℕ) (q : Request) (r : IdempotencyKey B) (keys : Keys B) (t s : ℕ)
      (b : B)
      → find_key q keys.rows ≡ some r
      → leb r.expires_at later ≡ false
      → r.endpoint ≡ q.endpoint
      → r.request_hash ≡ q.request_hash
      → r.completed_at ≡ some t
      → r.response_status ≡ some s
      → r.response_body ≡ some b
      → (s == 0) ≡ false
      → claim times later q keys ≡ (ok (replayed s (some b)), keys)
  unfolding claim claim_held
  claim-replays times later q r keys t s b e fresh_yet ep hash done st body nz =
      rw
        (
          claim,
          e,
          claim_held,
          fresh_yet,
          ep,
          hash,
          done,
          st,
          body,
          str_refl q.endpoint,
          ==_refl q.request_hash,
          nz,
        )
        refl

-- The keys after a new one is claimed.
abbrev pub inserted : {B : Type 0} → Times → ℕ → Request → Keys B → Keys B
inserted times now q keys = record {
  rows = keys.rows ++ new_key times now q keys.next_id ∷ [];
  next_id = keys.next_id + 1;
}

pub claim-free :
    {B : Type 0} (times : Times) (now : ℕ) (q : Request) (keys : Keys B)
    → find_key q keys.rows ≡ none
    → claim times now q keys ≡ (ok (claimed keys.next_id), inserted times now q keys)
unfolding claim
claim-free times now q keys e = rw (claim, e) refl

-- What the action returned.
abbrev returned : {B : Type 0} → B → Result (Answer B) → B
returned b (ok (fresh a)) = a
returned b _ = b

run_claimed-fresh :
    {S B : Type 0} (now key_id status : ℕ) (action : Tx S B) (db db' : S) (keys keys' : Keys B)
    (b : B)
    → run_claimed now key_id status action (db, keys) ≡ (ok (fresh b), db', keys')
    → keys' ≡ record_response now key_id status b keys
unfolding run_claimed
run_claimed-fresh {S} {B} now key_id status action db db' keys keys' b run = go (action db) run
  where
    go :
        (r : Result (B × S))
        → (elim r as (λ _. Result (Answer B) × S × Keys B) [
          | ok (a, d) ↦ (ok (fresh a), d, record_response now key_id status a keys)
          | err e ↦ (err e, db, release key_id keys)
        ])
          ≡ (ok (fresh b), db', keys')
        → keys' ≡ record_response now key_id status b keys
    go (ok (a, d)) e =
        ap (λ (t : Result (Answer B) × S × Keys B). t.2) (sym e)
        ∙ ap (λ (x : B). record_response now key_id status x keys)
            (ap (λ (t : Result (Answer B) × S × Keys B). returned a t.0) e)
    go (err x) e = absurd (cc (ap (λ (t : Result (Answer B) × S × Keys B). t.0) e))

-- A repeat is answered from the table: where a request with a new key was run, a later call with
-- the same key, endpoint and hash, before the key expires, gets the stored status and body, runs
-- nothing and changes nothing.
pub run_keyed-replays :
    {S B : Type 0} (times : Times) (now later : ℕ) (q : Request) (status status' : ℕ)
    (action action' : Tx S B) (db db' : S) (keys keys' : Keys B) (b : B)
    → find_key q keys.rows ≡ none
    → later < now + times.ttl
    → (status == 0) ≡ false
    → run_keyed times now q status action (db, keys) ≡ (ok (fresh b), db', keys')
    → run_keyed times later q status' action' (db', keys')
      ≡ (ok (replay status (some b)), db', keys')
unfolding run_keyed run_outcome record_response
run_keyed-replays {S} {B} times now later q status status' action action' db db' keys keys' b free
      soon nz run =
    let new = new_key times now q keys.next_id in
    let first : run_claimed now keys.next_id status action (db, inserted times now q keys)
        ≡ (ok (fresh b), db', keys') =
      ap (λ (c : Result (Outcome B) × Keys B). run_outcome now status action db c.0 c.1)
        (sym (claim-free times now q keys free))
      ∙ run in
    let written =
      run_claimed-fresh now keys.next_id status action db db' (inserted times now q keys) keys' b
        first in
    let found : find_key q keys'.rows ≡ some (completed now status b new) =
      ap (λ (k : Keys B). find_key q k.rows) written
      ∙ find_key-write q (completed now status b) (inserted times now q keys).rows new (λ s. refl)
          (find_key-append q keys.rows new free (rw (str_refl q.owner, str_refl q.key) refl)) in
    ap (λ (c : Result (Outcome B) × Keys B). run_outcome later status' action' db' c.0 c.1)
      (claim-replays times later q (completed now status b new) keys' now status b found
        (ground arith) refl refl refl refl refl nz)
