-- ===== src/Platform/Idempotency/Leases.antt =====
-- Claims of a key while the lease of another claim lasts.
use smart_logistics.Base.{
  ℕ, ◌+◌, ◌<◌, ◌≡◌, ◌⊎◌, refl, sym, ap, ◌∙◌, true, false, not, ◌||◌, Option, none, some, arith, leb,
  ltb, ◌==◌, str_eq, Bool-cases, Option-cases, inl, inr,
}
use mathlib.Core.Path.{subst}
use smart_logistics.Platform.Errors.{
  Error, Result, ok, err, request_in_progress, idempotency_conflict,
}
use smart_logistics.Platform.Idempotency.{
  IdempotencyKey, Keys, Times, Request, Outcome, claimed, find_key, new_key, claim, claim_held,
  renewed, write_key, is_complete, is_locked,
}
use smart_logistics.Platform.Idempotency.Replays.{
  find_key-write, find_key-append, str_refl, claim-free, inserted,
}

module _ {B : Type 0} where
  -- The row of a claim that is running.
  abbrev Leased : Times → ℕ → IdempotencyKey B → Type 0
  Leased times now r = (r.locked_until ≡ some (now + times.lease)) × (r.completed_at ≡ none)

  same_row :
      (r s : IdempotencyKey B) (o : Option (IdempotencyKey B)) → o ≡ some r → o ≡ some s → r ≡ s
  same_row r s o e e' =
      ap (λ (p : Option (IdempotencyKey B)). elim p [ none ↦ r | some x ↦ x ]) (sym e ∙ e')

  not_complete : (r : IdempotencyKey B) → is_complete r ≡ false → r.completed_at ≡ none
  not_complete r h = ground arith

  held-Leased :
      (times : Times) (now key_id : ℕ) (q : Request) (r s : IdempotencyKey B) (keys keys' : Keys B)
      → find_key q keys.rows ≡ some r
      → claim_held times now q r keys ≡ (ok (claimed key_id), keys')
      → find_key q keys'.rows ≡ some s
      → Leased times now s
  unfolding claim_held
  held-Leased times now key_id q r s keys keys' e run f = elim (Bool-cases (leb r.expires_at now)) [
    | inl expired ↦
        let wrote : write_key r.id (renewed times now q) keys ≡ keys' =
          ap (λ (t : Result (Outcome B) × Keys B). t.1) (rw expired at run) in
        let is_s =
          same_row (renewed times now q r) s (find_key q keys'.rows)
            (ap (λ (k : Keys B). find_key q k.rows) (sym wrote)
              ∙ find_key-write q (renewed times now q) keys.rows r (λ x. refl) e)
            f in
        subst (Leased times now) is_s (refl, refl)
    | inr valid ↦
        elim (Bool-cases
          (not (str_eq r.endpoint q.endpoint) || not (r.request_hash == q.request_hash))) [
            | inl other ↦
                absurd
                  (cc (ap (λ (t : Result (Outcome B) × Keys B). t.0) (rw (valid, other) at run)))
            | inr same ↦ elim (Bool-cases (is_complete r)) [
              | inl done ↦ absurd (
                  cc
                    (ap (λ (t : Result (Outcome B) × Keys B). t.0) (rw (valid, same, done) at run)))
              | inr undone ↦ elim (Bool-cases (is_locked now r)) [
                | inl locked ↦ absurd (
                    cc (
                      ap (λ (t : Result (Outcome B) × Keys B). t.0)
                        (rw (valid, same, undone, locked) at run)))
                | inr lapsed ↦
                    let wrote =
                      ap (λ (t : Result (Outcome B) × Keys B). t.1)
                        (rw (valid, same, undone, lapsed) at run) in
                    let is_s =
                      same_row (record r { locked_until = some (now + times.lease) }) s
                        (find_key q keys'.rows)
                        (ap (λ (k : Keys B). find_key q k.rows) (sym wrote)
                          ∙ find_key-write q
                              (λ x. record x { locked_until = some (now + times.lease) }) keys.rows
                              r (λ x. refl) e)
                        f in
                    subst (Leased times now) is_s (refl, not_complete r undone)
              ]
            ]
          ]
  ]

  claimed-Leased :
      (times : Times) (now key_id : ℕ) (q : Request) (s : IdempotencyKey B) (keys keys' : Keys B)
      → claim times now q keys ≡ (ok (claimed key_id), keys')
      → find_key q keys'.rows ≡ some s
      → Leased times now s
  unfolding claim
  claimed-Leased times now key_id q s keys keys' run f =
      elim (Option-cases (find_key q keys.rows)) [
        | inl free ↦
            let wrote : inserted times now q keys ≡ keys' =
              ap (λ (t : Result (Outcome B) × Keys B). t.1)
                (sym (claim-free times now q keys free) ∙ run) in
            let new = new_key times now q keys.next_id in
            let is_s =
              same_row new s (find_key q keys'.rows)
                (ap (λ (k : Keys B). find_key q k.rows) (sym wrote)
                  ∙ find_key-append q keys.rows new free
                      (rw (str_refl q.owner, str_refl q.key) refl))
                f in
            subst (Leased times now) is_s (refl, refl)
        | inr (r, taken) ↦
            held-Leased times now key_id q r s keys keys' taken
              (ap
                  (λ (o : Option (IdempotencyKey B)). elim o as (λ _. Result (Outcome B) × Keys B) [
                    | none ↦ (ok (claimed keys.next_id), inserted times now q keys)
                    | some x ↦ claim_held times now q x keys
                  ])
                  (sym taken)
                ∙ run)
              f
      ]

-- A key has one holder at a time: after a call that got the key, a call with the same key and
-- owner, whatever it asks for, fails while the lease lasts and the key is not expired: it is told
-- that the request is in progress or that the key was used for another one, and nothing changes.
pub claim-excludes :
    {B : Type 0} (times : Times) (now later key_id : ℕ) (q q' : Request) (r : IdempotencyKey B)
    (keys keys' : Keys B)
    → claim times now q keys ≡ (ok (claimed key_id), keys')
    → find_key q' keys'.rows ≡ some r
    → q'.owner ≡ q.owner
    → q'.key ≡ q.key
    → later < now + times.lease
    → later < r.expires_at
    → (e : Error) × (claim times later q' keys' ≡ (err e, keys'))
      × ((e ≡ request_in_progress) ⊎ (e ≡ idempotency_conflict))
unfolding claim claim_held
claim-excludes {B} times now later key_id q q' r keys keys' run f owner key lasts valid =
    let (locked, undone) =
      claimed-Leased times now key_id q r keys keys' run (rw (sym owner, sym key) f) in
    let still : ltb later (now + times.lease) ≡ true = ground arith in
    let not_expired : leb r.expires_at later ≡ false = ground arith in
    elim (Bool-cases
      (not (str_eq r.endpoint q'.endpoint) || not (r.request_hash == q'.request_hash))) [
        | inl other ↦
            (idempotency_conflict, rw (claim, f, claim_held, not_expired, other) refl, inr refl)
        | inr same ↦ (
          request_in_progress,
          rw (claim, f, claim_held, not_expired, same, undone, locked, still) refl,
          inl refl,
        )
      ]
