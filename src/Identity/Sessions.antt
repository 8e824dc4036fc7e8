-- ===== src/Identity/Sessions.antt =====
-- The sessions that can still be refreshed, and who they belong to: rows of users and
-- refresh_tokens (services/identity/src/identity/models.py) under the writes of the services.
pub mod Opened
pub mod Kept
pub mod Standing
pub mod Edited
use smart_logistics.Base.{
  ℕ, ◌≡◌, refl, sym, ap, ◌∙◌, Bool, true, false, ◌&&◌, ◌||◌, Option, none, some, List, [], ◌∷◌,
  ◌++◌, map, arith, ◌==◌, ==_iff, ==_refl, if◌then◌else◌, is_none, is_some, any, contains, distinct,
  first_where, found-head, update_where, All, Bool-cases, inl, inr, distinct_tail,
}
use mathlib.Core.Path.{subst}
use smart_logistics.Identity.Models.{Db, User, is_active, RefreshToken, is_revoked, user_ids}
use smart_logistics.Identity.Repository.{save_user, is_open_of, revoked}

or_false : (b : Bool) → (b || false) ≡ b
or_false true = refl
or_false false = refl

-- Some active user has this id.
abbrev pub has_owner : List User → ℕ → Bool
has_owner users user_id = any (λ u. u.id == user_id && is_active u) users

abbrev pub Owned : List User → RefreshToken → Type 0
Owned users t = (is_revoked t || has_owner users t.user_id) ≡ true

-- Every session that was not revoked belongs to an active user, and user ids are distinct.
pub record IsLive (users : List User) (tokens : List RefreshToken) : Type 0 where
  pub owned : All (Owned users) tokens
  pub unique : distinct (user_ids users) ≡ true

-- Writing the row of one user.
module _ (new : User) where
  save-ids : (users : List User) → user_ids (save_user new users) ≡ user_ids users
  save-ids [] = refl
  save-ids (u ∷ users) = ground (arith, save-ids users)

  save-other :
      (k : ℕ) (users : List User)
      → (new.id == k) ≡ false
      → has_owner (save_user new users) k ≡ has_owner users k
  save-other k [] e = refl
  save-other k (u ∷ users) e = ground (arith, save-other k users e)

  pub save-active :
      (k : ℕ) (users : List User)
      → is_active new ≡ true
      → has_owner users k ≡ true
      → has_owner (save_user new users) k ≡ true
  save-active k [] a h = h
  save-active k (u ∷ users) a h = ground (arith, save-active k users a)

no_owner :
    (k : ℕ) (users : List User) → contains (user_ids users) k ≡ false → has_owner users k ≡ false
no_owner k [] c = refl
no_owner k (u ∷ users) c = ground (arith, no_owner k users)

-- A row that a query finds, among rows of distinct ids.
module _ (p : User → Bool) (old : User) where
  found-contains :
      (users : List User) → first_where p users ≡ some old → contains (user_ids users) old.id ≡ true
  found-contains [] e = absurd (cc e)
  found-contains (u ∷ users) e = elim (Bool-cases (p u)) [
    | inl yes_p ↦ let same = found-head p old u users yes_p e in rw (← same) (ground arith)
    | inr no_p ↦ rw (found-contains users (rw no_p at e)) (ground arith)
  ]

  pub found_owner :
      (users : List User)
      → distinct (user_ids users) ≡ true
      → first_where p users ≡ some old
      → has_owner users old.id ≡ is_active old
  found_owner [] d e = absurd (cc e)
  found_owner (u ∷ users) d e =
      let (fresh, d') = distinct_tail u.id (user_ids users) d in
      elim (Bool-cases (p u)) [
        | inl yes_p ↦
            let same = found-head p old u users yes_p e in
            subst (λ (o : User). has_owner (u ∷ users) o.id ≡ is_active o) same
              (rw (==_refl u.id, no_owner u.id users fresh) (or_false (is_active u)))
        | inr no_p ↦
            let there = found-contains users (rw no_p at e) in
            let rest = found_owner users d' (rw no_p at e) in
            elim (Bool-cases (u.id == old.id)) [
              | inl same ↦ absurd (cc (fresh, there, (==_iff u.id old.id).0 same))
              | inr differ ↦ rw differ rest
            ]
      ]

All-map {ℓ κ μ} :
    {A : Type ℓ} (P : A → Type κ) (Q : A → Type μ) (xs : List A)
    → ((x : A) → P x → Q x)
    → All P xs
    → All Q xs
All-map P Q [] f h = tt
All-map P Q (x ∷ xs) f (p, ps) = (f x p, All-map P Q xs f ps)

module _ (users : List User) where
  revoked-Owned :
      (p : RefreshToken → Bool) (f : RefreshToken → RefreshToken)
      → ((t : RefreshToken) → is_revoked (f t) ≡ true)
      → (tokens : List RefreshToken) → All (Owned users) tokens
      → All (Owned users) (update_where p f tokens)
  revoked-Owned p f r [] o = tt
  revoked-Owned p f r (t ∷ tokens) (o, os) = (
    elim (Bool-cases (p t)) [ inl e ↦ rw (e, r t) refl | inr e ↦ rw e o ],
    revoked-Owned p f r tokens os,
  )

  added-Owned :
      (new : RefreshToken) (tokens : List RefreshToken)
      → Owned users new
      → All (Owned users) tokens
      → All (Owned users) (tokens ++ new ∷ [])
  added-Owned new [] n o = (n, tt)
  added-Owned new (t ∷ tokens) n (o, os) = (o, added-Owned new tokens n os)

-- The sessions of the user whose row is written are revoked.
closed-Owned :
    (now : ℕ) (new : User) (users : List User) (tokens : List RefreshToken)
    → All (Owned users) tokens
    → All (Owned (save_user new users)) (update_where (is_open_of new.id) (revoked now) tokens)
closed-Owned now new users [] o = tt
closed-Owned now new users (t ∷ tokens) (o, os) = (
  elim (Bool-cases (is_open_of new.id t)) [
    | inl e ↦ rw e refl
    | inr e ↦ rw e (elim (Bool-cases (new.id == t.user_id)) [
      | inl same ↦ ground arith
      | inr differ ↦ rw (save-other new t.user_id users differ) o
    ])
  ],
  closed-Owned now new users tokens os,
)

-- The row of a user is written, who stays active if he was.
pub written-IsLive :
    (p : User → Bool) (old new : User) (users : List User) (tokens : List RefreshToken)
    → first_where p users ≡ some old
    → new.id ≡ old.id
    → (is_active old ≡ true → is_active new ≡ true)
    → IsLive users tokens
    → IsLive (save_user new users) tokens
written-IsLive p old new users tokens found same stays l = record {
  owned = All-map (Owned users) (Owned (save_user new users)) tokens keep l.owned;
  unique = rw (save-ids new users) l.unique;
}
  where
    owner : has_owner users new.id ≡ true → is_active new ≡ true
    owner h = stays (
        sym (found_owner p old users l.unique found)
        ∙ subst (λ (k : ℕ). has_owner users k ≡ true) same h)

    keep : (t : RefreshToken) → Owned users t → Owned (save_user new users) t
    keep t o = elim (Bool-cases (is_revoked t)) [
      | inl out ↦ rw out refl
      | inr open_still ↦
          let had : has_owner users t.user_id ≡ true = rw open_still at o in
          rw open_still (elim (Bool-cases (new.id == t.user_id)) [
            | inl e ↦
                save-active new t.user_id users
                  (owner (
                    subst (λ (k : ℕ). has_owner users k ≡ true)
                      (sym ((==_iff new.id t.user_id).0 e)) had))
                  had
            | inr e ↦ rw (save-other new t.user_id users e) had
          ])
    ]

-- The row of a user is written, and the sessions of the user are revoked.
pub closed-IsLive :
    (now : ℕ) (new : User) (users : List User) (tokens : List RefreshToken)
    → IsLive users tokens
    → IsLive (save_user new users) (update_where (is_open_of new.id) (revoked now) tokens)
closed-IsLive now new users tokens l = record {
  owned = closed-Owned now new users tokens l.owned;
  unique = rw (save-ids new users) l.unique;
}

-- Some sessions are revoked.
pub revoked-IsLive :
    (p : RefreshToken → Bool) (f : RefreshToken → RefreshToken) (users : List User)
    (tokens : List RefreshToken)
    → ((t : RefreshToken) → is_revoked (f t) ≡ true)
    → IsLive users tokens
    → IsLive users (update_where p f tokens)
revoked-IsLive p f users tokens r l = record {
  owned = revoked-Owned users p f r tokens l.owned;
  unique = l.unique;
}

-- A session of an active user is added.
pub opened-IsLive :
    (new : RefreshToken) (users : List User) (tokens : List RefreshToken)
    → has_owner users new.user_id ≡ true
    → IsLive users tokens
    → IsLive users (tokens ++ new ∷ [])
opened-IsLive new users tokens h l = record {
  owned = added-Owned users new tokens (ground arith) l.owned;
  unique = l.unique;
}

more_owners :
    (k : ℕ) (u : User) (users : List User)
    → has_owner users k ≡ true
    → has_owner (users ++ u ∷ []) k ≡ true
more_owners k u [] h = absurd (cc h)
more_owners k u (v ∷ users) h = ground (arith, more_owners k u users)

-- A user is added.
pub joined-IsLive :
    (u : User) (users : List User) (tokens : List RefreshToken)
    → distinct (user_ids (users ++ u ∷ [])) ≡ true
    → IsLive users tokens
    → IsLive (users ++ u ∷ []) tokens
joined-IsLive u users tokens d l = record {
  owned =
      All-map (Owned users) (Owned (users ++ u ∷ [])) tokens
        (λ t o. ground (arith, more_owners t.user_id u users)) l.owned;
  unique = d;
}
