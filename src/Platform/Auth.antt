-- ===== src/Platform/Auth.antt =====
-- libs/sl-platform/src/sl_platform/auth.py: the caller that a token's claims describe, and the
-- warehouses that the caller may see. Identifiers are numbers: a UUID is only compared.
use smart_logistics.Base.{
  false, ◌≡◌, arith, ℕ, Bool, ◌||◌, Option, none, some, List, [], ◌∷◌, contains, if◌then◌else◌,
}
use smart_logistics.Platform.Errors.{Result, ok, err, permission_denied}
use smart_logistics.Platform.Session.{Tx, finish}
use smart_logistics.Platform.Roles.{UserRole, admin, warehouse_operator, is_role, is_unrestricted}

pub record Principal : Type 0 where
  pub user_id : ℕ
  pub role : UserRole
  pub warehouse_ids : List ℕ
  pub courier_id : Option ℕ

abbrev pub is_admin : Principal → Bool
is_admin p = is_role p.role admin

abbrev pub sees_all_warehouses : Principal → Bool
sees_all_warehouses p = is_unrestricted p.role

abbrev pub may_touch_warehouse : Principal → ℕ → Bool
may_touch_warehouse p warehouse_id = sees_all_warehouses p || contains p.warehouse_ids warehouse_id

abbrev pub scoped_warehouse_ids : Principal → Option (List ℕ)
scoped_warehouse_ids p =
    if sees_all_warehouses p
    then none
    else if is_role p.role warehouse_operator
    then some p.warehouse_ids
    else some []

has_role : UserRole → List UserRole → Bool
has_role r [] = Bool.false
has_role r (s ∷ roles) = is_role r s || has_role r roles

-- `Auth.require`: the role gate of an endpoint.
unfoldable pub require : List UserRole → Principal → Result Principal
unfolding has_role
require roles p = if has_role p.role roles then ok p else err permission_denied

abbrev pub bodiless : {S A : Type 0} → Result A × S → Result (Unit {0}) × S
bodiless (ok a, s) = (ok tt, s)
bodiless (err e, s) = (err e, s)

-- A route: the role gate, and the transaction of the service's method. The answer's body is left out.
unfoldable pub route :
    {S A : Type 0} → List UserRole → Principal → Tx S A → S → Result (Unit {0}) × S
unfolding require
route roles p m s = elim (require roles p) [ err e ↦ (err e, s) | ok _ ↦ bodiless (finish s (m s)) ]

-- An administrators' gate is closed to everybody else.
pub require-admins :
    (p : Principal) → is_admin p ≡ false → require (admin ∷ []) p ≡ err permission_denied
unfolding require
require-admins p other = ground arith
