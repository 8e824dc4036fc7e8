-- ===== src/Platform/Roles.antt =====
-- libs/sl-platform/src/sl_platform/roles.py: the roles that travel in a token.
use smart_logistics.Base.{Bool, true, false}

pub data UserRole : Type 0 where
  admin customer_support warehouse_operator courier : UserRole

-- `a is b`
abbrev pub is_role : UserRole → UserRole → Bool
is_role admin admin = true
is_role customer_support customer_support = true
is_role warehouse_operator warehouse_operator = true
is_role courier courier = true
is_role _ _ = false

-- UNRESTRICTED_ROLES
abbrev pub is_unrestricted : UserRole → Bool
is_unrestricted admin = true
is_unrestricted customer_support = true
is_unrestricted _ = false
