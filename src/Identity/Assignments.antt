-- ===== src/Identity/Assignments.antt =====
-- services/identity/src/identity/services/users.py: the warehouses of an operator, with
-- `on_warehouse_deleted` of events.py.
use smart_logistics.Base.{
  ℕ, not, Option, none, some, List, [], ◌∷◌, ◌++◌, ◌==◌, contains, if◌then◌else◌, rows_where,
}
use smart_logistics.Platform.Errors.{Result, not_found, conflict}
use smart_logistics.Platform.Session.{Tx, ◌>>=◌, ◌>>◌, pure, lift, gets, modify, or_raise, raise_if}
use smart_logistics.Platform.Roles.{warehouse_operator, is_role}
use smart_logistics.Identity.Models.{
  Db, User, UserWarehouseAssignment, added_warehouse, removed_warehouse, flush, uuid4,
}
use smart_logistics.Identity.Repository.{
  user_with_id, revoke_all, list_for_user, get_assignment, delete_for_warehouse,
}
use smart_logistics.Identity.Users.{user_scope_changed, emit, get}

unfoldable pub list_assignments : ℕ → Tx Db (List UserWarehouseAssignment)
unfolding get list_for_user
list_assignments user_id = do user ← get user_id; list_for_user user_id

abbrev pub new_assignment : ℕ → ℕ → ℕ → UserWarehouseAssignment
new_assignment assignment_id user_id warehouse_id = record {
  id = assignment_id;
  user_id = user_id;
  warehouse_id = warehouse_id;
}

-- What the Warehouse service answers to the call, where there is a client for it.
abbrev pub asked : Option (Result (Unit {0})) → Tx Db Unit
asked none = pure tt
asked (some answer) = lift answer

unfoldable pub assign_warehouse :
    ℕ → Option (Result (Unit {0})) → ℕ → ℕ → Tx Db UserWarehouseAssignment
unfolding get emit
assign_warehouse now answer user_id warehouse_id = do
  user ← get user_id
  raise_if (not (is_role user.role warehouse_operator)) conflict
  asked answer
  assignment_id ← uuid4
  let assignment = new_assignment assignment_id user.id warehouse_id
  modify λ db. record db { assignments = db.assignments ++ assignment ∷ [] }
  flush
  revoke_all now user.id
  emit user_scope_changed user (added_warehouse warehouse_id)
  pure assignment

unfoldable pub unassign_warehouse : ℕ → ℕ → ℕ → Tx Db Unit
unfolding get emit
unassign_warehouse now user_id warehouse_id = do
  user ← get user_id
  found ← get_assignment user_id warehouse_id
  assignment ← or_raise found not_found
  modify
      λ db. record db { assignments = rows_where (λ a. not (a.id == assignment.id)) db.assignments }
  revoke_all now user.id
  flush
  emit user_scope_changed user (removed_warehouse warehouse_id)

-- `set(affected)`, in some order
abbrev pub without_repeats : List ℕ → List ℕ
without_repeats [] = []
without_repeats (x ∷ xs) =
    let rest = without_repeats xs in if contains rest x then rest else x ∷ rest

abbrev pub report_loss : ℕ → Option User → Tx Db Unit
report_loss warehouse_id none = pure tt
report_loss warehouse_id (some user) = emit user_scope_changed user (removed_warehouse warehouse_id)

-- The loop of `on_warehouse_deleted` over the users that lost the warehouse.
unfoldable pub lose_scope : ℕ → ℕ → List ℕ → Tx Db Unit
unfolding emit
lose_scope now warehouse_id [] = pure tt
lose_scope now warehouse_id (user_id ∷ rest) = do
  revoke_all now user_id
  found ← gets λ db. user_with_id user_id db.users
  report_loss warehouse_id found
  lose_scope now warehouse_id rest

unfoldable pub on_warehouse_deleted : ℕ → ℕ → Tx Db Unit
unfolding delete_for_warehouse lose_scope
on_warehouse_deleted now warehouse_id = do
  affected ← delete_for_warehouse warehouse_id
  lose_scope now warehouse_id (without_repeats affected)
