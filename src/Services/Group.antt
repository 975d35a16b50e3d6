-- ===== src/Services/Group.antt =====
-- packages/core/src/services/board-service.ts: the groups, and the administration's guards.
use ai_kanban.Prelude.{
  Bool, not, ◌&&◌, Option, none, some, List, [], ◌∷◌, map, any, includes, distinct, String, nat_eq,
  string_eq, option_eq, ◌==◌, ◌!=◌,
}
use ai_kanban.Domain.Vocabulary.{Uuid, Role, Permission, DefaultScope}
use ai_kanban.Domain.Entities.{Actor, Group, Subject}
use ai_kanban.Domain.Events.{SseHint}
use ai_kanban.Domain.Policy.{RoleDefinition}
use ai_kanban.Domain.Commands.{GroupInput}
use ai_kanban.Domain.Errors.{Result, ok, err, conflict, not_found, require_found}
use ai_kanban.Domain.Errors
use ai_kanban.Policy.Engine.{ensure_permission}
use ai_kanban.Db.State.{DbState, Deps}
use ai_kanban.Db.Tx.{
  Tx, ◌>>=◌, ◌>>◌, pure, lift, reads, gets, now, new_id, run, read, throw_if, publish,
}
use ai_kanban.Db.Rows.{
  find_user, find_group, list_groups, insert_group, update_group, remove_group, list_boards,
  set_default,
}
use ai_kanban.Services.Access.{global_policy}

-- The managePolicy grant of the initial board's policy.
unfoldable pub lock_administration : Actor → DbState → Result (Unit {0})
lock_administration actor db =
    Errors.◌>>=◌ (global_policy db)
      λ policy. ensure_permission actor Permission.manage_policy policy

-- Every id of the list is a stored user.
unfoldable pub require_users : List Uuid → DbState → Result (Unit {0})
require_users [] db = ok tt
require_users (id ∷ ids) db =
    Errors.◌>>◌ (require_found (find_user id db) "user") (require_users ids db)

unfoldable pub require_groups : List Uuid → DbState → Result (Unit {0})
require_groups [] db = ok tt
require_groups (id ∷ ids) db =
    Errors.◌>>◌ (require_found (find_group id db) "group") (require_groups ids db)

unfoldable pub validate_access : List Role → List Uuid → List Uuid → DbState → Result (Unit {0})
unfolding require_users require_groups
validate_access role_keys user_ids group_ids db = Errors.◌>>=◌ (global_policy db) λ policy.
    Errors.◌>>◌
      (Errors.throw_if
        (any (λ key. not (includes (map (λ (r : RoleDefinition). r.key) policy.roles) key))
          role_keys)
        (not_found "role"))
      (Errors.◌>>◌ (require_users (distinct user_ids) db) (require_groups (distinct group_ids) db))

unfoldable pub list_groups_for : Actor → Tx (List Group)
unfolding read
list_groups_for actor = read do
  policy ← reads global_policy
  lift (ensure_permission actor Permission.manage_policy policy)
  gets list_groups

-- The group to change, if it is not a new one.
abbrev pub existing_group : Option Uuid → DbState → Result (Option Group)
existing_group none db = ok none
existing_group (some id) db =
    Errors.◌>>=◌ (require_found (find_group id db) "group") λ group. ok (some group)

-- Another group has the name, whatever its case.
unfoldable pub name_taken : Deps → Option Uuid → String → DbState → Bool
name_taken deps group_id name db =
    any
      (λ item. some item.id != group_id && deps.to_lower_case item.name == deps.to_lower_case name)
      (list_groups db)

abbrev pub write_group : Deps → GroupInput → Option Group → Tx Group
write_group deps input none = do
  id ← new_id deps
  created_at ← now deps
  let saved : Group = record {
    id = id;
    name = input.name;
    user_ids = distinct input.user_ids;
    created_at = created_at;
  }
  insert_group saved
  pure saved
write_group deps input (some existing) = do
  let saved : Group = record existing { name = input.name; user_ids = distinct input.user_ids }
  update_group saved
  pure saved

unfoldable pub save_group_tx : Deps → Actor → Option Uuid → GroupInput → Tx Group
unfolding name_taken
save_group_tx deps actor group_id input = do
  reads (lock_administration actor)
  existing ← reads (existing_group group_id)
  taken ← gets (name_taken deps group_id input.name)
  throw_if taken (conflict "a group with that name already exists" none)
  reads (require_users (distinct input.user_ids))
  write_group deps input existing

unfoldable pub save_group : Deps → Actor → Option Uuid → GroupInput → Tx Group
unfolding save_group_tx run
save_group deps actor group_id input = do
  group ← run (save_group_tx deps actor group_id input)
  publish SseHint.board_updated
  pure group

unfoldable pub remove_group_tx : Actor → Uuid → Tx (Unit {0})
remove_group_tx actor group_id = do
  reads (lock_administration actor)
  reads (λ db. require_found (find_group group_id db) "group")
  used ← gets (λ db. any (λ board. includes board.allowed_group_ids group_id) (list_boards db))
  throw_if used (conflict "group-in-use: remove this group from board access settings first" none)
  remove_group group_id
  set_default DefaultScope.group (Subject.ident group_id) none

unfoldable pub remove_group_of : Actor → Uuid → Tx (Unit {0})
unfolding remove_group_tx run
remove_group_of actor group_id =
    run (remove_group_tx actor group_id) >> publish SseHint.board_updated
