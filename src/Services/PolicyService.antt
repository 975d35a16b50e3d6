-- ===== src/Services/PolicyService.antt =====
-- packages/core/src/services/policy-service.ts: `PolicyService`.
use ai_kanban.Prelude.{
  Bool, true, false, ◌&&◌, not, Option, none, some, List, [], ◌∷◌, ◌++◌, map, String, string_eq,
  nat_eq, ◌==◌, ◌!=◌, is_some, any, filter, find, includes,
}
use Prim.Native.String
use ai_kanban.Domain.Vocabulary.{Uuid, Role, Permission, permission_eq, DefaultScope}
use ai_kanban.Domain.Entities.{Actor, Board, User, ServiceToken, Subject}
use ai_kanban.Domain.Events.{SseHint}
use ai_kanban.Domain.Policy.{PolicyDocument, BoardPolicy, RoleDefinition, WaitingReasonDefinition}
use ai_kanban.Domain.Errors.{Result, ok, err, conflict, require_found, DomainError}
use ai_kanban.Domain.Errors
use ai_kanban.Policy.Engine.{PolicyAction, evaluate_policy, decide}
use ai_kanban.Db.State.{DbState, Deps}
use ai_kanban.Db.Tx.{
  Tx, ◌>>=◌, ◌>>◌, pure, lift, reads, now, new_id, run, read, when, for_each, publish,
}
use ai_kanban.Db.Rows.{
  get_default_board, get_active_policy, list_boards, list_service_tokens, insert_policy,
  set_default,
}
use ai_kanban.Services.Access.{global_policy, require_board_access}

-- `getActive` on the service's board.
unfoldable pub get_active_version : Uuid → DbState → Result BoardPolicy
get_active_version board_id db =
    Errors.◌>>=◌ (require_found (get_active_policy board_id db) "policy") λ policy.
      Errors.◌>>=◌ (global_policy db)
        λ global. ok (record policy { config = record (policy.config) { roles = global.roles } })

unfoldable pub get_active : Deps → Tx BoardPolicy
unfolding get_active_version read
get_active deps = read (reads (get_active_version deps.board_id))

abbrev pub has_reason : List WaitingReasonDefinition → String → Bool
has_reason reasons key = any (λ (r : WaitingReasonDefinition). r.key == key) reasons

abbrev pub retired : WaitingReasonDefinition → WaitingReasonDefinition
retired reason = record reason { active = false }

-- The kept reasons, and the dropped ones without their offer.
unfoldable pub retire_reasons :
    List WaitingReasonDefinition → List WaitingReasonDefinition → List WaitingReasonDefinition
retire_reasons current kept =
    kept ++ map retired (filter (λ reason. not (has_reason kept reason.key)) current)

abbrev pub role_keys : PolicyDocument → List Role
role_keys config = map (λ (role : RoleDefinition). role.key) config.roles

abbrev pub board_is_orphaned : List Role → Board → Bool
board_is_orphaned kept board = any (λ key. not (includes kept key)) board.allowed_role_keys

abbrev pub user_is_orphaned : List Role → User → Bool
user_is_orphaned kept user = user.is_active && not (includes kept user.role)

abbrev pub token_is_orphaned : List Role → ServiceToken → Bool
token_is_orphaned kept token = not (is_some token.revoked_at) && not (includes kept token.role)

abbrev pub role_in_use : Role → String → DomainError
role_in_use role what =
    conflict
      (String.◌++◌ "role-in-use: role \""
        (String.◌++◌ role (String.◌++◌ "\" is assigned to a " what)))
      none

abbrev refuse_user : Option User → Result (Unit {0})
refuse_user none = ok tt
refuse_user (some user) = err (role_in_use user.role "user")

abbrev refuse_token : Option ServiceToken → Result (Unit {0})
refuse_token none = ok tt
refuse_token (some token) = err (role_in_use token.role "token")

unfoldable pub ensure_no_orphaned_role : List Role → DbState → Result (Unit {0})
ensure_no_orphaned_role kept db =
    Errors.◌>>◌
      (Errors.throw_if (any (board_is_orphaned kept) (list_boards db))
        (conflict "role-in-use: role is assigned to a board" none))
      (Errors.◌>>◌ (refuse_user (find (user_is_orphaned kept) db.users))
        (refuse_token (find (token_is_orphaned kept) (list_service_tokens db))))

-- A dropped role loses its default board.
unfoldable pub clear_default : List Role → RoleDefinition → Tx (Unit {0})
clear_default kept role =
    when (not (includes kept role.key))
      (set_default DefaultScope.role (Subject.role_key role.key) none)

abbrev pub same_list : List Permission → List Permission → Bool
same_list [] [] = true
same_list (a ∷ xs) [] = false
same_list [] (b ∷ ys) = false
same_list (a ∷ xs) (b ∷ ys) = a == b && same_list xs ys

-- `JSON.stringify` of the two lists gives the same text.
unfoldable pub same_roles : List RoleDefinition → List RoleDefinition → Bool
same_roles [] [] = true
same_roles (a ∷ xs) [] = false
same_roles [] (b ∷ ys) = false
same_roles (a ∷ xs) (b ∷ ys) =
    a.key == b.key && a.name == b.name && same_list a.permissions b.permissions && same_roles xs ys

-- The roles stand in the policy of the initial board, which follows.
unfoldable pub update_authority : Deps → Uuid → PolicyDocument → BoardPolicy → Tx (Unit {0})
unfolding same_roles
update_authority deps authority_id global version =
    when (authority_id != deps.board_id && not (same_roles global.roles version.config.roles)) do
      id ← new_id deps
      insert_policy (record version {
        id = id;
        board_id = authority_id;
        config = record global { roles = version.config.roles };
      })

-- Past the guards of `apply`.
unfoldable pub insert_version :
    Deps → Actor → Uuid → PolicyDocument → PolicyDocument → Tx BoardPolicy
unfolding clear_default update_authority
insert_version deps actor authority_id global config = do
  for_each global.roles (clear_default (role_keys config))
  id ← new_id deps
  created_at ← now deps
  let version : BoardPolicy = record {
    id = id;
    board_id = deps.board_id;
    config = config;
    created_by = actor.id;
    created_at = created_at;
  }
  insert_policy version
  update_authority deps authority_id global version
  pure version

abbrev pub merged : PolicyDocument → PolicyDocument → PolicyDocument
merged current config = record config {
  waiting_reasons = retire_reasons current.waiting_reasons config.waiting_reasons;
}

unfoldable pub apply_tx : Deps → Actor → PolicyDocument → Tx BoardPolicy
unfolding retire_reasons ensure_no_orphaned_role insert_version
apply_tx deps actor config = do
  authority ← reads (λ db. require_found (get_default_board db) "default board")
  global ← reads (λ db. require_found (get_active_policy authority.id db) "policy")
  reads (require_board_access actor deps.board_id)
  current ← reads (λ db. require_found (get_active_policy deps.board_id db) "policy")
  lift (decide (evaluate_policy actor PolicyAction.manage_policy global.config))
  reads (ensure_no_orphaned_role (role_keys config))
  insert_version deps actor authority.id global.config (merged current.config config)

unfoldable pub apply : Deps → Actor → PolicyDocument → Tx BoardPolicy
unfolding apply_tx run
apply deps actor config = do
  version ← run (apply_tx deps actor config)
  publish SseHint.policy_updated
  pure version
