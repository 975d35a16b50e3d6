-- ===== src/Services/Board.antt =====
-- packages/core/src/services/board-service.ts: changes to boards and to the default boards.
use ai_kanban.Prelude.{
  ℕ, ◌+◌, Bool, false, not, ◌&&◌, Option, none, some, List, [], ◌∷◌, ◌++◌, map, any, distinct,
  length, leb, nat_eq, string_eq, ◌==◌, if◌then◌else◌,
}
use ai_kanban.Domain.Vocabulary.{Uuid, actor_kind_eq, DefaultScope, default_scope_eq}
use ai_kanban.Domain.Entities.{Actor, Board, BoardDefault, Subject}
use ai_kanban.Domain.Events.{SseHint}
use ai_kanban.Domain.Defaults.{LaneTemplate, default_lanes, default_policy_document}
use ai_kanban.Domain.Commands.{BoardInput, DefaultAssignments}
use ai_kanban.Domain.Errors.{Result, ok, err, conflict, policy_denied, require_found}
use ai_kanban.Domain.Errors
use ai_kanban.Db.State.{DbState, Deps}
use ai_kanban.Db.Tx.{
  Tx, ◌>>=◌, ◌>>◌, pure, reads, gets, now, new_id, run, throw_if, for_each, when, publish,
}
use ai_kanban.Db.Rows.{
  subject_beq, list_defaults, set_default, get_default_board, list_boards, insert_board,
  update_board, insert_lane, insert_policy,
}
use ai_kanban.Services.Access.{global_policy, require_board_access}
use ai_kanban.Services.Group.{lock_administration, validate_access}
use ai_kanban.Services.Catalog.{BoardCatalog, is_user, list_catalog}

abbrev pub scoped : DefaultScope → Subject → Uuid → BoardDefault
scoped scope subject board_id = record { scope = scope; subject = subject; board_id = board_id }

abbrev pub desired_defaults : Uuid → DefaultAssignments → List BoardDefault
desired_defaults board_id input =
    (if input.application
      then scoped DefaultScope.application Subject.everyone board_id ∷ []
      else [])
    ++ (map (λ key. scoped DefaultScope.role (Subject.role_key key) board_id)
          (distinct input.role_keys)
        ++ map (λ id. scoped DefaultScope.group (Subject.ident id) board_id)
            (distinct input.group_ids))

abbrev same_assignment : BoardDefault → BoardDefault → Bool
same_assignment a b = a.scope == b.scope && subject_beq a.subject b.subject

-- What the board was assigned and is to lose.
unfoldable pub clear_stale : Uuid → List BoardDefault → BoardDefault → Tx (Unit {0})
clear_stale board_id desired row =
    when (row.board_id == board_id && not (any (λ next. same_assignment next row) desired))
      (set_default row.scope row.subject none)

abbrev assign : Uuid → BoardDefault → Tx (Unit {0})
assign board_id row = set_default row.scope row.subject (some board_id)

unfoldable pub save_defaults : Uuid → Option DefaultAssignments → Tx (Unit {0})
unfolding clear_stale
save_defaults board_id none = pure tt
save_defaults board_id (some input) = do
  reads (validate_access input.role_keys [] input.group_ids)
  rows ← gets (list_defaults none)
  for_each rows (clear_stale board_id (desired_defaults board_id input))
  for_each (desired_defaults board_id input) (assign board_id)

unfoldable pub insert_lanes : Deps → Uuid → ℕ → List LaneTemplate → Tx (Unit {0})
insert_lanes deps board_id position [] = pure tt
insert_lanes deps board_id position (lane ∷ lanes) = do
  id ← new_id deps
  insert_lane (record {
    id = id;
    board_id = board_id;
    key = lane.key;
    label = lane.label;
    position = position;
    wip_limit = lane.wip_limit;
  })
  insert_lanes deps board_id (position + 1) lanes

-- The policy of a new board, with the roles of the initial one's.
unfoldable pub insert_first_policy : Deps → Actor → Board → Tx (Unit {0})
insert_first_policy deps actor board = do
  id ← new_id deps
  global ← reads global_policy
  insert_policy (record {
    id = id;
    board_id = board.id;
    config = default_policy_document global.roles;
    created_by = actor.id;
    created_at = board.created_at;
  })

unfoldable pub create_board_tx : Deps → Actor → BoardInput → Tx Board
unfolding save_defaults insert_lanes insert_first_policy
create_board_tx deps actor input = do
  reads (lock_administration actor)
  reads (validate_access input.allowed_role_keys input.allowed_user_ids input.allowed_group_ids)
  id ← new_id deps
  created_at ← now deps
  let created : Board = record {
    id = id;
    name = input.name;
    is_default = false;
    archived_at = none;
    access_mode = input.access_mode;
    allowed_role_keys = input.allowed_role_keys;
    allowed_user_ids = input.allowed_user_ids;
    allowed_group_ids = input.allowed_group_ids;
    created_at = created_at;
  }
  insert_board created
  save_defaults id input.default_assignments
  insert_lanes deps id 0 default_lanes
  insert_first_policy deps actor created
  pure created

unfoldable pub create_board : Deps → Actor → BoardInput → Tx Board
unfolding create_board_tx run
create_board deps actor input = do
  board ← run (create_board_tx deps actor input)
  publish SseHint.board_updated
  pure board

unfoldable pub update_board_tx : Actor → Uuid → BoardInput → Tx Board
unfolding save_defaults
update_board_tx actor board_id input = do
  reads (lock_administration actor)
  current ← reads (require_board_access actor board_id)
  reads (validate_access input.allowed_role_keys input.allowed_user_ids input.allowed_group_ids)
  let updated : Board = record current {
    name = input.name;
    access_mode = input.access_mode;
    allowed_role_keys = input.allowed_role_keys;
    allowed_user_ids = input.allowed_user_ids;
    allowed_group_ids = input.allowed_group_ids;
  }
  update_board updated
  save_defaults board_id input.default_assignments
  pure updated

unfoldable pub change_board : Actor → Uuid → BoardInput → Tx Board
unfolding update_board_tx run
change_board actor board_id input = do
  board ← run (update_board_tx actor board_id input)
  publish SseHint.board_updated
  pure board

unfoldable pub remove_board_tx : Deps → Actor → Uuid → Tx (Unit {0})
remove_board_tx deps actor board_id = do
  reads (lock_administration actor)
  board ← reads (require_board_access actor board_id)
  count ← gets (λ db. length (list_boards db))
  throw_if (leb count 1) (conflict "the last board cannot be deleted" none)
  archived_at ← now deps
  update_board (record board { archived_at = some archived_at })

unfoldable pub remove_board : Deps → Actor → Uuid → Tx (Unit {0})
unfolding remove_board_tx run
remove_board deps actor board_id =
    run (remove_board_tx deps actor board_id) >> publish SseHint.board_updated

abbrev require_preference : Actor → Option Uuid → DbState → Result (Unit {0})
require_preference actor none db = ok tt
require_preference actor (some id) db = Errors.◌>>◌ (require_board_access actor id db) (ok tt)

unfoldable pub set_preference_tx : Actor → Option Uuid → Tx (Unit {0})
set_preference_tx actor board_id = do
  reads (λ db. require_found (get_default_board db) "default board")
  reads (require_preference actor board_id)
  set_default DefaultScope.user (Subject.ident actor.id) board_id

unfoldable pub set_preference : Actor → Option Uuid → Tx BoardCatalog
unfolding set_preference_tx list_catalog run
set_preference actor board_id = do
  throw_if (not (is_user actor)) (policy_denied "personal-board-preference")
  run (set_preference_tx actor board_id)
  publish SseHint.board_updated
  list_catalog actor
