-- ===== src/Examples/Administration.antt =====
-- packages/core/src/services/board-service.ts at the example team.
use ai_kanban.Prelude.{
  ◌≤◌, ◌≡◌, ◌↔◌, ◌∷◌, [], In, refl, none, some, true, false, length, nat_eq, ◌==◌, Bool,
}
use ai_kanban.Domain.Vocabulary.{
  Uuid, AccessMode, DefaultScope, default_scope_eq, DefaultScope-discrete,
}
use ai_kanban.Domain.Entities.{Board, Group, Subject}
use ai_kanban.Domain.Commands.{GroupInput}
use ai_kanban.Domain.Errors.{ok}
use ai_kanban.Db.State.{World}
use ai_kanban.Db.Rows.{list_defaults, list_groups, insert_group, update_board}
use ai_kanban.Services.Catalog.{
  BoardCatalog, DefaultSource, catalog, catalog_items, chosen_default, group_boards,
}
use ai_kanban.Services.Board.{remove_board, remove_board_tx}
use ai_kanban.Services.Group.{
  save_group, save_group_tx, name_taken, lock_administration, require_users,
}
use ai_kanban.Boards.{IsVisible, board_ids, catalog-IsVisible}
use ai_kanban.Boards.Groups.{remove_board-In, HasDistinctNames, save_group-HasDistinctNames}
use ai_kanban.Examples.Data.{deps, member, team}
use ai_kanban.Prelude.{sort_by, insert_by}
use ai_kanban.Domain.Vocabulary.{ActorKind-discrete, TokenScope-discrete, Permission-discrete}
use ai_kanban.Policy.Engine.{
  grant, has_permission, evaluate_policy, evaluate_action, ensure_permission,
}
use ai_kanban.Db.Tx.{run}
use ai_kanban.Db.Cards.{find_card}
use ai_kanban.Db.Rows.{find_board, find_user, get_default_board, get_active_policy, list_boards}
use ai_kanban.Services.Access.{
  accessible_card, require_board_access, can_access_board, has_membership, global_policy,
  active_policy,
}

abbrev board : Uuid → Bool → Board
board id is_default = record {
  id = id;
  name = "Workshop";
  is_default = is_default;
  archived_at = none;
  access_mode = AccessMode.open_to_all;
  allowed_role_keys = [];
  allowed_user_ids = [];
  allowed_group_ids = [];
  created_at = 0;
}

-- Two boards, of which the second is everyone's default.
abbrev offices : World
offices = record team {
  db = record (team.db) {
    boards = board 1 true ∷ board 2 false ∷ [];
    board_defaults =
        record { scope = DefaultScope.application; subject = Subject.everyone; board_id = 2 } ∷ [];
    groups = record { id = 40; name = "press"; user_ids = []; created_at = 0 } ∷ [];
  };
}

abbrev listed : BoardCatalog
listed = record {
  items = board 1 true ∷ board 2 false ∷ [];
  can_manage = true;
  preferred_board_id = none;
  default_board_id = some 2;
  default_source = DefaultSource.application;
  default_assignments =
      record { scope = DefaultScope.application; subject = Subject.everyone; board_id = 2 } ∷ [];
}

lists : catalog member offices.db ≡ ok listed
unfolding catalog catalog_items chosen_default group_boards list_boards list_defaults
    DefaultScope-discrete accessible_card find_card require_board_access find_board can_access_board
    global_policy get_default_board get_active_policy sort_by insert_by has_permission grant
    has_membership ActorKind-discrete TokenScope-discrete Permission-discrete active_policy
    evaluate_policy evaluate_action
lists = refl

catalog-IsVisible_example :
    ((id : Uuid)
      → In id (board_ids listed.items) ↔ IsVisible offices.db member (list_boards offices.db) id)
    × ((id : Uuid) → listed.default_board_id ≡ some id → In id (board_ids listed.items))
    × (listed.default_board_id ≡ none → listed.items ≡ [])
catalog-IsVisible_example = catalog-IsVisible member offices.db listed lists

abbrev smaller : World
smaller = (remove_board deps member 2 offices).1

removes : remove_board deps member 2 offices ≡ (ok tt, smaller)
unfolding remove_board remove_board_tx list_boards update_board lock_administration
    ensure_permission accessible_card find_card require_board_access find_board can_access_board
    global_policy get_default_board get_active_policy sort_by insert_by has_permission grant
    has_membership ActorKind-discrete TokenScope-discrete Permission-discrete active_policy
    evaluate_policy evaluate_action run
removes = refl

remove_board-In_example :
    (1 ≤ length (list_boards smaller.db))
    × ((b : Board)
        → In b (list_boards offices.db)
        → (b.id == 2) ≡ false
        → In b (list_boards smaller.db))
remove_board-In_example = remove_board-In deps member 2 offices smaller removes

abbrev input : GroupInput
input = record { name = "paint"; user_ids = 7 ∷ 7 ∷ [] }

abbrev painters : Group
painters = record { id = 500; name = "paint"; user_ids = 7 ∷ []; created_at = 1000 }

abbrev grouped : World
grouped = (save_group deps member none input offices).1

saves : save_group deps member none input offices ≡ (ok painters, grouped)
unfolding save_group save_group_tx name_taken list_groups insert_group require_users find_user
    lock_administration ensure_permission accessible_card find_card require_board_access find_board
    can_access_board global_policy get_default_board get_active_policy sort_by insert_by
    has_permission grant has_membership ActorKind-discrete TokenScope-discrete Permission-discrete
    active_policy evaluate_policy evaluate_action run
saves = refl

save_group-HasDistinctNames_example : HasDistinctNames deps grouped.db.groups
save_group-HasDistinctNames_example =
    save_group-HasDistinctNames deps member none input offices grouped painters ((tt), tt)
      (refl, tt) saves
