-- ===== src/Services/Catalog.antt =====
-- packages/core/src/services/board-service.ts: the catalog of boards and the choice of the default one.
use ai_kanban.Prelude.{
  Bool, true, false, ◌&&◌, ◌||◌, Option, none, some, List, [], ◌∷◌, map, filter, find, includes,
  distinct, head?, nat_eq, string_eq, ◌==◌, ◌!=◌, if◌then◌else◌, option_map,
}
use ai_kanban.Domain.Vocabulary.{
  Uuid, Permission, ActorKind, actor_kind_eq, DefaultScope, default_scope_eq,
}
use ai_kanban.Domain.Entities.{Actor, Board, BoardDefault, Subject}
use ai_kanban.Domain.Events.{SseHint}
use ai_kanban.Domain.Errors.{Result, ok, err, conflict, policy_denied, require_found}
use ai_kanban.Domain.Errors
use ai_kanban.Policy.Engine.{has_permission}
use ai_kanban.Db.State.{DbState}
use ai_kanban.Db.Tx.{Tx, reads, read}
use ai_kanban.Db.Cards.{find_card}
use ai_kanban.Db.Rows.{subject_beq, list_defaults, find_group, list_boards}
use ai_kanban.Services.Access.{global_policy, can_access_board, require_board_access}

pub data DefaultSource : Type 0 where
  personal group role application fallback : DefaultSource

pub record BoardCatalog : Type 0 where
  pub items : List Board
  pub can_manage : Bool
  pub preferred_board_id : Option Uuid
  pub default_board_id : Option Uuid
  pub default_source : DefaultSource
  pub default_assignments : List BoardDefault

-- Discovery shows a name and an id, and the assignments to those who manage them.
abbrev pub shown : Bool → Board → Board
shown true board = board
shown false board = record board {
  allowed_role_keys = [];
  allowed_user_ids = [];
  allowed_group_ids = [];
}

-- The boards of the list that the actor can see, as shown.
unfoldable pub catalog_items : DbState → Actor → Bool → List Board → Result (List Board)
catalog_items db actor can_manage [] = ok []
catalog_items db actor can_manage (board ∷ boards) =
    Errors.◌>>=◌ (can_access_board db actor board) λ visible.
      Errors.◌>>=◌ (catalog_items db actor can_manage boards)
        λ rest. ok (if visible then shown can_manage board ∷ rest else rest)

abbrev pub is_user : Actor → Bool
is_user actor = actor.kind == ActorKind.user

abbrev pub default_of : (BoardDefault → Bool) → List BoardDefault → Option Uuid
default_of p rows = option_map (λ (row : BoardDefault). row.board_id) (find p rows)

-- The group of the row has the user.
abbrev pub has_member : DbState → Uuid → BoardDefault → Bool
has_member db user_id row = elim (row.subject) [
  | Subject.everyone ↦ false
  | Subject.role_key key ↦ false
  | Subject.ident id ↦ elim (find_group id db) [
    | none ↦ false
    | some found ↦ includes found.user_ids user_id
  ]
]

-- The boards that the groups of a user are assigned.
unfoldable pub group_boards : DbState → Actor → List BoardDefault → List Uuid
group_boards db actor rows =
    if is_user actor
    then distinct (
        map (λ (row : BoardDefault). row.board_id)
          (filter (λ row. row.scope == DefaultScope.group && has_member db actor.id row) rows))
    else []

abbrev pub only : List Uuid → Option Uuid
only [] = none
only (id ∷ []) = some id
only (id ∷ other ∷ ids) = none

-- The first candidate that is given: personal, of the only group board, of the role, of everyone.
abbrev pub choose :
    Option Uuid → Option Uuid → Option Uuid → Option Uuid → Option (DefaultSource × Uuid)
choose (some id) b c d = some (DefaultSource.personal, id)
choose none (some id) c d = some (DefaultSource.group, id)
choose none none (some id) d = some (DefaultSource.role, id)
choose none none none (some id) = some (DefaultSource.application, id)
choose none none none none = none

abbrev pub chosen_id : Option (DefaultSource × Uuid) → List Board → Option Uuid
chosen_id (some (source, id)) items = some id
chosen_id none items = option_map (λ (board : Board). board.id) (head? items)

abbrev pub chosen_source : Option (DefaultSource × Uuid) → DefaultSource
chosen_source (some (source, id)) = source
chosen_source none = DefaultSource.fallback

-- The rows whose board is shown.
abbrev pub allowed_defaults : List Board → List BoardDefault → List BoardDefault
allowed_defaults items rows =
    filter (λ row. includes (map (λ (board : Board). board.id) items) row.board_id) rows

unfoldable pub chosen_default : DbState → Actor → List BoardDefault → Option (DefaultSource × Uuid)
unfolding group_boards
chosen_default db actor rows =
    choose (default_of (λ row. row.scope == DefaultScope.user) rows)
      (only (group_boards db actor rows))
      (default_of
        (λ row.
          row.scope == DefaultScope.role && subject_beq row.subject (Subject.role_key actor.role))
        rows)
      (default_of (λ row. row.scope == DefaultScope.application) rows)

abbrev pub catalog_of : DbState → Actor → Bool → List Board → List BoardDefault → BoardCatalog
catalog_of db actor can_manage items rows = record {
  items = items;
  can_manage = can_manage;
  preferred_board_id = default_of (λ row. row.scope == DefaultScope.user) rows;
  default_board_id = chosen_id (chosen_default db actor rows) items;
  default_source = chosen_source (chosen_default db actor rows);
  default_assignments =
      filter
        (λ row.
          row.scope == DefaultScope.application || (can_manage && row.scope != DefaultScope.user))
        rows;
}

unfoldable pub catalog : Actor → DbState → Result BoardCatalog
unfolding catalog_items chosen_default
catalog actor db = Errors.◌>>=◌ (global_policy db) λ policy.
    let can_manage = has_permission actor Permission.manage_policy policy in
    Errors.◌>>=◌ (catalog_items db actor can_manage (list_boards db)) λ items. ok (
      catalog_of db actor can_manage items
        (allowed_defaults items (list_defaults (if is_user actor then some actor.id else none) db)))

unfoldable pub list_catalog : Actor → Tx BoardCatalog
unfolding catalog read
list_catalog actor = read (reads (catalog actor))

-- A board subscriber takes every board-wide hint, and those of its own cards.
unfoldable pub accepts_hint : Actor → Uuid → SseHint → DbState → Result Bool
accepts_hint actor board_id (SseHint.card hint) db =
    Errors.◌>>◌ (require_board_access actor board_id db) (elim (find_card hint.card_id db) [
      | none ↦ ok false
      | some card ↦ ok (card.board_id == board_id)
    ])
accepts_hint actor board_id hint db = Errors.◌>>◌ (require_board_access actor board_id db) (ok true)
