-- ===== src/Services/Access.antt =====
-- packages/core/src/services/board-access.ts and the reads of services/internal.ts.
use ai_kanban.Prelude.{
  ℕ, Bool, true, false, ◌||◌, not, none, some, List, [], ◌∷◌, nat_eq, string_eq, ◌==◌, is_some,
  if◌then◌else◌, includes, find, head?,
}
use Prim.Native.String
use ai_kanban.Domain.Vocabulary.{Uuid, LaneKey, Permission, ActorKind, AccessMode, actor_kind_eq}
use ai_kanban.Domain.Entities.{Actor, Board, Card, Lane, User}
use ai_kanban.Domain.Policy.{PolicyDocument}
use ai_kanban.Domain.Errors.{
  Result, ok, not_found, conflict, archived, ◌>>=◌, ◌>>◌, throw_if, require_found,
}
use ai_kanban.Policy.Engine.{has_permission}
use ai_kanban.Db.State.{DbState}
use ai_kanban.Db.Rows.{
  find_board, get_default_board, list_boards, find_group, get_active_policy, list_lanes,
  find_lane_by_key,
}
use ai_kanban.Db.Cards.{find_card}

-- The policy of the initial board, which holds the roles.
unfoldable pub global_policy : DbState → Result PolicyDocument
global_policy db = do
  board ← require_found (get_default_board db) "default board"
  policy ← require_found (get_active_policy board.id db) "policy"
  ok policy.config

-- The board's own policy, under the roles of the global one.
unfoldable pub active_policy : Uuid → DbState → Result PolicyDocument
active_policy board_id db = do
  own ← require_found (get_active_policy board_id db) "policy"
  global ← global_policy db
  ok (record (own.config) { roles = global.roles })

abbrev pub is_open_to_all : Board → Bool
is_open_to_all board = elim (board.access_mode) [
  | AccessMode.open_to_all ↦ true
  | AccessMode.restricted ↦ false
]

-- Some allowed group lists the user.
unfoldable pub is_group_member : DbState → Uuid → List Uuid → Bool
is_group_member db user_id [] = false
is_group_member db user_id (id ∷ ids) =
    elim (find_group id db) [ none ↦ false | some group ↦ includes group.user_ids user_id ]
    || is_group_member db user_id ids

-- Past the two rules that need the global policy.
unfoldable pub has_membership : DbState → Actor → Board → Bool
unfolding is_group_member
has_membership db actor board =
    if is_open_to_all board || includes board.allowed_role_keys actor.role
    then true
    else if actor.kind == ActorKind.mcp
    then false
    else includes board.allowed_user_ids actor.id
      || is_group_member db actor.id board.allowed_group_ids

unfoldable pub can_access_board : DbState → Actor → Board → Result Bool
unfolding has_membership
can_access_board db actor board = if is_some board.archived_at then ok false else do
  policy ← global_policy db
  ok (has_permission actor Permission.manage_policy policy || has_membership db actor board)

unfoldable pub require_board_access : Actor → Uuid → DbState → Result Board
require_board_access actor board_id db = do
  board ← require_found (find_board board_id db) "board"
  visible ← can_access_board db actor board
  throw_if (not visible) (not_found "board")
  ok board

unfoldable pub accessible_card : Actor → ℕ → DbState → Result Card
accessible_card actor card_id db = do
  card ← require_found (find_card card_id db) "card"
  require_board_access actor card.board_id db
  ok card

-- The boards of the list that the actor can see, in its order.
unfoldable pub visible_of : DbState → Actor → List Board → Result (List Uuid)
visible_of db actor [] = ok []
visible_of db actor (board ∷ boards) = do
  visible ← can_access_board db actor board
  rest ← visible_of db actor boards
  ok (if visible then board.id ∷ rest else rest)

unfoldable pub visible_board_ids : Actor → DbState → Result (List Uuid)
unfolding visible_of
visible_board_ids actor db = visible_of db actor (list_boards db)

-- The actor that a stored user is, for the access rules.
abbrev pub as_actor : User → Actor
as_actor user = record {
  kind = ActorKind.user;
  id = user.id;
  role = user.role;
  scope = none;
  client = none;
}

abbrev pub ensure_not_archived : Card → Result (Unit {0})
ensure_not_archived card = throw_if (is_some card.archived_at) archived

abbrev pub ensure_version : Card → ℕ → Result (Unit {0})
ensure_version card expected_version =
    throw_if (not (card.version == expected_version)) (conflict "stale expectedVersion" (some card))

unfoldable pub lane_by_key : Uuid → LaneKey → DbState → Result Lane
lane_by_key board_id key db =
    require_found (find_lane_by_key board_id key db) (String.◌++◌ "lane " key)

unfoldable pub first_lane : Uuid → DbState → Result Lane
first_lane board_id db = require_found (head? (list_lanes board_id db)) "lane"

unfoldable pub lane_of_card : Card → DbState → Result Lane
lane_of_card card db =
    require_found (find (λ lane. lane.id == card.lane_id) (list_lanes card.board_id db)) "lane"
