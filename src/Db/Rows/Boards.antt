-- ===== src/Db/Rows/Boards.antt =====
-- packages/core/src/testing/in-memory-db.ts: the board, group, lane, user, token, location and
-- policy repositories.
use ai_kanban.Prelude.{
  Bool, true, false, ◌&&◌, ◌||◌, not, Option, none, some, List, [], ◌∷◌, ◌++◌, nat_eq, string_eq,
  option_eq, ◌==◌, ◌!=◌, is_some, filter, find, any, get_last?, replace_first, sort_by, ltb,
  bool_eq,
}
use ai_kanban.Domain.Vocabulary.{Uuid, LaneKey, DefaultScope, default_scope_eq}
use ai_kanban.Domain.Entities.{
  User, Board, Group, Lane, Location, ServiceToken, BoardDefault, Subject,
}
use ai_kanban.Domain.Policy.{BoardPolicy}
use ai_kanban.Domain.Errors.{not_found}
use ai_kanban.Db.State.{DbState}
use ai_kanban.Db.Tx.{Tx, ◌>>=◌, ◌>>◌, modify, gets, throw_if}

abbrev pub subject_beq : Subject → Subject → Bool
subject_beq Subject.everyone Subject.everyone = true
subject_beq (Subject.role_key a) (Subject.role_key b) = a == b
subject_beq (Subject.ident a) (Subject.ident b) = a == b
subject_beq _ _ = false

-- `listDefaults`: of the users' own defaults, only those of `user_id`.
unfoldable pub list_defaults : Option Uuid → DbState → List BoardDefault
list_defaults user_id db =
    filter (λ row. row.scope != DefaultScope.user || is_of row user_id) db.board_defaults
  where
    is_of : BoardDefault → Option Uuid → Bool
    is_of row none = false
    is_of row (some id) = subject_beq row.subject (Subject.ident id)

unfoldable pub set_default : DefaultScope → Subject → Option Uuid → Tx (Unit {0})
set_default scope subject board_id = modify λ db. record db {
  board_defaults =
      filter (λ row. row.scope != scope || not (subject_beq row.subject subject)) db.board_defaults
      ++ assigned board_id;
}
  where
    assigned : Option Uuid → List BoardDefault
    assigned none = []
    assigned (some id) = record { scope = scope; subject = subject; board_id = id } ∷ []

unfoldable pub find_board : Uuid → DbState → Option Board
find_board id db = find (λ b. b.id == id) db.boards

unfoldable pub get_default_board : DbState → Option Board
get_default_board db = find (λ b. b.is_default) db.boards

unfoldable pub list_boards : DbState → List Board
list_boards db = filter (λ b. not (is_some b.archived_at)) db.boards

unfoldable pub insert_board : Board → Tx (Unit {0})
insert_board board = modify λ db. record db { boards = db.boards ++ board ∷ [] }

unfoldable pub update_board : Board → Tx (Unit {0})
update_board board = do
  present ← gets (λ db. any (λ b. b.id == board.id) db.boards)
  throw_if (not present) (not_found "board")
  modify (λ db. record db { boards = replace_first (λ b. b.id == board.id) board db.boards })

unfoldable pub find_group : Uuid → DbState → Option Group
find_group id db = find (λ g. g.id == id) db.groups

unfoldable pub list_groups : DbState → List Group
list_groups db = db.groups

unfoldable pub insert_group : Group → Tx (Unit {0})
insert_group group = modify λ db. record db { groups = db.groups ++ group ∷ [] }

unfoldable pub update_group : Group → Tx (Unit {0})
update_group group = do
  present ← gets (λ db. any (λ g. g.id == group.id) db.groups)
  throw_if (not present) (not_found "group")
  modify (λ db. record db { groups = replace_first (λ g. g.id == group.id) group db.groups })

unfoldable pub remove_group : Uuid → Tx (Unit {0})
remove_group id = modify λ db. record db { groups = filter (λ g. g.id != id) db.groups }

-- The lanes of a board, left to right.
unfoldable pub list_lanes : Uuid → DbState → List Lane
list_lanes board_id db =
    sort_by (λ a b. ltb a.position b.position) (filter (λ l. l.board_id == board_id) db.lanes)

unfoldable pub find_lane_by_key : Uuid → LaneKey → DbState → Option Lane
find_lane_by_key board_id key db = find (λ l. l.board_id == board_id && l.key == key) db.lanes

unfoldable pub insert_lane : Lane → Tx (Unit {0})
insert_lane lane = modify λ db. record db { lanes = db.lanes ++ lane ∷ [] }

unfoldable pub find_user : Uuid → DbState → Option User
find_user id db = find (λ u. u.id == id) db.users

unfoldable pub find_location : Uuid → DbState → Option Location
find_location id db = find (λ l. l.id == id) db.locations

unfoldable pub list_service_tokens : DbState → List ServiceToken
list_service_tokens db = sort_by (λ a b. ltb b.created_at a.created_at) db.service_tokens

-- The newest version, the last inserted among equals.
unfoldable pub get_active_policy : Uuid → DbState → Option BoardPolicy
get_active_policy board_id db = get_last? (
    sort_by (λ a b. ltb a.created_at b.created_at)
      (filter (λ p. p.board_id == board_id) db.policies))

unfoldable pub insert_policy : BoardPolicy → Tx (Unit {0})
insert_policy policy = modify λ db. record db { policies = db.policies ++ policy ∷ [] }
