-- ===== src/Services/Card/Common.antt =====
-- packages/core/src/services/card-service.ts: the helpers of `CardService`.
use ai_kanban.Prelude.{
  Bool, ◌&&◌, ◌||◌, not, Option, none, some, List, [], ◌∷◌, String, Position, string_eq, nat_eq,
  ◌==◌, any,
}
use ai_kanban.Domain.Vocabulary.{Uuid, ActorKind, CardOrigin}
use ai_kanban.Domain.Entities.{Actor, Card}
use ai_kanban.Domain.Events.{CardEvent, CardEventBody}
use ai_kanban.Domain.Policy.{PolicyDocument}
use ai_kanban.Domain.Errors.{
  Result, ok, err, conflict, not_found, unexpected, ◌>>=◌, ◌>>◌, throw_if, require_found,
}
use ai_kanban.Db.State.{DbState, Deps}
use ai_kanban.Db.Rows.{find_user, find_board}
use ai_kanban.Db.Tx
use ai_kanban.Db.Tx.{Tx, pure}
use ai_kanban.Db.Cards.{update_card}
use ai_kanban.Services.Internal.{record_event}
use ai_kanban.Services.Access.{can_access_board, as_actor}

pub record MutationResult : Type 0 where
  pub card : Card
  pub events : List CardEvent

abbrev is_active_reason : PolicyDocument → String → Bool
is_active_reason policy reason =
    any (λ choice. choice.key == reason && choice.active) policy.waiting_reasons

-- The last steps that every change of a card shares: the write, the event, and the result.
unfoldable pub commit : Deps → Actor → Card → CardEventBody → Tx MutationResult
commit deps actor updated body = Tx.◌>>=◌ (update_card updated) λ _.
    Tx.◌>>=◌ (record_event deps actor updated.id body)
      λ event. pure (record { card = updated; events = event ∷ [] })

unfoldable pub ensure_active_waiting_reason : PolicyDocument → String → Card → Result (Unit {0})
ensure_active_waiting_reason policy reason card =
    throw_if (not (is_active_reason policy reason))
      (conflict "waiting reason is unavailable; select an active reason" (some card))

-- No flow creates cards as the system actor.
abbrev pub origin_of : ActorKind → Result CardOrigin
origin_of ActorKind.user = ok CardOrigin.manual
origin_of ActorKind.mcp = ok CardOrigin.mcp
origin_of ActorKind.agent = ok CardOrigin.mcp
origin_of ActorKind.slack = ok CardOrigin.slack
origin_of ActorKind.system =
    err (unexpected "system actors do not create cards in v1 (origin pm is reserved)")

-- An active user other than the automation's, who can see the board.
unfoldable pub require_assignable : Deps → Uuid → Uuid → DbState → Result (Unit {0})
require_assignable deps assignee_id board_id db = do
  assignee ← require_found (find_user assignee_id db) "assignee"
  board ← require_found (find_board board_id db) "board"
  throw_if (not assignee.is_active || assignee.id == deps.system_user_id) (not_found "assignee")
  visible ← can_access_board db (as_actor assignee) board
  throw_if (not visible) (not_found "assignee")

-- `generateKeyBetween`, whose own error is no domain error.
abbrev pub fresh_key : Deps → Option Position → Option Position → Result Position
fresh_key deps prev next = elim (deps.generate_key_between prev next) [
  | none ↦ err (unexpected "invalid order key")
  | some key ↦ ok key
]

-- Keys that bracket no gap are stale.
abbrev pub key_between : Deps → Option Position → Option Position → Card → Result Position
key_between deps prev next card = elim (deps.generate_key_between prev next) [
  | none ↦ err (conflict "stale move neighbors" (some card))
  | some key ↦ ok key
]
