-- ===== src/Services/Card/Move.antt =====
-- packages/core/src/services/card-service.ts: `CardService.move`.
use ai_kanban.Prelude.{
  ℕ, ◌+◌, Bool, true, false, ◌&&◌, ◌||◌, not, Option, none, some, String, string_eq, nat_eq, ◌==◌,
  ◌!=◌, is_some, if◌then◌else◌, option_map, Position, ltb,
}
use ai_kanban.Domain.Vocabulary.{Date, Instant, Resolution, done_key, waiting_key, in_progress_key}
use ai_kanban.Domain.Entities.{Actor, Card, Lane}
use ai_kanban.Domain.Commands.{MoveCardInput}
use ai_kanban.Domain.Events.{CardEventBody}
use ai_kanban.Domain.Policy.{PolicyDocument}
use ai_kanban.Domain.Errors
use ai_kanban.Domain.Errors.{Result, ok, err, conflict, invalid}
use ai_kanban.Policy.Engine.{PolicyAction, evaluate_policy, decide}
use ai_kanban.Db.State.{DbState, Deps}
use ai_kanban.Db.Tx.{Tx, ◌>>=◌, ◌>>◌, pure, lift, reads, gets, now, when, card_completed}
use ai_kanban.Db.Cards.{find_card, position_before, count_active_by_lane}
use ai_kanban.Services.Access.{
  accessible_card, active_policy, lane_of_card, lane_by_key, ensure_not_archived, ensure_version,
}
use ai_kanban.Services.Internal.{publish_card_hints, run_with_position_retry}
use ai_kanban.Services.Card.Common.{
  MutationResult, ensure_active_waiting_reason, key_between, commit,
}

pub record WaitingFields : Type 0 where
  pub waiting_reason : String
  pub expected_resume_at : Date

-- `waitingLaneEntrySchema`: both fields must be given.
abbrev pub waiting_lane_entry : MoveCardInput → Result (Option WaitingFields)
waiting_lane_entry input = entry input.waiting_reason input.expected_resume_at
  where
    entry : Option String → Option Date → Result (Option WaitingFields)
    entry (some reason) (some day) =
        ok (some (record { waiting_reason = reason; expected_resume_at = day }))
    entry none day = err invalid
    entry (some reason) none = err invalid

abbrev check_reason : PolicyDocument → Card → Option WaitingFields → Result (Unit {0})
check_reason policy card none = ok tt
check_reason policy card (some fields) =
    ensure_active_waiting_reason policy fields.waiting_reason card

-- A neighbour that is no other active card of the target lane is stale.
abbrev is_stale : Card → Lane → Card → Bool
is_stale card to_lane neighbor =
    neighbor.id == card.id || neighbor.lane_id != to_lane.id || is_some neighbor.archived_at

unfoldable pub read_neighbor : Card → Lane → Option ℕ → DbState → Result (Option Card)
read_neighbor card to_lane none db = ok none
read_neighbor card to_lane (some neighbor_id) db = elim (find_card neighbor_id db) [
  | none ↦ err (conflict "stale move neighbors" (some card))
  | some neighbor ↦
      if is_stale card to_lane neighbor
      then err (conflict "stale move neighbors" (some card))
      else ok (some neighbor)
]

abbrev pub position_of : Option Card → Option Position
position_of = option_map (λ (c : Card). c.position)

-- The waiting fields of a card that changes lanes: set on entry, cleared on leaving.
abbrev pub set_waiting : Option WaitingFields → Card → Card
set_waiting none card = card
set_waiting (some fields) card = record card {
  waiting_reason = some fields.waiting_reason;
  expected_resume_at = some fields.expected_resume_at;
  resume_alerted_at = none;
}

abbrev pub clear_waiting : Bool → Card → Card
clear_waiting false card = card
clear_waiting true card = record card {
  waiting_reason = none;
  expected_resume_at = none;
  resume_alerted_at = none;
}

-- `completed` on entry into done, and nothing after leaving it.
abbrev pub set_resolution : Bool → Bool → Card → Card
set_resolution enters leaves card =
    if leaves
    then record card { resolution = none }
    else if enters
    then record card { resolution = some Resolution.completed }
    else card

-- What a change of lanes does to the card besides its place and version.
unfoldable pub change_lane : Lane → Lane → Option WaitingFields → Option Instant → Card → Card
change_lane from_lane to_lane waiting_fields work_started_at card =
    set_resolution (to_lane.key == done_key) (from_lane.key == done_key)
      (record (clear_waiting (from_lane.key == waiting_key) (set_waiting waiting_fields card)) {
        work_started_at = work_started_at;
      })

-- The first entry into In Progress stamps the start of the work.
abbrev pub work_start : Deps → Lane → Card → Tx (Option Instant)
work_start deps to_lane card =
    elim (to_lane.key == in_progress_key && not (is_some card.work_started_at)) [
      | true ↦ now deps >>= λ started. pure (some started)
      | false ↦ pure card.work_started_at
    ]

abbrev pub wip_limit_exceeded : Lane → DbState → Bool
wip_limit_exceeded to_lane db = elim (to_lane.wip_limit) [
  | none ↦ false
  | some limit ↦ ltb limit (count_active_by_lane to_lane.id db + 1)
]

pub record Moved : Type 0 where
  pub card : Card
  pub body : CardEventBody
  pub completed : Bool

-- The two kinds of move, on the card that already has its new place.
unfoldable pub reordered : Lane → MoveCardInput → Card → Tx Moved
reordered to_lane input placed = pure (record {
  card = placed;
  body = CardEventBody.card_reordered to_lane.key input.prev_card_id input.next_card_id;
  completed = false;
})

unfoldable pub status_changed : Deps → Lane → Lane → Option WaitingFields → Card → Tx Moved
unfolding change_lane
status_changed deps from_lane to_lane waiting_fields placed = do
  work_started_at ← work_start deps to_lane placed
  exceeded ← gets (wip_limit_exceeded to_lane)
  pure (record {
    card = change_lane from_lane to_lane waiting_fields work_started_at placed;
    body =
        CardEventBody.card_status_changed from_lane.key to_lane.key exceeded
          (from_lane.key == waiting_key);
    completed = to_lane.key == done_key;
  })

abbrev pub move_action : Lane → Lane → PolicyAction
move_action from_lane to_lane =
    if to_lane.id == from_lane.id
    then PolicyAction.card_reorder to_lane.key
    else PolicyAction.card_move from_lane.key to_lane.key

-- The place that the neighbours bracket, next to the card that precedes it now.
unfoldable pub place : Deps → Card → Lane → MoveCardInput → DbState → Result Position
unfolding read_neighbor
place deps card to_lane input db =
    Errors.◌>>=◌ (read_neighbor card to_lane input.prev_card_id db) λ prev.
      Errors.◌>>=◌ (read_neighbor card to_lane input.next_card_id db) λ next.
        Errors.◌>>=◌ (key_between deps (position_of prev) (position_of next) card) λ _.
          key_between deps (position_before to_lane.id (position_of next) card.id db)
            (position_of next) card

pub record MoveResult : Type 0 where
  pub result : MutationResult
  pub completed : Bool

-- The card at its new place, under its next version.
unfoldable pub placed_card : Lane → Position → Instant → Card → Card
placed_card to_lane position updated_at card = record card {
  lane_id = to_lane.id;
  position = position;
  version = card.version + 1;
  updated_at = updated_at;
}

-- The second half of a move, once its checks have passed.
unfoldable pub write_move :
    Deps → Actor → MoveCardInput → Card → Lane → Lane → Option WaitingFields → Tx MoveResult
unfolding place placed_card reordered status_changed commit
write_move deps actor input card from_lane to_lane waiting_fields = do
  position ← reads (place deps card to_lane input)
  updated_at ← now deps
  let placed = placed_card to_lane position updated_at card
  moved ← elim (to_lane.id == from_lane.id) [
    | true ↦ reordered to_lane input placed
    | false ↦ status_changed deps from_lane to_lane waiting_fields placed
  ]
  result ← commit deps actor moved.card moved.body
  pure (record { result = result; completed = moved.completed })

unfoldable pub move_tx : Deps → Actor → ℕ → MoveCardInput → Tx MoveResult
unfolding write_move
move_tx deps actor card_id input = do
  card ← reads (accessible_card actor card_id)
  lift (ensure_not_archived card)
  from_lane ← reads (lane_of_card card)
  to_lane ← reads (lane_by_key card.board_id input.to_lane)
  let is_reorder = to_lane.id == from_lane.id
  policy ← reads (active_policy card.board_id)
  lift (decide (evaluate_policy actor (move_action from_lane to_lane) policy))
  when (not is_reorder && from_lane.key == done_key)
      (lift (decide (evaluate_policy actor PolicyAction.card_reopen policy)))
  lift (ensure_version card input.expected_version)
  waiting_fields ← elim (not is_reorder && to_lane.key == waiting_key) [
    | true ↦ lift (waiting_lane_entry input)
    | false ↦ pure none
  ]
  lift (check_reason policy card waiting_fields)
  write_move deps actor input card from_lane to_lane waiting_fields

unfoldable pub move : Deps → Actor → ℕ → MoveCardInput → Tx Card
unfolding move_tx
move deps actor card_id input = do
  moved ←
      run_with_position_retry (move_tx deps actor card_id input)
        (some (reads (accessible_card actor card_id)))
  publish_card_hints moved.result.card moved.result.events
  when moved.completed (card_completed moved.result.card)
  pure moved.result.card
