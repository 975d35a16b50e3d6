-- ===== src/Services/Card/Finish.antt =====
-- packages/core/src/services/card-service.ts: `cancel`, `reopen`, `archive` and `delete`.
use ai_kanban.Prelude.{
  ℕ, ◌+◌, Bool, true, false, ◌&&◌, not, Option, none, some, [], ◌∷◌, String, string_eq, nat_eq,
  ◌==◌, is_some, if◌then◌else◌, option_map, or_option, Position, head?,
}
use ai_kanban.Domain.Vocabulary.{
  Uuid, Date, Instant, LaneKey, CancelResolution, Resolution, done_key, ready_key, waiting_key,
}
use ai_kanban.Domain.Entities.{Actor, Card, Lane}
use ai_kanban.Domain.Commands.{CancelCardInput}
use ai_kanban.Domain.Events.{CardEvent, CardEventBody, CardEventType}
use ai_kanban.Domain.Errors.{Result, ok, err, conflict, illegal_transition}
use ai_kanban.Policy.Engine.{PolicyAction, evaluate_policy, decide}
use ai_kanban.Db.State.{DbState, Deps}
use ai_kanban.Db.Tx.{Tx, ◌>>=◌, ◌>>◌, pure, lift, reads, gets, now, run, throw_if}
use ai_kanban.Db.Cards.{last_of_lane}
use ai_kanban.Db.Rows.{find_lane_by_key, list_latest_events}
use ai_kanban.Services.Access.{
  accessible_card, active_policy, lane_of_card, first_lane, ensure_not_archived, ensure_version,
}
use ai_kanban.Services.Internal.{publish_card_hints, run_with_position_retry}
use ai_kanban.Services.Card.Common.{MutationResult, fresh_key, commit}

abbrev pub resolution_of : CancelResolution → Resolution
resolution_of CancelResolution.cancelled = Resolution.cancelled
resolution_of CancelResolution.declined = Resolution.declined
resolution_of CancelResolution.duplicate = Resolution.duplicate

-- The waiting state is kept on the event of a card that was waiting.
abbrev pub cancelled_body : CancelCardInput → Lane → Card → CardEventBody
cancelled_body input from_lane card =
    CardEventBody.card_cancelled input.resolution from_lane.key card.waiting_reason
      (if is_some card.waiting_reason then card.expected_resume_at else none)

unfoldable pub cancelled_card : Lane → Position → CancelCardInput → Instant → Card → Card
cancelled_card done position input updated_at card = record card {
  lane_id = done.id;
  position = position;
  resolution = some (resolution_of input.resolution);
  waiting_reason = none;
  expected_resume_at = none;
  resume_alerted_at = none;
  version = card.version + 1;
  updated_at = updated_at;
}

abbrev found_done : Option Lane → Card → Result Lane
found_done none card = err (conflict "this board has no done column to cancel into" (some card))
found_done (some lane) card = ok lane

unfoldable pub cancel_tx : Deps → Actor → ℕ → CancelCardInput → Tx MutationResult
unfolding cancelled_card commit
cancel_tx deps actor card_id input = do
  card ← reads (accessible_card actor card_id)
  lift (ensure_not_archived card)
  from_lane ← reads (lane_of_card card)
  throw_if (from_lane.key == done_key) (conflict "card is already terminal" (some card))
  policy ← reads (active_policy card.board_id)
  lift (decide (evaluate_policy actor PolicyAction.card_cancel policy))
  lift (ensure_version card input.expected_version)
  done ← reads (λ db. found_done (find_lane_by_key card.board_id done_key db) card)
  bottom ← gets (last_of_lane done.id)
  position ← lift (fresh_key deps (option_map (λ (c : Card). c.position) bottom) none)
  updated_at ← now deps
  commit deps actor (cancelled_card done position input updated_at card)
      (cancelled_body input from_lane card)

unfoldable pub cancel : Deps → Actor → ℕ → CancelCardInput → Tx Card
unfolding cancel_tx
cancel deps actor card_id input = do
  result ←
      run_with_position_retry (cancel_tx deps actor card_id input)
        (some (reads (accessible_card actor card_id)))
  publish_card_hints result.card result.events
  pure result.card

-- What the cancellation of a card recorded.
pub record CancelPayload : Type 0 where
  pub from_lane : LaneKey
  pub waiting_reason : Option String
  pub expected_resume_at : Option Date

abbrev pub payload_of : Option CardEvent → Option CancelPayload
payload_of none = none
payload_of (some event) = of_body event.body
  where
    of_body : CardEventBody → Option CancelPayload
    of_body (CardEventBody.card_cancelled _ from_lane reason day) =
        some (record { from_lane = from_lane; waiting_reason = reason; expected_resume_at = day })
    of_body _ = none

-- Cancelled, and not completed.
abbrev pub was_cancelled : Option Resolution → Bool
was_cancelled none = false
was_cancelled (some Resolution.completed) = false
was_cancelled (some _) = true

unfoldable pub cancel_payload : Card → DbState → Option CancelPayload
cancel_payload card db =
    if was_cancelled card.resolution
    then payload_of (head? (list_latest_events card.id 1 (CardEventType.card_cancelled ∷ []) db))
    else none

-- The lane to return to; a waiting card needs its recorded reason.
abbrev pub prior_lane_key : Option CancelPayload → Option LaneKey
prior_lane_key none = none
prior_lane_key (some p) =
    if p.from_lane == waiting_key && not (is_some p.waiting_reason) then none else some p.from_lane

abbrev pub find_prior : Uuid → Option LaneKey → DbState → Option Lane
find_prior board_id none db = none
find_prior board_id (some key) db = find_lane_by_key board_id key db

-- The prior lane, else `ready`, else the first lane.
unfoldable pub reopen_target : Uuid → Option Lane → DbState → Result Lane
reopen_target board_id restored db =
    elim (or_option restored (find_lane_by_key board_id ready_key db)) [
      | none ↦ first_lane board_id db
      | some lane ↦ ok lane
    ]

abbrev pub payload_reason : Option CancelPayload → Option String
payload_reason none = none
payload_reason (some p) = p.waiting_reason

abbrev pub payload_day : Option CancelPayload → Option Date
payload_day none = none
payload_day (some p) = p.expected_resume_at

unfoldable pub reopened_card : Lane → Position → Bool → Option CancelPayload → Instant → Card → Card
reopened_card target position restored payload updated_at card =
    let restore_waiting = restored && target.key == waiting_key in
    record card {
      lane_id = target.id;
      position = position;
      resolution = none;
      archived_at = none;
      work_started_at = if restored then card.work_started_at else none;
      waiting_reason = if restore_waiting then payload_reason payload else card.waiting_reason;
      expected_resume_at = if restore_waiting then payload_day payload else card.expected_resume_at;
      resume_alerted_at = if restore_waiting then none else card.resume_alerted_at;
      version = card.version + 1;
      updated_at = updated_at;
    }

unfoldable pub reopen_tx : Deps → Actor → ℕ → (expected_version : ℕ) → Tx MutationResult
unfolding cancel_payload reopen_target reopened_card commit
reopen_tx deps actor card_id expected_version = do
  card ← reads (accessible_card actor card_id)
  from_lane ← reads (lane_of_card card)
  throw_if (not (from_lane.key == done_key)) (illegal_transition from_lane.key ready_key)
  policy ← reads (active_policy card.board_id)
  lift (decide (evaluate_policy actor PolicyAction.card_reopen policy))
  lift (ensure_version card expected_version)
  payload ← gets (cancel_payload card)
  restored ← gets (find_prior card.board_id (prior_lane_key payload))
  target ← reads (reopen_target card.board_id restored)
  bottom ← gets (last_of_lane target.id)
  position ← lift (fresh_key deps (option_map (λ (c : Card). c.position) bottom) none)
  updated_at ← now deps
  commit deps actor (reopened_card target position (is_some restored) payload updated_at card)
      (CardEventBody.card_reopened target.key)

unfoldable pub reopen : Deps → Actor → ℕ → (expected_version : ℕ) → Tx Card
unfolding reopen_tx
reopen deps actor card_id expected_version = do
  result ←
      run_with_position_retry (reopen_tx deps actor card_id expected_version)
        (some (reads (accessible_card actor card_id)))
  publish_card_hints result.card result.events
  pure result.card

unfoldable pub archived_card : Instant → Card → Card
archived_card now_iso card = record card {
  archived_at = some now_iso;
  version = card.version + 1;
  updated_at = now_iso;
}

unfoldable pub archive_tx : Deps → Actor → ℕ → (expected_version : ℕ) → Tx MutationResult
unfolding archived_card commit
archive_tx deps actor card_id expected_version = do
  card ← reads (accessible_card actor card_id)
  lift (ensure_not_archived card)
  lane ← reads (lane_of_card card)
  throw_if (not (lane.key == done_key))
      (conflict "only cards in the done lane can be archived" (some card))
  policy ← reads (active_policy card.board_id)
  lift (decide (evaluate_policy actor PolicyAction.card_archive policy))
  lift (ensure_version card expected_version)
  now_iso ← now deps
  commit deps actor (archived_card now_iso card) CardEventBody.card_archived

unfoldable pub archive : Deps → Actor → ℕ → (expected_version : ℕ) → Tx Card
unfolding archive_tx run
archive deps actor card_id expected_version = do
  result ← run (archive_tx deps actor card_id expected_version)
  publish_card_hints result.card result.events
  pure result.card
