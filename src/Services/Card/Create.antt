-- ===== src/Services/Card/Create.antt =====
-- packages/core/src/services/card-service.ts: `CardService.create`.
use ai_kanban.Prelude.{ℕ, false, Option, none, some, [], ◌∷◌, map, or_else, option_map, Position}
use ai_kanban.Domain.Vocabulary.{Uuid, Instant, CardOrigin}
use ai_kanban.Domain.Entities.{Actor, Card, Lane, Tag}
use ai_kanban.Domain.Commands.{CreateCardInput, CreateCardOptions}
use ai_kanban.Domain.Events.{CardEventBody}
use ai_kanban.Domain.Errors.{Result, ok, require_found}
use ai_kanban.Policy.Engine.{PolicyAction, evaluate_policy, decide}
use ai_kanban.Db.State.{DbState, Deps}
use ai_kanban.Db.Tx.{Tx, ◌>>=◌, ◌>>◌, pure, lift, reads, gets, now}
use ai_kanban.Db.Cards.{next_card_id, insert_card, first_of_lane}
use ai_kanban.Db.Rows.{find_user, find_location, add_watcher, set_card_tags}
use ai_kanban.Services.Access.{require_board_access, active_policy, first_lane}
use ai_kanban.Services.Internal.{
  record_event, publish_card_hints, resolve_tags, run_with_position_retry,
}
use ai_kanban.Services.Card.Common.{MutationResult, origin_of, require_assignable, fresh_key}

abbrev require_assignable_if_given : Deps → Option Uuid → DbState → Result (Unit {0})
require_assignable_if_given deps none db = ok tt
require_assignable_if_given deps (some id) db = require_assignable deps id deps.board_id db

abbrev require_location_if_given : Option Uuid → DbState → Result (Unit {0})
require_location_if_given none db = ok tt
require_location_if_given (some id) db = elim (require_found (find_location id db) "location") [
  | Result.ok _ ↦ ok tt
  | Result.err e ↦ Result.err e
]

-- The row of a new card.
unfoldable pub new_card :
    Deps
    → CreateCardInput
    → CreateCardOptions
    → CardOrigin
    → (reporter_id : Uuid) → ℕ
    → Lane
    → Position
    → Instant
    → Card
new_card deps input options origin reporter_id id entry position now_iso = record {
  id = id;
  board_id = deps.board_id;
  lane_id = entry.id;
  position = position;
  title = input.title;
  description = input.description;
  priority = input.priority;
  estimate_minutes = input.estimate_minutes;
  reporter_id = reporter_id;
  assignee_id = input.assignee_id;
  location_id = input.location_id;
  origin = origin;
  resolution = none;
  blocked = false;
  blocked_reason = none;
  blocked_at = none;
  waiting_reason = none;
  expected_resume_at = none;
  resume_alerted_at = none;
  work_started_at = none;
  slack_channel_id = option_map (λ s. s.channel_id) options.slack_source;
  slack_thread_ts = option_map (λ s. s.thread_ts) options.slack_source;
  slack_permalink = option_map (λ s. s.permalink) options.slack_source;
  version = 1;
  created_at = now_iso;
  updated_at = now_iso;
  archived_at = none;
}

abbrev pub watch_if_given : ℕ → Option Uuid → Instant → Tx (Unit {0})
watch_if_given card_id none now_iso = pure tt
watch_if_given card_id (some user_id) now_iso = add_watcher card_id user_id now_iso

-- What follows the insertion: the watchers, the tags and the event.
unfoldable pub announce_new_card :
    Deps → Actor → CreateCardInput → Card → Instant → Tx MutationResult
announce_new_card deps actor input card now_iso = do
  add_watcher card.id card.reporter_id now_iso
  watch_if_given card.id card.assignee_id now_iso
  tags ← resolve_tags deps input.tags
  set_card_tags card.id (map (λ (tag : Tag). tag.id) tags)
  event ← record_event deps actor card.id (
      CardEventBody.card_created
        (record { card = card; tags = map (λ (tag : Tag). tag.name) tags }))
  pure (record { card = card; events = event ∷ [] })

-- The second half of a creation: the card, first in its lane.
unfoldable pub insert_new :
    Deps
    → Actor
    → CardOrigin
    → (reporter_id : Uuid) → CreateCardInput
    → CreateCardOptions
    → Lane
    → Tx MutationResult
unfolding new_card announce_new_card
insert_new deps actor origin reporter_id input options entry = do
  top ← gets (first_of_lane entry.id)
  now_iso ← now deps
  id ← gets next_card_id
  position ← lift (fresh_key deps none (option_map (λ (c : Card). c.position) top))
  let card = new_card deps input options origin reporter_id id entry position now_iso
  insert_card card
  announce_new_card deps actor input card now_iso

unfoldable pub create_tx :
    Deps → Actor → CardOrigin → CreateCardInput → CreateCardOptions → Tx MutationResult
unfolding insert_new
create_tx deps actor origin input options = do
  reads (require_board_access actor deps.board_id)
  policy ← reads (active_policy deps.board_id)
  lift (decide (evaluate_policy actor PolicyAction.card_create policy))
  let reporter_id = or_else options.reporter_id actor.id
  reads (λ db. require_found (find_user reporter_id db) "reporter")
  reads (require_assignable_if_given deps input.assignee_id)
  reads (require_location_if_given input.location_id)
  entry ← reads (first_lane deps.board_id)
  insert_new deps actor origin reporter_id input options entry

unfoldable pub create : Deps → Actor → CreateCardInput → CreateCardOptions → Tx Card
unfolding create_tx
create deps actor input options = do
  origin ← lift (origin_of actor.kind)
  result ← run_with_position_retry (create_tx deps actor origin input options) none
  publish_card_hints result.card result.events
  pure result.card
