-- ===== src/Lifecycle/Commit.antt =====
-- packages/core/src/services/card-service.ts: the write, the events and the result that the changes
-- of a card share.
use ai_kanban.Prelude.{◌≡◌, ◌≢◌, arith, [], ◌++◌, false, replace_first, ◌==◌, nat_eq, All}
use ai_kanban.Domain.Entities.{Actor, Card}
use ai_kanban.Domain.Events.{CardEvent, CardEventBody}
use ai_kanban.Domain.Errors.{ok}
use ai_kanban.Db.State.{World, Deps}
use ai_kanban.Db.Cards.{update_card, assert_unique_position, position_taken}
use ai_kanban.Db.Rows.{append_event}
use ai_kanban.Services.Internal.{record_event, make_event}
use ai_kanban.Services.Card.{MutationResult, commit}

-- The event is about the card, and carries the kind of its actor.
abbrev pub IsAbout : Actor → Card → CardEvent → Type 0
IsAbout actor card event = (event.card_id ≡ card.id) × (event.actor_kind ≡ actor.kind)

-- The result's card is written to its row, and the result's events are appended to the log.
pub record Committed (actor : Actor) (r : MutationResult) (w w' : World) : Type 0 where
  pub cards_are : w'.db.cards ≡ replace_first (λ c. c.id == r.card.id) r.card w.db.cards
  pub events_are : w'.db.events ≡ w.db.events ++ r.events
  pub lanes_are : w'.db.lanes ≡ w.db.lanes
  pub some_event : r.events ≢ []
  pub all_about : All (IsAbout actor r.card) r.events
  pub was_free : position_taken r.card w.db.cards ≡ false
  pub no_hint : w'.hints ≡ w.hints

pub commit-Committed :
    (deps : Deps) (actor : Actor) (updated : Card) (body : CardEventBody) (r : MutationResult)
    (w w' : World)
    → commit deps actor updated body w ≡ (ok r, w')
    → (r.card ≡ updated) × Committed actor r w w'
unfolding commit update_card assert_unique_position record_event make_event append_event
commit-Committed deps actor updated body r w w' h = (
  ground arith,
  record {
    cards_are = ground arith;
    events_are = ground arith;
    lanes_are = ground arith;
    some_event = ground arith;
    all_about = ground arith;
    was_free = ground arith;
    no_hint = ground arith;
  },
)
