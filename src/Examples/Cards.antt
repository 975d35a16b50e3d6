-- ===== src/Examples/Cards.antt =====
-- packages/core/src/services/card-service.ts at the example board.
use ai_kanban.Prelude.{
  ℕ, List, ◌≡◌, ◌≢◌, arith, refl, inl, none, some, [], ◌∷◌, distinct-AllDistinct, true, map, nat_eq,
  insert_by, sort_by, key_beq,
}
use ai_kanban.Domain.Errors.{Result, ok}
use ai_kanban.Domain.Entities.{Card, Lane}
use ai_kanban.Domain.Events.{CardEvent, CardEventBody, CardEventType, SseHint}
use ai_kanban.Domain.Vocabulary.{
  Uuid, ActorKind, ActorKind-discrete, TokenScope-discrete, Permission-discrete,
}
use ai_kanban.Db.State.{World}
use ai_kanban.Db.Tx.{run}
use ai_kanban.Db.Cards.{hard_delete, find_card, update_card, assert_unique_position, position_taken}
use ai_kanban.Db.Rows.{list_lanes, find_board, get_default_board, get_active_policy, append_event}
use ai_kanban.Policy.Engine.{evaluate_policy, evaluate_action, grant, has_permission}
use ai_kanban.Services.Access.{
  lane_of_card, first_lane, accessible_card, require_board_access, can_access_board, has_membership,
  global_policy, active_policy,
}
use ai_kanban.Services.Internal.{record_event, make_event, publish_card_hints}
use ai_kanban.Services.Card
use ai_kanban.Lifecycle.Valid.{Valid, HasLane}
use ai_kanban.Lifecycle.Commands.{CardCommand, execute}
use ai_kanban.Lifecycle.Reachable.{Reaches, Reaches-Valid}
use ai_kanban.Lifecycle.Deletions.{IsForgotten, delete_tx-IsForgotten}
use ai_kanban.Lifecycle.Conflicts.{execute-no_lost_update, execute-Effect, Effect}
use ai_kanban.Examples.Data.{deps, member, ready, card, db, world}

abbrev blocking : CardCommand
blocking = CardCommand.block 1 "no oil left"

abbrev blocked_card : Card
blocked_card = record (card 1 (1 ∷ [])) {
  blocked = true;
  blocked_reason = some "no oil left";
  blocked_at = some 1000;
  version = 2;
  updated_at = 1000;
}

abbrev logged : CardEvent
logged = record {
  id = 500;
  card_id = 1;
  actor_id = some 7;
  actor_kind = ActorKind.user;
  actor_label = none;
  created_at = 1001;
  body = CardEventBody.card_blocked (some "no oil left");
}

abbrev blocked_world : World
blocked_world = record world {
  db = record db { cards = blocked_card ∷ card 2 (2 ∷ []) ∷ []; events = logged ∷ [] };
  clock_calls = 2;
  id_calls = 1;
  hints =
      SseHint.card
        (record { type = CardEventType.card_blocked; card_id = 1; version = 2; event_id = 500 })
      ∷ [];
}

-- A first command changes the card, and its log.
blocks_card : execute deps member 1 blocking world ≡ (ok blocked_card, blocked_world)
unfolding Card.block Card.set_blocked_flag Card.set_blocked_flag_tx Card.flagged_card Card.commit
    run accessible_card require_board_access can_access_board has_membership global_policy
    active_policy find_card find_board get_default_board get_active_policy evaluate_policy
    evaluate_action grant has_permission update_card assert_unique_position position_taken
    record_event make_event append_event publish_card_hints ActorKind-discrete TokenScope-discrete
    Permission-discrete sort_by insert_by key_beq
blocks_card = refl

-- A second command by a caller that read the same version is refused.
execute-no_lost_update_example :
    execute deps member 1 (CardCommand.unblock 1) blocked_world ≢ (ok (card 1 (1 ∷ [])), world)
execute-no_lost_update_example =
    execute-no_lost_update deps member member 1 blocking (CardCommand.unblock 1) world blocked_world
      world blocked_card (card 1 (1 ∷ [])) refl blocks_card (λ e. cc)

-- The block of the first card takes it from version 1 to version 2.
execute-Effect_example : Effect member 1 blocking blocked_card db blocked_world.db
execute-Effect_example =
    execute-Effect deps member 1 blocking world blocked_world blocked_card blocks_card

HasLane-ready : (id : ℕ) (p : _) → HasLane db.lanes (card id p)
HasLane-ready id p = record {
  lane = ready;
  is_in = inl refl;
  id_is = refl;
  board_is = refl;
  fields = (λ e. cc, λ e. cc, λ e. cc, λ e. cc, (refl, refl, omega arith));
}

db-Valid : Valid db
unfolding key_beq
db-Valid = record {
  lane_ids = distinct-AllDistinct (map (λ (l : Lane). l.id) db.lanes) refl;
  apart = (((refl, refl), tt), (tt, tt));
  lanes = (HasLane-ready 1 (1 ∷ []), (HasLane-ready 2 (2 ∷ []), tt));
}

-- Two commands in a row keep the example board valid.
Reaches-Valid_example : Valid (
    (execute deps member 1 (CardCommand.unblock 2) ((execute deps member 1 blocking world).1)).1.db)
Reaches-Valid_example =
    Reaches-Valid deps world
      ((execute deps member 1 (CardCommand.unblock 2) ((execute deps member 1 blocking world).1)).1)
      db-Valid
      (Reaches.then_executes world ((execute deps member 1 blocking world).1)
        (Reaches.then_executes world world (Reaches.here world) member 1 blocking) member 1
        (CardCommand.unblock 2))

abbrev no_keys : List Uuid
no_keys = []

abbrev deletion : Result (List Uuid) × World
deletion = (ok [], record world { db = record db { cards = card 2 (2 ∷ []) ∷ [] } })

deletes_card : Card.delete_tx deps member 1 1 world ≡ deletion
unfolding Card.delete_tx accessible_card require_board_access can_access_board has_membership
    global_policy active_policy find_card find_board get_default_board get_active_policy
    evaluate_policy evaluate_action grant has_permission ActorKind-discrete TokenScope-discrete
    Permission-discrete sort_by insert_by hard_delete lane_of_card first_lane list_lanes
deletes_card = refl

-- The reporter deletes the first card, and no row of the example board refers to it afterwards.
delete_tx-IsForgotten_example : IsForgotten 1 deletion.1.db × (no_keys ≡ [])
delete_tx-IsForgotten_example =
    delete_tx-IsForgotten deps member 1 1 no_keys world deletion.1 deletes_card
