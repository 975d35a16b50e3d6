-- ===== src/Examples/Places.antt =====
-- packages/core/src/services/card-service.ts at the example board: a move to a place that stays taken.
use ai_kanban.Prelude.{◌≡◌, ◌≢◌, none, some, [], ◌∷◌, refl, sort_by, insert_by, key_beq}
use ai_kanban.Domain.Errors.{err, conflict, DomainError, duplicate_position}
use ai_kanban.Domain.Vocabulary.{
  ready_key, ActorKind-discrete, TokenScope-discrete, Permission-discrete,
}
use ai_kanban.Db.State.{World, Deps}
use ai_kanban.Lifecycle.Commands.{CardCommand, execute}
use ai_kanban.Lifecycle.Places.{Failure, execute-Failure}
use ai_kanban.Examples.Data.{deps, member, card, world}
use ai_kanban.Services.Card
use ai_kanban.Db.Tx.{run, read}
use ai_kanban.Db.Cards.{find_card, update_card, assert_unique_position, position_taken}
use ai_kanban.Db.Rows.{
  list_lanes, find_board, find_lane_by_key, get_default_board, get_active_policy,
}
use ai_kanban.Policy.Engine.{
  evaluate_policy, evaluate_action, grant, has_permission, check_transition,
}
use ai_kanban.Services.Access.{
  lane_of_card, lane_by_key, accessible_card, require_board_access, can_access_board,
  has_membership, global_policy, active_policy,
}
use ai_kanban.Services.Internal.{run_with_position_retry, retry, persisted_conflict}

-- The key generator gives the place of the second card.
abbrev stuck_deps : Deps
stuck_deps = record deps { generate_key_between = λ a b. some (2 ∷ []) }

abbrev placing : CardCommand
placing = CardCommand.move (record {
  to_lane = ready_key;
  prev_card_id = some 2;
  next_card_id = none;
  expected_version = 1;
  waiting_reason = none;
  expected_resume_at = none;
})

abbrev clash : DomainError
clash = conflict "position conflict persisted after retry" (some (card 1 (1 ∷ [])))

abbrev after : World
after = (execute stuck_deps member 1 placing world).1

clashes : execute stuck_deps member 1 placing world ≡ (err clash, after)
unfolding Card.move Card.move_tx Card.write_move Card.placed_card Card.place Card.status_changed
    Card.reordered Card.change_lane Card.read_neighbor run_with_position_retry retry
    persisted_conflict read run accessible_card require_board_access can_access_board has_membership
    global_policy active_policy lane_of_card lane_by_key find_lane_by_key find_card find_board
    get_default_board get_active_policy evaluate_policy evaluate_action grant check_transition
    has_permission update_card assert_unique_position position_taken ActorKind-discrete
    TokenScope-discrete Permission-discrete sort_by insert_by key_beq list_lanes
clashes = refl

execute-Failure_example :
    (clash ≢ duplicate_position)
    × (after.db ≡ world.db)
    × Failure member 1 placing stuck_deps world clash
execute-Failure_example = execute-Failure stuck_deps member 1 placing world after clash tt clashes
