-- ===== src/Examples/Drops.antt =====
-- packages/web/src/board/move-options.ts over a lane of three cards.
use ai_kanban.Prelude.{
  none, distinct-AllDistinct, arith, ℕ, filter, ◌!=◌, ◌≢◌, ◌≡◌, ◌↔◌, ◌++◌, ◌∷◌, [], List, head?,
  get_last?, refl, some, true, false, nat_eq, string_eq, ◌==◌,
}
use ai_kanban.Domain.Vocabulary.{done_key}
use ai_kanban.Domain.Errors.{ok}
use ai_kanban.Policy.Engine.{PolicyAction, evaluate_policy, decide}
use ai_kanban.Services.Card.{move_action}
use ai_kanban.Web.MoveOptions.{
  can_move_to_lane, LaneCards, DropTarget, MoveIntent, Edge, lane_of, move_intent_from_drop,
  drop_index, is_same_position,
}
use ai_kanban.Dragging.{user_of, can_move_to_lane_iff}
use ai_kanban.Drops.Ignored.{move_intent_from_drop-ignored}
use ai_kanban.Drops.{IsAimed, move_intent_from_drop-IsAimed}
use ai_kanban.Examples.Data.{policy, ready, done}

abbrev lanes : List LaneCards
lanes = record { key = "ready"; label = "Ready"; card_ids = 1 ∷ 2 ∷ 3 ∷ [] } ∷ []

abbrev onto : DropTarget
onto = record { lane_key = "ready"; over_card_id = some 3; edge = some Edge.top }

abbrev intent : MoveIntent
intent = record { to_lane = "ready"; prev_card_id = some 2; next_card_id = some 3 }

drops : move_intent_from_drop lanes 1 onto ≡ some intent
unfolding move_intent_from_drop drop_index is_same_position
drops = refl

move_intent_from_drop-IsAimed_example :
    (lane : LaneCards) × (lane_of lanes "ready" ≡ some lane)
    × (intent.to_lane ≡ "ready")
    × ((xs ys : List ℕ) × (filter (λ id. id != 1) lane.card_ids ≡ xs ++ ys)
        × IsAimed onto xs ys
        × (intent.prev_card_id ≡ get_last? xs)
        × (intent.next_card_id ≡ head? ys)
        × (lane.card_ids ≢ xs ++ 1 ∷ ys))
move_intent_from_drop-IsAimed_example = move_intent_from_drop-IsAimed lanes 1 onto intent drops

can_move_to_lane_iff_example : (can_move_to_lane policy "member" done.key ready.key ≡ true) ↔ (
    (decide (evaluate_policy (user_of 7 "member") (move_action done ready) policy) ≡ ok tt)
    × ((ready.id == done.id) ≡ false
        → (done.key == done_key) ≡ true
        → decide (evaluate_policy (user_of 7 "member") PolicyAction.card_reopen policy) ≡ ok tt))
can_move_to_lane_iff_example = can_move_to_lane_iff 7 "member" policy done ready refl

-- Before the second card, where the first one stands.
abbrev back : DropTarget
back = record { lane_key = "ready"; over_card_id = some 2; edge = some Edge.top }

ignores : move_intent_from_drop lanes 1 back ≡ none
unfolding move_intent_from_drop drop_index is_same_position
ignores = refl

move_intent_from_drop-ignored_example :
    (xs ys : List ℕ) × (1 ∷ 2 ∷ 3 ∷ [] ≡ xs ++ 1 ∷ ys) × IsAimed back xs ys
move_intent_from_drop-ignored_example =
    move_intent_from_drop-ignored lanes
      (record { key = "ready"; label = "Ready"; card_ids = 1 ∷ 2 ∷ 3 ∷ [] }) 1 back refl
      (distinct-AllDistinct (1 ∷ 2 ∷ 3 ∷ []) refl) (λ e. ground arith) ignores
