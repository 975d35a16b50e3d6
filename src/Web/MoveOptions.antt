-- ===== src/Web/MoveOptions.antt =====
-- packages/web/src/board/move-options.ts: which moves the board offers, and the neighbours of a drop.
use ai_kanban.Prelude.{
  ℕ, zero, suc, ◌+◌, Bool, true, false, not, ◌&&◌, Option, none, some, List, [], ◌∷◌, filter, find,
  String, nat_eq, string_eq, option_eq, ◌==◌, ◌!=◌, option_map, length, if◌then◌else◌,
}
use ai_kanban.Domain.Vocabulary.{LaneKey, Role, ActorKind, done_key}
use ai_kanban.Domain.Entities.{Actor}
use ai_kanban.Domain.Policy.{PolicyDocument}
use ai_kanban.Policy.Engine.{PolicyAction, evaluate_policy}
use ai_kanban.Policy.Engine

-- The actor that stands for a role; `SELF_ID` is 1.
abbrev pub self_of : Role → Actor
self_of role = record { kind = ActorKind.user; id = 1; role = role; scope = none; client = none }

unfoldable pub allowed : Role → PolicyAction → PolicyDocument → Bool
allowed role action policy = Engine.allowed (evaluate_policy (self_of role) action policy)

unfoldable pub can_move_to_lane : PolicyDocument → Role → LaneKey → LaneKey → Bool
unfolding allowed
can_move_to_lane policy role from to =
    if from == to
    then allowed role (PolicyAction.card_reorder from) policy
    else if from == done_key && not (allowed role PolicyAction.card_reopen policy)
    then false
    else allowed role (PolicyAction.card_move from to) policy

-- A lane of the board response: its key and label, and the ids of its cards in their order.
pub record LaneCards : Type 0 where
  pub key : LaneKey
  pub label : String
  pub card_ids : List ℕ

pub data Edge : Type 0 where
  top bottom : Edge

-- The lane of a drop, and the card under the pointer with its closest edge.
pub record DropTarget : Type 0 where
  pub lane_key : LaneKey
  pub over_card_id : Option ℕ
  pub edge : Option Edge

pub record MoveIntent : Type 0 where
  pub to_lane : LaneKey
  pub prev_card_id : Option ℕ
  pub next_card_id : Option ℕ

abbrev pub lane_of : List LaneCards → LaneKey → Option LaneCards
lane_of lanes key = find (λ snapshot. snapshot.key == key) lanes

abbrev pub others_of : LaneCards → ℕ → List ℕ
others_of lane card_id = filter (λ id. id != card_id) lane.card_ids

-- `items[index]`
abbrev pub get_elem? : List ℕ → ℕ → Option ℕ
get_elem? [] index = none
get_elem? (x ∷ xs) zero = some x
get_elem? (x ∷ xs) (suc index) = get_elem? xs index

-- `items[index - 1]`
abbrev pub before : List ℕ → ℕ → Option ℕ
before items zero = none
before items (suc index) = get_elem? items index

abbrev pub find_index : List ℕ → ℕ → Option ℕ
find_index [] id = none
find_index (x ∷ xs) id = if x == id then some 0 else option_map (λ i. i + 1) (find_index xs id)

abbrev pub is_top : Option Edge → Bool
is_top (some Edge.top) = true
is_top (some Edge.bottom) = false
is_top none = false

-- Where the card goes among the others; the end of the lane where no other card is under it.
unfoldable pub drop_index : List ℕ → DropTarget → ℕ
drop_index others target = elim (target.over_card_id) [
  | none ↦ length others
  | some over ↦ elim (find_index others over) [
    | none ↦ length others
    | some at ↦ if is_top target.edge then at else at + 1
  ]
]

abbrev pub intent_at : LaneKey → List ℕ → ℕ → MoveIntent
intent_at key others index = record {
  to_lane = key;
  prev_card_id = before others index;
  next_card_id = get_elem? others index;
}

unfoldable pub is_same_position : List LaneCards → ℕ → MoveIntent → Bool
is_same_position lanes card_id intent = elim (lane_of lanes intent.to_lane) [
  | none ↦ false
  | some lane ↦ elim (find_index lane.card_ids card_id) [
    | none ↦ false
    | some current ↦
        intent.prev_card_id == before lane.card_ids current
        && intent.next_card_id == get_elem? lane.card_ids (current + 1)
  ]
]

unfoldable pub move_intent_from_drop : List LaneCards → ℕ → DropTarget → Option MoveIntent
unfolding drop_index is_same_position
move_intent_from_drop lanes card_id target =
    if target.over_card_id == some card_id then none else elim (lane_of lanes target.lane_key) [
      | none ↦ none
      | some lane ↦
          let others = others_of lane card_id in
          let intent = intent_at target.lane_key others (drop_index others target) in
          if is_same_position lanes card_id intent then none else some intent
    ]

pub record PositionChoice : Type 0 where
  pub prev_card_id : Option ℕ
  pub next_card_id : Option ℕ

-- The top and the bottom of the lane.
unfoldable pub position_choices : LaneCards → ℕ → PositionChoice × PositionChoice
position_choices lane moving_card_id =
    let others = others_of lane moving_card_id in
    (
      record { prev_card_id = none; next_card_id = get_elem? others 0 },
      record { prev_card_id = before others (length others); next_card_id = none },
    )

abbrev position_after : Option ℕ → List ℕ → ℕ
position_after none others = 1
position_after (some prev) others = elim (find_index others prev) [ none ↦ 1 | some at ↦ at + 2 ]

-- The lane's label and the place, counted from one, where the card lands.
unfoldable pub drop_position : List LaneCards → ℕ → MoveIntent → Option (String × ℕ)
drop_position lanes card_id intent = elim (lane_of lanes intent.to_lane) [
  | none ↦ none
  | some lane ↦ some (lane.label, position_after intent.prev_card_id (others_of lane card_id))
]
