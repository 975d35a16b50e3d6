-- ===== src/Dragging.antt =====
-- packages/web/src/board/move-options.ts against the server: which moves are offered.
use ai_kanban.Prelude.{
  true, false, nat_eq, string_eq, option_eq, ◌==◌, ◌≡◌, ◌↔◌, inl, inr, refl, arith, ap, ◌∙◌,
  Bool-cases,
}
use ai_kanban.Domain.Vocabulary.{Uuid, LaneKey, Role, done_key}
use ai_kanban.Domain.Entities.{Actor, Lane}
use ai_kanban.Domain.Policy.{PolicyDocument}
use ai_kanban.Domain.Errors.{ok}
use ai_kanban.Policy.Engine.{PolicyAction, evaluate_policy, evaluate_action, grant, decide}
use ai_kanban.Services.Card.{move_action}
use ai_kanban.Web.MoveOptions.{
  self_of, can_move_to_lane, LaneCards, DropTarget, MoveIntent, lane_of, others_of, get_elem?,
  before, find_index, drop_index, intent_at, is_same_position, move_intent_from_drop, is_top, Edge,
}
use ai_kanban.Web.MoveOptions

-- The user with the id and role.
abbrev pub user_of : Uuid → Role → Actor
user_of id role = record (self_of role) { id = id }

-- The engine decides on the actions of a move by the role alone.
same_decision :
    (id : Uuid) (role : Role) (policy : PolicyDocument) (from to : LaneKey)
    → (evaluate_policy (user_of id role) (PolicyAction.card_move from to) policy
        ≡ evaluate_policy (self_of role) (PolicyAction.card_move from to) policy)
      × (evaluate_policy (user_of id role) (PolicyAction.card_reorder from) policy
          ≡ evaluate_policy (self_of role) (PolicyAction.card_reorder from) policy)
      × (evaluate_policy (user_of id role) PolicyAction.card_reopen policy
          ≡ evaluate_policy (self_of role) PolicyAction.card_reopen policy)
unfolding evaluate_policy evaluate_action grant
same_decision id role policy from to = (refl, refl, refl)

-- The board offers a move exactly where the server's guards let it through, for lanes that are the
-- same where their keys are.
pub can_move_to_lane_iff :
    (id : Uuid) (role : Role) (policy : PolicyDocument) (from to : Lane)
    → (to.id == from.id) ≡ (from.key == to.key)
    → (can_move_to_lane policy role from.key to.key ≡ true) ↔ (
        (decide (evaluate_policy (user_of id role) (move_action from to) policy) ≡ ok tt)
        × ((to.id == from.id) ≡ false
            → (from.key == done_key) ≡ true
            → decide (evaluate_policy (user_of id role) PolicyAction.card_reopen policy) ≡ ok tt))
unfolding can_move_to_lane MoveOptions.allowed
can_move_to_lane_iff id role policy from to same =
    let (moves, reorders, reopens) = same_decision id role policy from.key to.key in
    elim (Bool-cases (from.key == to.key)) [
      | inl t ↦
          let key : from.key ≡ to.key = (string_eq.equal_iff from.key to.key).0 t in
          let at =
            ap (λ k. evaluate_policy (user_of id role) (PolicyAction.card_reorder k) policy) key in
          (λ h. (ground arith, λ p q. ground arith), λ (p, q). ground arith)
      | inr f ↦ elim (Bool-cases (from.key == done_key)) [
        | inl done ↦ (
          λ h. (ground arith, λ p q. ground arith),
          λ (p, q). let r = q (same ∙ f) done in ground arith,
        )
        | inr other ↦ (λ h. (ground arith, λ p q. ground arith), λ (p, q). ground arith)
      ]
    ]
