-- ===== src/Examples/Policies.antt =====
-- packages/core/src/policy/policy-engine.ts and services/internal.ts at the example board.
use ai_kanban.Prelude.{
  ◌≡◌, ◌↔◌, ◌≢◌, refl, none, some, [], ◌∷◌, distinct-AllDistinct, map, true, string_eq, key_beq,
}
use ai_kanban.Domain.Vocabulary.{
  Permission, ActorKind, TokenScope, ready_key, done_key, ActorKind-discrete, TokenScope-discrete,
  Permission-discrete,
}
use ai_kanban.Domain.Policy.{PolicyDocument, RoleDefinition}
use ai_kanban.Domain.Errors.{err, conflict}
use ai_kanban.Db.Tx.{Tx, run}
use ai_kanban.Db.Cards.{insert_card, assert_unique_position, position_taken}
use ai_kanban.Policy.Engine.{
  PolicyAction, PolicyDecision, evaluate_policy, evaluate_action, grant, ensure_permission, decide,
  check_transition, find_transition,
}
use ai_kanban.Policy.Permitted.{Permitted, HasGrant, grant_iff, evaluate_policy_iff}
use ai_kanban.Policy.Guards.{HasEdge, ensure-evaluate, evaluate_policy-illegal_iff}
use ai_kanban.Services.Internal.{run_with_position_retry, retry, persisted_conflict}
use ai_kanban.Transactions.{run_with_position_retry-atomic}
use ai_kanban.Examples.Data.{policy, member, card, world}

-- The example policy grants a member the blocking of cards exactly if the role lists it.
grant_iff_example :
    (grant member Permission.card_block policy ≡ PolicyDecision.allow)
    ↔ HasGrant member Permission.card_block policy
grant_iff_example =
    grant_iff member Permission.card_block policy
      (distinct-AllDistinct (map (λ (r : RoleDefinition). r.key) policy.roles) refl)

-- A member may block a card exactly if the example policy permits it.
evaluate_policy_iff_example :
    (evaluate_policy member PolicyAction.card_block policy ≡ PolicyDecision.allow)
    ↔ Permitted member PolicyAction.card_block policy
evaluate_policy_iff_example =
    evaluate_policy_iff member PolicyAction.card_block policy
      (distinct-AllDistinct (map (λ (r : RoleDefinition). r.key) policy.roles) refl)

-- The guard for blocking agrees with the engine.
ensure-evaluate_example :
    ensure_permission member Permission.card_block policy
    ≡ decide (evaluate_policy member PolicyAction.card_block policy)
ensure-evaluate_example =
    ensure-evaluate member PolicyAction.card_block Permission.card_block policy refl refl tt

abbrev strict : PolicyDocument
strict = record policy { transition_enforcement = true }

refused :
    evaluate_policy member (PolicyAction.card_move ready_key done_key) strict
    ≡ PolicyDecision.illegal ready_key done_key
unfolding evaluate_policy evaluate_action grant check_transition find_transition ActorKind-discrete
    TokenScope-discrete Permission-discrete
refused = refl

-- Enforcement without an edge refuses the move of a member.
evaluate_policy-illegal_iff_example :
    (evaluate_policy member (PolicyAction.card_move ready_key done_key) strict
      ≡ PolicyDecision.illegal ready_key done_key)
    ↔ ((PolicyAction.card_move ready_key done_key ≡ PolicyAction.card_move ready_key done_key)
        × (member.kind ≢ ActorKind.system)
        × (member.scope ≢ some TokenScope.read)
        × HasGrant member Permission.card_move strict
        × (strict.transition_enforcement ≡ true)
        × (¬ HasEdge ready_key done_key strict))
evaluate_policy-illegal_iff_example =
    evaluate_policy-illegal_iff member (PolicyAction.card_move ready_key done_key) strict ready_key
      done_key (distinct-AllDistinct (map (λ (r : RoleDefinition). r.key) strict.roles) refl)

-- The insertion of a third card at the place of the first.
abbrev clash : Tx (Unit {0})
clash = insert_card (card 3 (1 ∷ []))

clash_ends :
    run_with_position_retry clash none world
    ≡ (err (conflict "position conflict persisted after retry" none), world)
unfolding run_with_position_retry retry persisted_conflict run insert_card assert_unique_position
    position_taken key_beq
clash_ends = refl

-- The clash leaves the tables as they were.
run_with_position_retry-atomic_example : world.db ≡ world.db
run_with_position_retry-atomic_example =
    run_with_position_retry-atomic clash none world world
      (conflict "position conflict persisted after retry" none) clash_ends
