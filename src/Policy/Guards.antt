-- ===== src/Policy/Guards.antt =====
-- packages/core/src/policy/policy-engine.ts: the throwing guard and the refusals of the engine.
use ai_kanban.Prelude.{
  or_else, In, AllDistinct, In-of_find, find_passes, find-none, map, string_eq, option_eq, ◌==◌,
  ◌&&◌, ◌↔◌, ◌≢◌, true, false, none, some, ◌≡◌, ◌⊎◌, inl, inr, arith, Bool-cases, Option-cases,
  String,
}
use ai_kanban.Domain.Vocabulary.{
  LaneKey, ActorKind, TokenScope, Permission, actor_kind_eq, token_scope_eq,
}
use ai_kanban.Domain.Entities.{Actor}
use ai_kanban.Domain.Policy.{grants, RoleDefinition, PolicyTransition, PolicyDocument}
use ai_kanban.Policy.Engine.{
  role_of, permission_rule, PolicyAction, PolicyDecision, grant, evaluate_action, evaluate_policy,
  check_transition, find_transition, ensure_permission, decide, is_system, is_read_scope,
}
use ai_kanban.Policy.Permitted.{permission_of, owner_of, HasGrant, grant_iff}

-- The decision on an action that only its permission gates.
abbrev IsGated : PolicyAction → PolicyDocument → Type 0
IsGated (PolicyAction.card_move from to) policy = policy.transition_enforcement ≡ false
IsGated _ policy = Unit

-- The workflow graph has an edge between the lanes.
abbrev pub HasEdge : LaneKey → LaneKey → PolicyDocument → Type 0
HasEdge from to policy =
    (edge : PolicyTransition) × In edge policy.transitions × (edge.from ≡ from) × (edge.to ≡ to)

-- A grant lookup never speaks of the graph.
grant_cases :
    (actor : Actor) (perm : Permission) (policy : PolicyDocument)
    → (grant actor perm policy ≡ PolicyDecision.allow)
      ⊎ ((rule : String) × (grant actor perm policy ≡ PolicyDecision.denied rule))
unfolding grant
grant_cases actor perm policy = elim (Option-cases (role_of actor policy)) [
  | inl e ↦ inr (permission_rule perm, ground arith)
  | inr (role, e) ↦ elim (Bool-cases (grants role perm)) [
    | inl t ↦ inl (ground arith)
    | inr f ↦ inr (permission_rule perm, ground arith)
  ]
]

evaluate_gated :
    (actor : Actor) (action : PolicyAction) (perm : Permission) (policy : PolicyDocument)
    → permission_of action ≡ some perm
    → owner_of action ≡ none
    → IsGated action policy
    → evaluate_action actor action policy ≡ grant actor perm policy
unfolding evaluate_action check_transition
evaluate_gated actor (PolicyAction.card_move from to) perm policy p o g =
    ground (arith, grant_cases actor Permission.card_move policy)
evaluate_gated actor action perm policy p o g = ground arith

-- For an action that its permission alone gates, the throwing guard throws exactly the error that
-- the engine's decision stands for.
pub ensure-evaluate :
    (actor : Actor) (action : PolicyAction) (perm : Permission) (policy : PolicyDocument)
    → permission_of action ≡ some perm
    → owner_of action ≡ none
    → IsGated action policy
    → ensure_permission actor perm policy ≡ decide (evaluate_policy actor action policy)
unfolding ensure_permission evaluate_policy
ensure-evaluate actor action perm policy p o g =
    ground (arith, evaluate_gated actor action perm policy p o g, grant_cases actor perm policy)

evaluate_action-illegal :
    (actor : Actor) (action : PolicyAction) (policy : PolicyDocument) (from to : LaneKey)
    → evaluate_action actor action policy ≡ PolicyDecision.illegal from to
    → (action ≡ PolicyAction.card_move from to)
      × (grant actor Permission.card_move policy ≡ PolicyDecision.allow)
      × (policy.transition_enforcement ≡ true)
      × (find_transition policy from to ≡ none)
unfolding evaluate_action check_transition
evaluate_action-illegal actor (PolicyAction.card_move f t) policy from to h =
    ground (arith, grant_cases actor Permission.card_move policy)
evaluate_action-illegal actor (PolicyAction.comment_delete x) policy from to h =
    absurd (ground (arith, grant_cases actor Permission.comment_delete_others policy))
evaluate_action-illegal actor (PolicyAction.attachment_remove x) policy from to h =
    absurd (ground (arith, grant_cases actor Permission.attachment_delete_others policy))
evaluate_action-illegal actor (PolicyAction.comment_edit x) policy from to h = absurd (ground arith)
evaluate_action-illegal actor (PolicyAction.card_delete x) policy from to h = absurd (ground arith)
evaluate_action-illegal actor action policy from to h =
    absurd (
      ground
        (arith, grant_cases actor (or_else (permission_of action) Permission.card_move) policy))

find_transition-none :
    (policy : PolicyDocument) (from to : LaneKey)
    → (find_transition policy from to ≡ none) ↔ (¬ HasEdge from to policy)
unfolding find_transition
find_transition-none policy from to =
    let joins = λ (edge : PolicyTransition). edge.from == from && edge.to == to in
    (
      λ h (edge, i, p, q).
          let missed = find-none joins policy.transitions edge h i in
          let s = (string_eq.equal_iff edge.from from).1 p in
          let t = (string_eq.equal_iff edge.to to).1 q in ground arith,
      λ n. elim (Option-cases (find_transition policy from to)) [
        | inl e ↦ e
        | inr (edge, e) ↦
            let met = find_passes joins policy.transitions edge e in
            absurd (
              n (
                edge,
                In-of_find joins policy.transitions edge e,
                (string_eq.equal_iff edge.from from).0 (ground arith),
                (string_eq.equal_iff edge.to to).0 (ground arith),
              ))
      ],
    )

-- With distinct role keys, the engine refuses an action as an illegal transition exactly where the
-- action is that cross-lane move, its actor is not the system, has no read scope and has a role that
-- lists moves, enforcement is on, and the graph has no edge between the lanes.
pub evaluate_policy-illegal_iff :
    (actor : Actor) (action : PolicyAction) (policy : PolicyDocument) (from to : LaneKey)
    → AllDistinct (map (λ (r : RoleDefinition). r.key) policy.roles)
    → (evaluate_policy actor action policy ≡ PolicyDecision.illegal from to) ↔ (
        (action ≡ PolicyAction.card_move from to)
        × (actor.kind ≢ ActorKind.system)
        × (actor.scope ≢ some TokenScope.read)
        × HasGrant actor Permission.card_move policy
        × (policy.transition_enforcement ≡ true)
        × (¬ HasEdge from to policy))
unfolding evaluate_policy evaluate_action check_transition
evaluate_policy-illegal_iff actor action policy from to distinct =
    let system = actor_kind_eq.equal_iff actor.kind ActorKind.system in
    let scoped = option_eq.equal_iff actor.scope (some TokenScope.read) in
    let granted = grant_iff actor Permission.card_move policy distinct in
    let edge = find_transition-none policy from to in
    (
      λ h.
          let (a, g, e, n) = evaluate_action-illegal actor action policy from to (ground arith) in
          (
            a,
            λ k. let t = system.1 k in ground arith,
            λ k. let t = scoped.1 k in ground arith,
            granted.0 g,
            e,
            edge.0 n,
          ),
      λ (a, k, s, g, e, n).
          let allowed = granted.1 g in
          let missing = edge.1 n in
          let not_system : is_system actor ≡ false = elim (Bool-cases (is_system actor)) [
            | inl t ↦ absurd (k (system.0 t))
            | inr f ↦ f
          ] in
          let not_read : is_read_scope actor ≡ false = elim (Bool-cases (is_read_scope actor)) [
            | inl t ↦ absurd (s (scoped.0 t))
            | inr f ↦ f
          ] in
          rw a (ground arith),
    )
