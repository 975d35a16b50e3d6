-- ===== src/Policy/Permitted.antt =====
-- packages/core/src/policy/policy-engine.ts: what it means to be permitted, said without running the
-- engine, and the engine against it.
use ai_kanban.Prelude.{
  some-cancel, ◌&&◌, if◌then◌else◌, Bool, true, false, Option, none, some, map, find, ◌≡◌, ◌≢◌,
  refl, sym, ap, subst, ◌↔◌, ◌⊎◌, inl, inr, arith, In, AllDistinct, includes_iff, In-of_find,
  find_passes, find_by_key, find-none, Bool-cases, Option-cases, string_eq, ◌==◌, nat_eq, option_eq,
  String,
}
use ai_kanban.Domain.Vocabulary.{
  Uuid, LaneKey, ActorKind, TokenScope, Permission, permission_eq, actor_kind_eq, token_scope_eq,
}
use ai_kanban.Domain.Entities.{Actor}
use ai_kanban.Domain.Policy.{RoleDefinition, PolicyTransition, PolicyDocument}
use ai_kanban.Policy.Engine.{
  PolicyAction, PolicyDecision, grant, evaluate_action, evaluate_policy, check_transition, role_of,
  is_system, is_read_scope, comment_author_rule, card_owner_rule, read_scope_rule,
}

-- The actor's role, by its key, lists the permission.
abbrev pub HasGrant : Actor → Permission → PolicyDocument → Type 0
HasGrant actor perm policy =
    (role : RoleDefinition) × In role policy.roles
    × (role.key ≡ actor.role)
    × In perm role.permissions

-- The user to whom an action on a resource belongs.
abbrev pub owner_of : PolicyAction → Option Uuid
owner_of (PolicyAction.comment_edit author_id) = some author_id
owner_of (PolicyAction.comment_delete author_id) = some author_id
owner_of (PolicyAction.attachment_remove uploader_id) = some uploader_id
owner_of (PolicyAction.card_delete reporter_id) = some reporter_id
owner_of _ = none

-- The permission that allows an action to those who do not own the resource.
abbrev pub permission_of : PolicyAction → Option Permission
permission_of (PolicyAction.comment_edit _) = none
permission_of (PolicyAction.comment_delete _) = some Permission.comment_delete_others
permission_of (PolicyAction.attachment_remove _) = some Permission.attachment_delete_others
permission_of (PolicyAction.card_delete _) = none
permission_of PolicyAction.card_create = some Permission.card_create
permission_of PolicyAction.card_update = some Permission.card_update
permission_of (PolicyAction.card_move _ _) = some Permission.card_move
permission_of (PolicyAction.card_reorder _) = some Permission.card_move
permission_of PolicyAction.card_cancel = some Permission.card_cancel
permission_of PolicyAction.card_reopen = some Permission.card_reopen
permission_of PolicyAction.card_archive = some Permission.card_archive
permission_of PolicyAction.card_block = some Permission.card_block
permission_of PolicyAction.card_unblock = some Permission.card_unblock
permission_of PolicyAction.comment_add = some Permission.comment_add
permission_of PolicyAction.attachment_add = some Permission.attachment_add
permission_of PolicyAction.manage_users = some Permission.manage_users
permission_of PolicyAction.manage_roles = some Permission.manage_roles
permission_of PolicyAction.manage_locations = some Permission.manage_locations
permission_of PolicyAction.manage_lanes = some Permission.manage_lanes
permission_of PolicyAction.manage_policy = some Permission.manage_policy
permission_of PolicyAction.manage_tokens = some Permission.manage_tokens

-- While enforcement is on, a move follows an edge of the workflow graph.
abbrev pub OnGraph : PolicyAction → PolicyDocument → Type 0
OnGraph (PolicyAction.card_move from to) policy =
    (policy.transition_enforcement ≡ false)
    ⊎ ((edge : PolicyTransition) × In edge policy.transitions × (edge.from ≡ from) × (edge.to ≡ to))
OnGraph _ policy = Unit

abbrev pub Permitted : Actor → PolicyAction → PolicyDocument → Type 0
Permitted actor action policy =
    (actor.kind ≡ ActorKind.system)
    ⊎ ((¬ (actor.scope ≡ some TokenScope.read))
        × ((owner_of action ≡ some actor.id)
            ⊎ ((perm : Permission) × (permission_of action ≡ some perm)
                × HasGrant actor perm policy
                × OnGraph action policy)))

-- With distinct role keys, the lookup allows exactly where the role with the actor's key lists the
-- permission.
pub grant_iff :
    (actor : Actor) (perm : Permission) (policy : PolicyDocument)
    → AllDistinct (map (λ (r : RoleDefinition). r.key) policy.roles)
    → (grant actor perm policy ≡ PolicyDecision.allow) ↔ HasGrant actor perm policy
unfolding grant
grant_iff actor perm policy d = (found, granted)
  where
    found : grant actor perm policy ≡ PolicyDecision.allow → HasGrant actor perm policy
    found h = elim (Option-cases (role_of actor policy)) [
      | inl e ↦ ground arith
      | inr (role, e) ↦ (
        role,
        In-of_find _ policy.roles role e,
        (string_eq.equal_iff role.key actor.role).0 (find_passes _ policy.roles role e),
        (includes_iff role.permissions perm).0 (ground arith),
      )
    ]

    granted : HasGrant actor perm policy → grant actor perm policy ≡ PolicyDecision.allow
    granted (role, i, k, p) = ground (
      arith,
      find_by_key (λ (r : RoleDefinition). r.key) actor.role policy.roles role d i k,
      (includes_iff role.permissions perm).1 p,
    )

-- `find` on the edges finds one exactly where the graph has one.
edge_iff :
    (policy : PolicyDocument) (from to : LaneKey)
    → (check_transition policy from to ≡ PolicyDecision.allow)
      ↔ OnGraph (PolicyAction.card_move from to) policy
unfolding check_transition
edge_iff policy from to = (followed, allowed_edge)
  where
    test : PolicyTransition → Bool
    test edge = edge.from == from && edge.to == to

    followed :
        check_transition policy from to ≡ PolicyDecision.allow
        → OnGraph (PolicyAction.card_move from to) policy
    followed h = elim (Bool-cases policy.transition_enforcement) [
      | inr off ↦ inl off
      | inl on ↦ elim (Option-cases (find test policy.transitions)) [
        | inl e ↦ absurd (ground arith)
        | inr (edge, e) ↦
            let passes : test edge ≡ true = find_passes test policy.transitions edge e in
            inr (
              edge,
              In-of_find test policy.transitions edge e,
              (string_eq.equal_iff edge.from from).0 (ground arith),
              (string_eq.equal_iff edge.to to).0 (ground arith),
            )
      ]
    ]

    allowed_edge :
        OnGraph (PolicyAction.card_move from to) policy
        → check_transition policy from to ≡ PolicyDecision.allow
    allowed_edge (inl off) = ground arith
    allowed_edge (inr (edge, i, f, t)) = ground (
      arith,
      λ (h : find test policy.transitions ≡ none). find-none test policy.transitions edge h i,
      (string_eq.equal_iff edge.from from).1 f,
      (string_eq.equal_iff edge.to to).1 t,
    )

module _ (actor : Actor) (policy : PolicyDocument)
    (d : AllDistinct (map (λ (r : RoleDefinition). r.key) policy.roles)) where
  -- Past the rules for every action: the owner, or the permission and the graph.
  abbrev Justified : PolicyAction → Type 0
  Justified action =
      (owner_of action ≡ some actor.id)
      ⊎ ((perm : Permission) × (permission_of action ≡ some perm)
          × HasGrant actor perm policy
          × OnGraph action policy)

  by_grant :
      (perm : Permission)
      → (grant actor perm policy ≡ PolicyDecision.allow) ↔ (
          (none ≡ some actor.id)
          ⊎ ((p : Permission) × (some perm ≡ some p) × HasGrant actor p policy × Unit {0}))
  by_grant perm = (
    λ h. inr (perm, refl, (grant_iff actor perm policy d).0 h, tt),
    λ h. elim h [
      | inl e ↦ cc
      | inr (p, e, g, _) ↦
          subst (λ q. grant actor q policy ≡ PolicyDecision.allow) (sym (some-cancel e))
            ((grant_iff actor p policy d).1 g)
    ],
  )

  by_owner :
      (x : Uuid) (rule : String)
      → ((if actor.id == x then PolicyDecision.allow else PolicyDecision.denied rule)
          ≡ PolicyDecision.allow)
        ↔ ((some x ≡ some actor.id)
            ⊎ ((p : Permission) × (none ≡ some p) × HasGrant actor p policy × Unit {0}))
  by_owner x rule = (
    λ h. inl (ap some (sym ((nat_eq.equal_iff actor.id x).0 (ground arith)))),
    λ h. elim h [
      | inl e ↦ rw ((nat_eq.equal_iff actor.id x).1 (sym (some-cancel e)))
      | inr (p, e, _, _) ↦ cc
    ],
  )

  by_owner_or_grant :
      (x : Uuid) (perm : Permission)
      → ((if actor.id == x then PolicyDecision.allow else grant actor perm policy)
          ≡ PolicyDecision.allow)
        ↔ ((some x ≡ some actor.id)
            ⊎ ((p : Permission) × (some perm ≡ some p) × HasGrant actor p policy × Unit {0}))
  by_owner_or_grant x perm = elim (Bool-cases (actor.id == x)) [
    | inl t ↦ rw t (λ _. inl (ap some (sym ((nat_eq.equal_iff actor.id x).0 t))), λ _. refl)
    | inr f ↦ rw f (
      λ h. inr (perm, refl, (grant_iff actor perm policy d).0 h, tt),
      λ h. elim h [
        | inl e ↦ cc (f, (nat_eq.equal_iff actor.id x).1 (sym (some-cancel e)))
        | inr r ↦ (by_grant perm).1 (inr r)
      ],
    )
  ]

  by_move :
      (from to : LaneKey)
      → (evaluate_action actor (PolicyAction.card_move from to) policy ≡ PolicyDecision.allow)
        ↔ Justified (PolicyAction.card_move from to)
  unfolding evaluate_action
  by_move from to = (
    λ h. inr (
      Permission.card_move,
      refl,
      (grant_iff actor Permission.card_move policy d).0 (ground arith),
      (edge_iff policy from to).0 (ground arith),
    ),
    λ h. elim h [
      | inl e ↦ cc
      | inr (p, e, g, o) ↦ ground (
        arith,
        (by_grant Permission.card_move).1 (inr (p, e, g, tt)),
        (edge_iff policy from to).1 o,
      )
    ],
  )

  evaluate_action_iff :
      (action : PolicyAction)
      → (evaluate_action actor action policy ≡ PolicyDecision.allow) ↔ Justified action
  unfolding evaluate_action
  evaluate_action_iff (PolicyAction.comment_edit x) = by_owner x comment_author_rule
  evaluate_action_iff (PolicyAction.card_delete x) = by_owner x card_owner_rule
  evaluate_action_iff (PolicyAction.comment_delete x) =
      by_owner_or_grant x Permission.comment_delete_others
  evaluate_action_iff (PolicyAction.attachment_remove x) =
      by_owner_or_grant x Permission.attachment_delete_others
  evaluate_action_iff (PolicyAction.card_move from to) = by_move from to
  evaluate_action_iff (PolicyAction.card_reorder lane) = by_grant Permission.card_move
  evaluate_action_iff PolicyAction.card_create = by_grant Permission.card_create
  evaluate_action_iff PolicyAction.card_update = by_grant Permission.card_update
  evaluate_action_iff PolicyAction.card_cancel = by_grant Permission.card_cancel
  evaluate_action_iff PolicyAction.card_reopen = by_grant Permission.card_reopen
  evaluate_action_iff PolicyAction.card_archive = by_grant Permission.card_archive
  evaluate_action_iff PolicyAction.card_block = by_grant Permission.card_block
  evaluate_action_iff PolicyAction.card_unblock = by_grant Permission.card_unblock
  evaluate_action_iff PolicyAction.comment_add = by_grant Permission.comment_add
  evaluate_action_iff PolicyAction.attachment_add = by_grant Permission.attachment_add
  evaluate_action_iff PolicyAction.manage_users = by_grant Permission.manage_users
  evaluate_action_iff PolicyAction.manage_roles = by_grant Permission.manage_roles
  evaluate_action_iff PolicyAction.manage_locations = by_grant Permission.manage_locations
  evaluate_action_iff PolicyAction.manage_lanes = by_grant Permission.manage_lanes
  evaluate_action_iff PolicyAction.manage_policy = by_grant Permission.manage_policy
  evaluate_action_iff PolicyAction.manage_tokens = by_grant Permission.manage_tokens

-- The rules that come before every action: system actors pass, and read scope does not.
pub evaluate-system :
    (actor : Actor) (action : PolicyAction) (policy : PolicyDocument)
    → actor.kind ≡ ActorKind.system
    → evaluate_policy actor action policy ≡ PolicyDecision.allow
unfolding evaluate_policy
evaluate-system actor action policy s =
    rw ((actor_kind_eq.equal_iff actor.kind ActorKind.system).1 s)

pub evaluate-read :
    (actor : Actor) (action : PolicyAction) (policy : PolicyDocument)
    → actor.kind ≢ ActorKind.system
    → actor.scope ≡ some TokenScope.read
    → evaluate_policy actor action policy ≡ PolicyDecision.denied read_scope_rule
unfolding evaluate_policy
evaluate-read actor action policy n r = elim (Bool-cases (is_system actor)) [
  | inl s ↦ absurd (n ((actor_kind_eq.equal_iff actor.kind ActorKind.system).0 s))
  | inr f ↦ rw (f, (option_eq.equal_iff actor.scope (some TokenScope.read)).1 r)
]

evaluate-else :
    (actor : Actor) (action : PolicyAction) (policy : PolicyDocument)
    → is_system actor ≡ false
    → is_read_scope actor ≡ false
    → evaluate_policy actor action policy ≡ evaluate_action actor action policy
unfolding evaluate_policy
evaluate-else actor action policy n w = rw (n, w)

-- With distinct role keys, the engine allows an action exactly where it is permitted.
pub evaluate_policy_iff :
    (actor : Actor) (action : PolicyAction) (policy : PolicyDocument)
    → AllDistinct (map (λ (r : RoleDefinition). r.key) policy.roles)
    → (evaluate_policy actor action policy ≡ PolicyDecision.allow) ↔ Permitted actor action policy
evaluate_policy_iff actor action policy d = elim (Bool-cases (is_system actor)) [
  | inl s ↦
      let k : actor.kind ≡ ActorKind.system =
        (actor_kind_eq.equal_iff actor.kind ActorKind.system).0 s in
      (λ _. inl k, λ _. evaluate-system actor action policy k)
  | inr n ↦
      let other : actor.kind ≢ ActorKind.system =
        λ k. cc (n, (actor_kind_eq.equal_iff actor.kind ActorKind.system).1 k) in
      elim (Bool-cases (is_read_scope actor)) [
        | inl r ↦
            let scoped : actor.scope ≡ some TokenScope.read =
              (option_eq.equal_iff actor.scope (some TokenScope.read)).0 r in
            (
              λ h. cc (h, evaluate-read actor action policy other scoped),
              λ p. elim p [ inl k ↦ absurd (other k) | inr (writes, _) ↦ absurd (writes scoped) ],
            )
        | inr w ↦ rw (evaluate-else actor action policy n w) (
          λ h. inr (
            λ (scoped : actor.scope ≡ some TokenScope.read).
                cc (w, (option_eq.equal_iff actor.scope (some TokenScope.read)).1 scoped),
            (evaluate_action_iff actor policy d action).0 h,
          ),
          λ p. elim p [
            | inl k ↦ absurd (other k)
            | inr (_, j) ↦ (evaluate_action_iff actor policy d action).1 j
          ],
        )
      ]
]
