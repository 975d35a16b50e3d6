-- ===== src/Policy/Engine.antt =====
-- packages/core/src/policy/policy-engine.ts, function by function.
use Prim.Native.String
use ai_kanban.Prelude.{
  Bool, true, false, Option, none, some, String, find, if◌then◌else◌, ◌==◌, ◌&&◌, string_eq, nat_eq,
  option_eq,
}
use ai_kanban.Domain.Vocabulary.{
  Uuid, LaneKey, ActorKind, TokenScope, Permission, actor_kind_eq, token_scope_eq,
}
use ai_kanban.Domain.Entities.{Actor}
use ai_kanban.Domain.Policy.{RoleDefinition, PolicyTransition, PolicyDocument, grants}
use ai_kanban.Domain.Errors.{Result, ok, err, policy_denied, illegal_transition}

pub data PolicyAction : Type 0 where
  card_create card_update : PolicyAction
  card_move : (from_lane : LaneKey) → (to_lane : LaneKey) → PolicyAction
  card_reorder : (lane : LaneKey) → PolicyAction
  card_cancel card_reopen card_archive : PolicyAction
  card_delete : (reporter_id : Uuid) → PolicyAction
  card_block card_unblock comment_add : PolicyAction
  comment_edit : (author_id : Uuid) → PolicyAction
  comment_delete : (author_id : Uuid) → PolicyAction
  attachment_add : PolicyAction
  attachment_remove : (uploader_id : Uuid) → PolicyAction
  manage_users manage_roles manage_locations manage_lanes manage_policy manage_tokens : PolicyAction

pub data PolicyDecision : Type 0 where
  allow : PolicyDecision
  denied : (rule : String) → PolicyDecision
  illegal : (from : LaneKey) → (to : LaneKey) → PolicyDecision

abbrev pub read_scope_rule : String
read_scope_rule = "token-scope-read"

abbrev pub comment_author_rule : String
comment_author_rule = "comment-author-only"

abbrev pub card_owner_rule : String
card_owner_rule = "card-owner-only"

-- The permission's own spelling, which the denial names.
abbrev pub permission_name : Permission → String
permission_name Permission.card_create = "card.create"
permission_name Permission.card_update = "card.update"
permission_name Permission.card_move = "card.move"
permission_name Permission.card_cancel = "card.cancel"
permission_name Permission.card_reopen = "card.reopen"
permission_name Permission.card_archive = "card.archive"
permission_name Permission.card_block = "card.block"
permission_name Permission.card_unblock = "card.unblock"
permission_name Permission.comment_add = "comment.add"
permission_name Permission.comment_delete_others = "comment.deleteOthers"
permission_name Permission.attachment_add = "attachment.add"
permission_name Permission.attachment_delete_others = "attachment.deleteOthers"
permission_name Permission.view_all_activity = "viewAllActivity"
permission_name Permission.manage_users = "manageUsers"
permission_name Permission.manage_roles = "manageRoles"
permission_name Permission.manage_locations = "manageLocations"
permission_name Permission.manage_lanes = "manageLanes"
permission_name Permission.manage_policy = "managePolicy"
permission_name Permission.manage_tokens = "manageTokens"

abbrev pub permission_rule : Permission → String
permission_rule perm = String.◌++◌ "permission:" (permission_name perm)

abbrev pub role_of : Actor → PolicyDocument → Option RoleDefinition
role_of actor policy = find (λ candidate. candidate.key == actor.role) policy.roles

-- The core grant lookup: an unknown role, or one that omits the permission, is denied.
unfoldable pub grant : Actor → Permission → PolicyDocument → PolicyDecision
grant actor perm policy = elim (role_of actor policy) [
  | none ↦ PolicyDecision.denied (permission_rule perm)
  | some role ↦
      if grants role perm
      then PolicyDecision.allow
      else PolicyDecision.denied (permission_rule perm)
]

abbrev pub allowed : PolicyDecision → Bool
allowed PolicyDecision.allow = true
allowed (PolicyDecision.denied _) = false
allowed (PolicyDecision.illegal _ _) = false

abbrev pub is_system : Actor → Bool
is_system actor = actor.kind == ActorKind.system

abbrev pub is_read_scope : Actor → Bool
is_read_scope actor = actor.scope == some TokenScope.read

-- The read gate: no denial of read-scope tokens.
unfoldable pub has_permission : Actor → Permission → PolicyDocument → Bool
unfolding grant
has_permission actor perm policy =
    if is_system actor then true else allowed (grant actor perm policy)

-- The throwing guard of the administration surfaces.
unfoldable pub ensure_permission : Actor → Permission → PolicyDocument → Result (Unit {0})
unfolding grant
ensure_permission actor perm policy =
    if is_system actor
    then ok tt
    else if is_read_scope actor
    then err (policy_denied read_scope_rule)
    else elim (grant actor perm policy) [
      | PolicyDecision.allow ↦ ok tt
      | PolicyDecision.denied rule ↦ err (policy_denied rule)
      | PolicyDecision.illegal _ _ ↦ ok tt
    ]

unfoldable pub find_transition : PolicyDocument → LaneKey → LaneKey → Option PolicyTransition
find_transition policy from to =
    find (λ edge. edge.from == from && edge.to == to) policy.transitions

unfoldable pub check_transition : PolicyDocument → LaneKey → LaneKey → PolicyDecision
unfolding find_transition
check_transition policy from to =
    if policy.transition_enforcement
    then elim (find_transition policy from to) [
      | none ↦ PolicyDecision.illegal from to
      | some _ ↦ PolicyDecision.allow
    ]
    else PolicyDecision.allow

-- The `switch` of `evaluatePolicy`, past the rules that hold for every action.
unfoldable pub evaluate_action : Actor → PolicyAction → PolicyDocument → PolicyDecision
unfolding grant check_transition
evaluate_action actor (PolicyAction.comment_edit author_id) policy =
    if actor.id == author_id
    then PolicyDecision.allow
    else PolicyDecision.denied comment_author_rule
evaluate_action actor (PolicyAction.comment_delete author_id) policy =
    if actor.id == author_id
    then PolicyDecision.allow
    else grant actor Permission.comment_delete_others policy
evaluate_action actor (PolicyAction.attachment_remove uploader_id) policy =
    if actor.id == uploader_id
    then PolicyDecision.allow
    else grant actor Permission.attachment_delete_others policy
evaluate_action actor (PolicyAction.card_delete reporter_id) policy =
    if actor.id == reporter_id then PolicyDecision.allow else PolicyDecision.denied card_owner_rule
evaluate_action actor PolicyAction.card_cancel policy = grant actor Permission.card_cancel policy
evaluate_action actor PolicyAction.card_reopen policy = grant actor Permission.card_reopen policy
evaluate_action actor PolicyAction.card_archive policy = grant actor Permission.card_archive policy
evaluate_action actor (PolicyAction.card_reorder lane) policy =
    grant actor Permission.card_move policy
evaluate_action actor (PolicyAction.card_move from_lane to_lane) policy =
    elim (grant actor Permission.card_move policy) [
      | PolicyDecision.allow ↦ check_transition policy from_lane to_lane
      | PolicyDecision.denied rule ↦ PolicyDecision.denied rule
      | PolicyDecision.illegal from to ↦ PolicyDecision.illegal from to
    ]
evaluate_action actor PolicyAction.card_create policy = grant actor Permission.card_create policy
evaluate_action actor PolicyAction.card_update policy = grant actor Permission.card_update policy
evaluate_action actor PolicyAction.card_block policy = grant actor Permission.card_block policy
evaluate_action actor PolicyAction.card_unblock policy = grant actor Permission.card_unblock policy
evaluate_action actor PolicyAction.comment_add policy = grant actor Permission.comment_add policy
evaluate_action actor PolicyAction.attachment_add policy =
    grant actor Permission.attachment_add policy
evaluate_action actor PolicyAction.manage_users policy = grant actor Permission.manage_users policy
evaluate_action actor PolicyAction.manage_roles policy = grant actor Permission.manage_roles policy
evaluate_action actor PolicyAction.manage_locations policy =
    grant actor Permission.manage_locations policy
evaluate_action actor PolicyAction.manage_lanes policy = grant actor Permission.manage_lanes policy
evaluate_action actor PolicyAction.manage_policy policy =
    grant actor Permission.manage_policy policy
evaluate_action actor PolicyAction.manage_tokens policy =
    grant actor Permission.manage_tokens policy

unfoldable pub evaluate_policy : Actor → PolicyAction → PolicyDocument → PolicyDecision
unfolding evaluate_action
evaluate_policy actor action policy =
    if is_system actor
    then PolicyDecision.allow
    else if is_read_scope actor
    then PolicyDecision.denied read_scope_rule
    else evaluate_action actor action policy

-- `decide` of services/internal.ts: a decision as its error.
abbrev pub decide : PolicyDecision → Result (Unit {0})
decide PolicyDecision.allow = ok tt
decide (PolicyDecision.denied rule) = err (policy_denied rule)
decide (PolicyDecision.illegal from to) = err (illegal_transition from to)
