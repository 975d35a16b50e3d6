-- ===== src/Domain/Defaults.antt =====
-- packages/core/src/domain/boards.ts and policy.ts: what a new board starts with.
use ai_kanban.Prelude.{ℕ, true, false, Option, none, some, List, [], ◌∷◌, String}
use ai_kanban.Domain.Vocabulary.{LaneKey}
use ai_kanban.Domain.Policy.{
  PolicyDocument, PolicyTransition, RoleDefinition, WaitingReasonDefinition, default_business_hours,
}

pub record LaneTemplate : Type 0 where
  pub key : LaneKey
  pub label : String
  pub wip_limit : Option ℕ

abbrev template : LaneKey → String → Option ℕ → LaneTemplate
template key label wip_limit = record { key = key; label = label; wip_limit = wip_limit }

-- `DEFAULT_LANES`
unfoldable pub default_lanes : List LaneTemplate
default_lanes =
    template "intake" "Intake" none
    ∷ template "waiting_approval" "Waiting for Approval" none
    ∷ template "ready" "Ready" none
    ∷ template "in_progress" "In Progress" (some 5)
    ∷ template "waiting_parts_vendor" "Waiting on Parts / Vendor" (some 8)
    ∷ template "review" "Review" (some 5)
    ∷ template "done" "Done" none
    ∷ []

abbrev reason : String → String → WaitingReasonDefinition
reason key label = record { key = key; label = label; active = true }

unfoldable pub default_waiting_reasons : List WaitingReasonDefinition
default_waiting_reasons =
    reason "parts" "Parts"
    ∷ reason "vendor" "Vendor"
    ∷ reason "access" "Access"
    ∷ reason "info" "Information"
    ∷ reason "funding" "Funding"
    ∷ []

abbrev edge : LaneKey → LaneKey → PolicyTransition
edge from to = record { from = from; to = to }

unfoldable pub default_transitions : List PolicyTransition
default_transitions =
    edge "intake" "waiting_approval"
    ∷ edge "waiting_approval" "ready"
    ∷ edge "waiting_approval" "intake"
    ∷ edge "ready" "in_progress"
    ∷ edge "in_progress" "ready"
    ∷ edge "in_progress" "waiting_parts_vendor"
    ∷ edge "waiting_parts_vendor" "in_progress"
    ∷ edge "in_progress" "review"
    ∷ edge "review" "done"
    ∷ edge "review" "in_progress"
    ∷ edge "done" "ready"
    ∷ []

-- `DEFAULT_POLICY_DOCUMENT` with the roles given.
unfoldable pub default_policy_document : List RoleDefinition → PolicyDocument
unfolding default_waiting_reasons default_transitions
default_policy_document roles = record {
  transition_enforcement = false;
  transitions = default_transitions;
  roles = roles;
  business_hours = default_business_hours;
  waiting_reasons = default_waiting_reasons;
}
