-- ===== src/Domain/Policy.antt =====
-- packages/core/src/domain/policy.ts: the policy document and its validity.
use Prim.Native.String
use ai_kanban.Prelude.{
  ℕ, Bool, ◌&&◌, List, String, Eq, ltb, leb, length, any, all, includes, map, ◌==◌, ◌!=◌, filter,
  distinct, string_eq, nat_eq,
}
use ai_kanban.Domain.Vocabulary.{Uuid, Instant, LaneKey, Role, Permission, permission_eq}

pub record RoleDefinition : Type 0 where
  pub key : Role
  pub name : String
  -- The permissions whose entry is present; an absent one is not granted.
  pub permissions : List Permission

pub record PolicyTransition : Type 0 where
  pub from : LaneKey
  pub to : LaneKey

pub record BusinessHours : Type 0 where
  pub start_hour : ℕ
  pub end_hour : ℕ

pub record WaitingReasonDefinition : Type 0 where
  pub key : String
  pub label : String
  pub active : Bool

pub record PolicyDocument : Type 0 where
  pub transition_enforcement : Bool
  pub transitions : List PolicyTransition
  pub roles : List RoleDefinition
  pub business_hours : BusinessHours
  pub waiting_reasons : List WaitingReasonDefinition

pub record BoardPolicy : Type 0 where
  pub id : Uuid
  pub board_id : Uuid
  pub config : PolicyDocument
  pub created_by : Uuid
  pub created_at : Instant

abbrev pub default_business_hours : BusinessHours
default_business_hours = record { start_hour = 9; end_hour = 17 }

-- No two items of the list are equal: `new Set(xs).size === xs.length`.
abbrev all_distinct {ℓ} : {A : Type ℓ} ⦃e : Eq A⦄ → List A → Bool
all_distinct xs = length (distinct xs) == length xs

unfoldable pub valid_business_hours : BusinessHours → Bool
valid_business_hours h =
    leb h.start_hour 23 && leb 1 h.end_hour && leb h.end_hour 24 && ltb h.start_hour h.end_hour

-- `waitingReasonDefinitionsSchema`, over the runtime's `toLowerCase`.
unfoldable pub valid_waiting_reasons : (String → String) → List WaitingReasonDefinition → Bool
valid_waiting_reasons to_lower_case reasons =
    any (λ r. r.active) reasons
    && all_distinct (map (λ r. r.key) reasons)
    && all_distinct (map (λ r. to_lower_case r.label) (filter (λ r. r.active) reasons))

abbrev pub grants : RoleDefinition → Permission → Bool
grants role perm = includes role.permissions perm

abbrev edge_text : PolicyTransition → String
edge_text e = String.◌++◌ e.from (String.◌++◌ "->" e.to)

-- `policyDocumentSchema`
unfoldable pub valid_policy_document : (String → String) → PolicyDocument → Bool
unfolding valid_business_hours valid_waiting_reasons
valid_policy_document to_lower_case doc =
    leb 1 (length doc.roles)
    && valid_business_hours doc.business_hours
    && valid_waiting_reasons to_lower_case doc.waiting_reasons
    && all_distinct (map (λ r. r.key) doc.roles)
    && any (λ r. grants r Permission.manage_roles) doc.roles
    && all (λ e. e.from != e.to) doc.transitions
    && all_distinct (map edge_text doc.transitions)
