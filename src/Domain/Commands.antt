-- ===== src/Domain/Commands.antt =====
-- packages/core/src/domain/commands.ts: the parsed inputs of the commands. A field that may be left
-- out is an option, and one that may also be null an option of an option; the schemas' length and
-- format bounds have been checked before.
use ai_kanban.Prelude.{ℕ, Bool, Option, List, String}
use ai_kanban.Domain.Vocabulary.{
  Uuid, Date, LaneKey, Priority, CancelResolution, RelationType, Role, AccessMode,
}

pub record CreateCardInput : Type 0 where
  pub title : String
  pub description : String
  pub priority : Priority
  pub assignee_id : Option Uuid
  pub location_id : Option Uuid
  pub tags : List String
  pub estimate_minutes : Option ℕ

pub record SlackSource : Type 0 where
  pub channel_id : String
  pub thread_ts : String
  pub permalink : String

-- What a trusted adapter adds to a creation.
pub record CreateCardOptions : Type 0 where
  pub reporter_id : Option Uuid
  pub slack_source : Option SlackSource

pub record UpdateCardInput : Type 0 where
  pub title : Option String
  pub description : Option String
  pub priority : Option Priority
  pub estimate_minutes : Option (Option ℕ)
  pub assignee_id : Option (Option Uuid)
  pub location_id : Option (Option Uuid)
  pub tags : Option (List String)
  pub waiting_reason : Option String
  pub expected_resume_at : Option Date
  pub expected_version : ℕ

pub record MoveCardInput : Type 0 where
  pub to_lane : LaneKey
  pub prev_card_id : Option ℕ
  pub next_card_id : Option ℕ
  pub waiting_reason : Option String
  pub expected_resume_at : Option Date
  pub expected_version : ℕ

pub record CancelCardInput : Type 0 where
  pub resolution : CancelResolution
  pub expected_version : ℕ

pub record AddCommentInput : Type 0 where
  pub body : String
  pub parent_comment_id : Option Uuid
  pub mentions : List Uuid

pub record CreateCardRelationInput : Type 0 where
  pub to_card_id : ℕ
  pub type : RelationType

pub record AddAttachmentInput : Type 0 where
  pub filename : String
  pub mime : String
  pub byte_length : ℕ
  pub sha256 : String

-- Which default assignments a board is to have: everyone's, and those of roles and groups.
pub record DefaultAssignments : Type 0 where
  pub application : Bool
  pub role_keys : List Role
  pub group_ids : List Uuid

pub record BoardInput : Type 0 where
  pub name : String
  pub access_mode : AccessMode
  pub allowed_role_keys : List Role
  pub allowed_user_ids : List Uuid
  pub allowed_group_ids : List Uuid
  pub default_assignments : Option DefaultAssignments

pub record GroupInput : Type 0 where
  pub name : String
  pub user_ids : List Uuid
