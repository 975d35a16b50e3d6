-- ===== src/Domain/Entities.antt =====
-- packages/core/src/domain/entities.ts, boards.ts, relations.ts and notifications.ts: the rows that
-- the store keeps. `.nullable()` and `.optional()` fields are options; string length bounds are
-- checked by the schemas at the edge and are not part of the types.
use ai_kanban.Prelude.{ℕ, Bool, Option, List, String, Position}
use ai_kanban.Domain.Vocabulary.{
  Uuid, Instant, Date, LaneKey, Role, Priority, Resolution, CardOrigin, ActorKind, TokenScope,
  AccessMode, DefaultScope, Theme, LocationKind, RelationType, RelationDirection,
}

pub record User : Type 0 where
  pub id : Uuid
  pub email : String
  pub display_name : String
  pub role : Role
  pub must_change_password : Bool
  pub slack_user_id : Option String
  pub is_active : Bool
  pub timezone : String
  pub theme : Theme
  pub created_at : Instant

pub record Board : Type 0 where
  pub id : Uuid
  pub name : String
  pub is_default : Bool
  pub archived_at : Option Instant
  pub access_mode : AccessMode
  pub allowed_role_keys : List Role
  pub allowed_user_ids : List Uuid
  pub allowed_group_ids : List Uuid
  pub created_at : Instant

pub record Group : Type 0 where
  pub id : Uuid
  pub name : String
  pub user_ids : List Uuid
  pub created_at : Instant

pub record Lane : Type 0 where
  pub id : Uuid
  pub board_id : Uuid
  pub key : LaneKey
  pub label : String
  pub position : ℕ
  pub wip_limit : Option ℕ

pub record Location : Type 0 where
  pub id : Uuid
  pub parent_id : Option Uuid
  pub kind : LocationKind
  pub name : String

pub record Card : Type 0 where
  pub id : ℕ
  pub board_id : Uuid
  pub lane_id : Uuid
  pub position : Position
  pub title : String
  pub description : String
  pub priority : Priority
  pub estimate_minutes : Option ℕ
  pub reporter_id : Uuid
  pub assignee_id : Option Uuid
  pub location_id : Option Uuid
  pub origin : CardOrigin
  pub resolution : Option Resolution
  pub blocked : Bool
  pub blocked_reason : Option String
  pub blocked_at : Option Instant
  pub waiting_reason : Option String
  pub expected_resume_at : Option Date
  pub resume_alerted_at : Option Instant
  pub work_started_at : Option Instant
  pub slack_channel_id : Option String
  pub slack_thread_ts : Option String
  pub slack_permalink : Option String
  pub version : ℕ
  pub created_at : Instant
  pub updated_at : Instant
  pub archived_at : Option Instant

pub record Tag : Type 0 where
  pub id : Uuid
  pub name : String

pub record Comment : Type 0 where
  pub id : Uuid
  pub card_id : ℕ
  pub parent_comment_id : Option Uuid
  pub author_id : Uuid
  pub body : String
  pub created_at : Instant
  pub updated_at : Instant
  pub deleted_at : Option Instant

pub record Attachment : Type 0 where
  pub id : Uuid
  pub card_id : ℕ
  pub filename : String
  pub mime : String
  pub bytes : ℕ
  pub sha256 : String
  pub storage_key : Uuid
  pub uploaded_by : Uuid
  pub created_at : Instant
  pub deleted_at : Option Instant

pub record ServiceToken : Type 0 where
  pub id : Uuid
  pub name : String
  pub token_hash : String
  pub role : Role
  pub scope : TokenScope
  pub created_by : Uuid
  pub created_at : Instant
  pub last_used_at : Option Instant
  pub revoked_at : Option Instant

-- The OAuth client that an agent acts through.
pub record Client : Type 0 where
  pub id : String
  pub name : String

pub record Actor : Type 0 where
  pub kind : ActorKind
  pub id : Uuid
  pub role : Role
  pub scope : Option TokenScope
  pub client : Option Client

-- What a default board is assigned to: everyone (`'all'`), a role key, or a group's or user's id.
pub data Subject : Type 0 where
  everyone : Subject
  role_key : Role → Subject
  ident : Uuid → Subject

pub record BoardDefault : Type 0 where
  pub scope : DefaultScope
  pub subject : Subject
  pub board_id : Uuid

pub record CardRelation : Type 0 where
  pub id : Uuid
  pub from_card_id : ℕ
  pub to_card_id : ℕ
  pub type : RelationType
  pub created_at : Instant

-- The other card of a relation, as one card sees it.
pub record CardSummary : Type 0 where
  pub id : ℕ
  pub title : String

pub record CardRelationView : Type 0 where
  pub id : Uuid
  pub type : RelationType
  pub direction : RelationDirection
  pub card : CardSummary

pub record CardTagRow : Type 0 where
  pub card_id : ℕ
  pub tag_id : Uuid

pub record CardWatcherRow : Type 0 where
  pub card_id : ℕ
  pub user_id : Uuid
  pub created_at : Instant
