-- ===== src/Domain/Events.antt =====
-- packages/core/src/domain/events.ts, notifications.ts and sse.ts: audit events, the notifications
-- that fan out of them, and the hints that are published after a commit.
use ai_kanban.Prelude.{ℕ, Bool, true, false, Option, List, String, Eq, eq_of}
use ai_kanban.Domain.Vocabulary.{
  Uuid, Instant, Date, LaneKey, Priority, CancelResolution, ActorKind,
}
use ai_kanban.Domain.Entities.{Card}

pub data AuditedCardField : Type 0 where
  title description priority estimate_minutes assignee_id location_id tags : AuditedCardField
  waiting_reason expected_resume_at : AuditedCardField

-- `fieldValueSchema`: a value before or after an edit, null included.
pub data FieldValue : Type 0 where
  text : String → FieldValue
  ranked : Priority → FieldValue
  number : ℕ → FieldValue
  ident : Uuid → FieldValue
  day : Date → FieldValue
  names : List String → FieldValue
  null : FieldValue

-- `cardSnapshotSchema`
pub record CardSnapshot : Type 0 where
  pub card : Card
  pub tags : List String

-- The payload of each event type.
pub data CardEventBody : Type 0 where
  card_created : CardSnapshot → CardEventBody
  card_status_changed :
      LaneKey → LaneKey → (wip_limit_exceeded : Bool) → (cleared_waiting : Bool) → CardEventBody
  card_reordered : LaneKey → Option ℕ → Option ℕ → CardEventBody
  card_field_changed : AuditedCardField → FieldValue → FieldValue → CardEventBody
  card_blocked : Option String → CardEventBody
  card_unblocked : Option String → CardEventBody
  card_cancelled : CancelResolution → LaneKey → Option String → Option Date → CardEventBody
  card_reopened : LaneKey → CardEventBody
  card_archived : CardEventBody
  comment_added : Uuid → Option Uuid → List Uuid → CardEventBody
  comment_edited : Uuid → Option Uuid → CardEventBody
  comment_deleted : Uuid → Option Uuid → CardEventBody
  attachment_added : Uuid → String → CardEventBody
  attachment_removed : Uuid → String → CardEventBody
  card_pii_deleted : String → CardEventBody

pub data CardEventType : Type 0 where
  card_created card_status_changed card_reordered card_field_changed : CardEventType
  card_blocked card_unblocked card_cancelled card_reopened card_archived : CardEventType
  comment_added comment_edited comment_deleted : CardEventType
  attachment_added attachment_removed card_pii_deleted : CardEventType

unfoldable pub CardEventType-discrete : Discrete CardEventType
CardEventType-discrete = hlevel

instance abbrev pub event_type_eq : Eq CardEventType
event_type_eq = eq_of CardEventType-discrete

-- The discriminant of the union.
abbrev pub event_type : CardEventBody → CardEventType
event_type (CardEventBody.card_created _) = CardEventType.card_created
event_type (CardEventBody.card_status_changed _ _ _ _) = CardEventType.card_status_changed
event_type (CardEventBody.card_reordered _ _ _) = CardEventType.card_reordered
event_type (CardEventBody.card_field_changed _ _ _) = CardEventType.card_field_changed
event_type (CardEventBody.card_blocked _) = CardEventType.card_blocked
event_type (CardEventBody.card_unblocked _) = CardEventType.card_unblocked
event_type (CardEventBody.card_cancelled _ _ _ _) = CardEventType.card_cancelled
event_type (CardEventBody.card_reopened _) = CardEventType.card_reopened
event_type CardEventBody.card_archived = CardEventType.card_archived
event_type (CardEventBody.comment_added _ _ _) = CardEventType.comment_added
event_type (CardEventBody.comment_edited _ _) = CardEventType.comment_edited
event_type (CardEventBody.comment_deleted _ _) = CardEventType.comment_deleted
event_type (CardEventBody.attachment_added _ _) = CardEventType.attachment_added
event_type (CardEventBody.attachment_removed _ _) = CardEventType.attachment_removed
event_type (CardEventBody.card_pii_deleted _) = CardEventType.card_pii_deleted

pub record CardEvent : Type 0 where
  pub id : Uuid
  pub card_id : ℕ
  pub actor_id : Option Uuid
  pub actor_kind : ActorKind
  pub actor_label : Option String
  pub created_at : Instant
  pub body : CardEventBody

-- `NOTIFICATION_KINDS`
pub data NotificationKind : Type 0 where
  event : CardEventType → NotificationKind
  mention : NotificationKind

pub record Notification : Type 0 where
  pub id : Uuid
  pub user_id : Uuid
  pub card_id : ℕ
  pub actor_id : Option Uuid
  pub event_type : NotificationKind
  pub comment_id : Option Uuid
  pub created_at : Instant
  pub read_at : Option Instant

-- Not a reorder, a redaction, nor an edit or a deletion of a comment.
abbrev pub is_notifiable_event : CardEventType → Bool
is_notifiable_event CardEventType.card_reordered = false
is_notifiable_event CardEventType.card_pii_deleted = false
is_notifiable_event CardEventType.comment_edited = false
is_notifiable_event CardEventType.comment_deleted = false
is_notifiable_event _ = true

pub record CardSseHint : Type 0 where
  pub type : CardEventType
  pub card_id : ℕ
  pub version : ℕ
  pub event_id : Uuid

pub data SseHint : Type 0 where
  card : CardSseHint → SseHint
  board_updated policy_updated lane_updated user_updated location_updated : SseHint

-- True when a hint can change the board's body.
abbrev pub affects_board_snapshot : SseHint → Bool
affects_board_snapshot SseHint.lane_updated = true
affects_board_snapshot (SseHint.card h) = starts_with_card h.type
  where
    starts_with_card : CardEventType → Bool
    starts_with_card CardEventType.comment_added = false
    starts_with_card CardEventType.comment_edited = false
    starts_with_card CardEventType.comment_deleted = false
    starts_with_card CardEventType.attachment_added = false
    starts_with_card CardEventType.attachment_removed = false
    starts_with_card _ = true
affects_board_snapshot _ = false
