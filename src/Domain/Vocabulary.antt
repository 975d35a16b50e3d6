-- ===== src/Domain/Vocabulary.antt =====
-- The closed vocabularies of packages/core/src/domain/constants.ts and policy.ts, and the scalar
-- types of entities.ts. A UUID is only ever compared for equality or ordered as a tie-break, an
-- ISO instant is ordered as its millisecond count, and an ISO date as its day number.
use ai_kanban.Prelude.{ℕ, Eq, eq_of, String}

abbrev pub Uuid : Type 0
Uuid = ℕ

abbrev pub Instant : Type 0
Instant = ℕ

abbrev pub Date : Type 0
Date = ℕ

abbrev pub LaneKey : Type 0
LaneKey = String

abbrev pub Role : Type 0
Role = String

pub data Priority : Type 0 where
  p0 p1 p2 : Priority

pub data CancelResolution : Type 0 where
  cancelled declined duplicate : CancelResolution

pub data Resolution : Type 0 where
  completed cancelled declined duplicate : Resolution

pub data CardOrigin : Type 0 where
  manual slack mcp import pm : CardOrigin

pub data ActorKind : Type 0 where
  user mcp slack system agent : ActorKind

pub data TokenScope : Type 0 where
  read read_write : TokenScope

pub data AccessMode : Type 0 where
  open_to_all restricted : AccessMode

pub data DefaultScope : Type 0 where
  application role group user : DefaultScope

pub data Theme : Type 0 where
  light dark system : Theme

pub data LocationKind : Type 0 where
  building floor room : LocationKind

pub data RelationType : Type 0 where
  blocks duplicates relates_to : RelationType

pub data RelationDirection : Type 0 where
  outgoing incoming : RelationDirection

pub data Permission : Type 0 where
  card_create card_update card_move card_cancel card_reopen card_archive : Permission
  card_block card_unblock comment_add comment_delete_others : Permission
  attachment_add attachment_delete_others view_all_activity : Permission
  manage_users manage_roles manage_locations manage_lanes manage_policy manage_tokens : Permission

-- `isSystemLaneKey`'s seven keys, of which these carry workflow behaviour.
abbrev pub done_key : LaneKey
done_key = "done"

abbrev pub ready_key : LaneKey
ready_key = "ready"

abbrev pub in_progress_key : LaneKey
in_progress_key = "in_progress"

abbrev pub waiting_key : LaneKey
waiting_key = "waiting_parts_vendor"

unfoldable pub ActorKind-discrete : Discrete ActorKind
ActorKind-discrete = hlevel

instance abbrev pub actor_kind_eq : Eq ActorKind
actor_kind_eq = eq_of ActorKind-discrete

unfoldable pub TokenScope-discrete : Discrete TokenScope
TokenScope-discrete = hlevel

instance abbrev pub token_scope_eq : Eq TokenScope
token_scope_eq = eq_of TokenScope-discrete

unfoldable pub Permission-discrete : Discrete Permission
Permission-discrete = hlevel

instance abbrev pub permission_eq : Eq Permission
permission_eq = eq_of Permission-discrete

unfoldable pub Priority-discrete : Discrete Priority
Priority-discrete = hlevel

instance abbrev pub priority_eq : Eq Priority
priority_eq = eq_of Priority-discrete

unfoldable pub RelationType-discrete : Discrete RelationType
RelationType-discrete = hlevel

instance abbrev pub relation_type_eq : Eq RelationType
relation_type_eq = eq_of RelationType-discrete

unfoldable pub DefaultScope-discrete : Discrete DefaultScope
DefaultScope-discrete = hlevel

instance abbrev pub default_scope_eq : Eq DefaultScope
default_scope_eq = eq_of DefaultScope-discrete
