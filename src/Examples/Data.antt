-- ===== src/Examples/Data.antt =====
-- A board with four lanes, two cards and one member, and the outside code as concrete functions.
use ai_kanban.Prelude.{ℕ, ◌+◌, Bool, false, Option, none, some, [], ◌∷◌, ◌++◌, Position}
use ai_kanban.Domain.Vocabulary.{
  Uuid, LaneKey, Priority, CardOrigin, ActorKind, AccessMode, Permission, TokenScope, done_key,
  ready_key, in_progress_key, waiting_key, Theme,
}
use ai_kanban.Domain.Entities.{Lane, Card, Actor, User, Comment}
use ai_kanban.Domain.Policy.{PolicyDocument, default_business_hours}
use ai_kanban.Db.State.{DbState, World, Deps, empty_state, world_of}

abbrev sample_key : Option Position → Option Position → Option Position
sample_key none none = some (5 ∷ [])
sample_key (some p) none = some (p ++ 1 ∷ [])
sample_key none (some p) = some (0 ∷ p)
sample_key (some p) (some q) = some (p ++ 1 ∷ [])

abbrev pub deps : Deps
deps = record {
  now = λ n. 1000 + n;
  new_id = λ n. 500 + n;
  generate_key_between = sample_key;
  to_lower_case = λ s. s;
  blob_put_fails = λ _. false;
  blob_delete_fails = λ _. false;
  board_id = 1;
  system_user_id = 99;
}

abbrev pub policy : PolicyDocument
policy = record {
  transition_enforcement = false;
  transitions = [];
  roles =
      record {
        key = "member";
        name = "Member";
        permissions =
            Permission.card_create ∷ Permission.card_update ∷ Permission.card_move
            ∷ Permission.card_block ∷ [];
      }
      ∷ [];
  business_hours = default_business_hours;
  waiting_reasons = record { key = "parts"; label = "Parts"; active = Bool.true } ∷ [];
}

abbrev pub member : Actor
member = record { kind = ActorKind.user; id = 7; role = "member"; scope = none; client = none }

abbrev pub reader : Actor
reader = record {
  kind = ActorKind.mcp;
  id = 8;
  role = "member";
  scope = some TokenScope.read;
  client = none;
}

abbrev pub lane : Uuid → LaneKey → ℕ → Lane
lane id key position = record {
  id = id;
  board_id = 1;
  key = key;
  label = key;
  position = position;
  wip_limit = none;
}

abbrev pub ready : Lane
ready = lane 10 ready_key 0

abbrev pub done : Lane
done = lane 13 done_key 3

abbrev pub card : ℕ → Position → Card
card id position = record {
  id = id;
  board_id = 1;
  lane_id = 10;
  position = position;
  title = "Oil the press";
  description = "";
  priority = Priority.p1;
  estimate_minutes = none;
  reporter_id = 7;
  assignee_id = none;
  location_id = none;
  origin = CardOrigin.manual;
  resolution = none;
  blocked = false;
  blocked_reason = none;
  blocked_at = none;
  waiting_reason = none;
  expected_resume_at = none;
  resume_alerted_at = none;
  work_started_at = none;
  slack_channel_id = none;
  slack_thread_ts = none;
  slack_permalink = none;
  version = 1;
  created_at = 100;
  updated_at = 100;
  archived_at = none;
}

abbrev pub db : DbState
db = record empty_state {
  boards =
      record {
        id = 1;
        name = "Workshop";
        is_default = Bool.true;
        archived_at = none;
        access_mode = AccessMode.open_to_all;
        allowed_role_keys = [];
        allowed_user_ids = [];
        allowed_group_ids = [];
        created_at = 0;
      }
      ∷ [];
  lanes = ready ∷ lane 11 in_progress_key 1 ∷ lane 12 waiting_key 2 ∷ done ∷ [];
  policies = record { id = 20; board_id = 1; config = policy; created_by = 7; created_at = 0 } ∷ [];
  cards = card 1 (1 ∷ []) ∷ card 2 (2 ∷ []) ∷ [];
}

abbrev pub world : World
world = world_of db

-- The same board with two users, a policy that lets the member discuss and administer, and one comment.
abbrev pub team_policy : PolicyDocument
team_policy = record policy {
  roles =
      record {
        key = "member";
        name = "Member";
        permissions =
            Permission.comment_add ∷ Permission.attachment_add ∷ Permission.manage_policy ∷ [];
      }
      ∷ [];
}

abbrev pub user : Uuid → User
user id = record {
  id = id;
  email = "";
  display_name = "";
  role = "member";
  must_change_password = false;
  slack_user_id = none;
  is_active = Bool.true;
  timezone = "UTC";
  theme = Theme.system;
  created_at = 0;
}

abbrev pub comment : Uuid → Option Uuid → Comment
comment id parent = record {
  id = id;
  card_id = 1;
  parent_comment_id = parent;
  author_id = 7;
  body = "Done";
  created_at = 50;
  updated_at = 50;
  deleted_at = none;
}

abbrev pub team : World
team = world_of (record db {
  users = user 7 ∷ user 9 ∷ [];
  policies =
      record { id = 20; board_id = 1; config = team_policy; created_by = 7; created_at = 0 } ∷ [];
  comments = comment 30 none ∷ comment 31 (some 30) ∷ [];
  card_watchers = record { card_id = 1; user_id = 9; created_at = 40 } ∷ [];
})
