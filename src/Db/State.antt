-- ===== src/Db/State.antt =====
-- packages/core/src/testing/in-memory-db.ts: `DbState`, less the tables of the authentication
-- surface, and what a service call can see and change beside it.
use ai_kanban.Prelude.{ℕ, Bool, false, Option, List, [], String, Position}
use ai_kanban.Domain.Vocabulary.{Uuid, Instant}
use ai_kanban.Domain.Entities.{
  User, Board, Group, Lane, Location, Card, Tag, Comment, Attachment, ServiceToken, BoardDefault,
  CardRelation, CardTagRow, CardWatcherRow,
}
use ai_kanban.Domain.Events.{CardEvent, Notification, SseHint}
use ai_kanban.Domain.Policy.{BoardPolicy}

pub record DbState : Type 0 where
  pub board_defaults : List BoardDefault
  pub groups : List Group
  pub boards : List Board
  pub lanes : List Lane
  pub users : List User
  pub service_tokens : List ServiceToken
  pub locations : List Location
  pub cards : List Card
  pub comments : List Comment
  pub attachments : List Attachment
  pub tags : List Tag
  pub card_tags : List CardTagRow
  pub policies : List BoardPolicy
  pub events : List CardEvent
  pub card_relations : List CardRelation
  pub card_watchers : List CardWatcherRow
  pub notifications : List Notification

abbrev pub empty_state : DbState
empty_state = record {
  board_defaults = [];
  groups = [];
  boards = [];
  lanes = [];
  users = [];
  service_tokens = [];
  locations = [];
  cards = [];
  comments = [];
  attachments = [];
  tags = [];
  card_tags = [];
  policies = [];
  events = [];
  card_relations = [];
  card_watchers = [];
  notifications = [];
}

-- The committed tables, the injected fault of `InMemoryDb`, how often the clock and the id generator
-- were read, what was published and notified after commits, and the stored blobs.
pub record World : Type 0 where
  pub db : DbState
  pub fail_next_card_position_write : Bool
  pub clock_calls : ℕ
  pub id_calls : ℕ
  pub hints : List SseHint
  pub completed_notices : List Card
  pub blobs : List Uuid

abbrev pub world_of : DbState → World
world_of db = record {
  db = db;
  fail_next_card_position_write = false;
  clock_calls = 0;
  id_calls = 0;
  hints = [];
  completed_notices = [];
  blobs = [];
}

-- What the services are constructed with, and the code that they call outside this repository:
-- `Clock`, `IdGenerator`, `generateKeyBetween` of the package fractional-indexing (`none` where it
-- throws), the runtime's `toLowerCase`, and a blob store whose calls may fail.
pub record Deps : Type 0 where
  pub now : ℕ → Instant
  pub new_id : ℕ → Uuid
  pub generate_key_between : Option Position → Option Position → Option Position
  pub to_lower_case : String → String
  pub blob_put_fails : Uuid → Bool
  pub blob_delete_fails : Uuid → Bool
  pub board_id : Uuid
  pub system_user_id : Uuid
