-- ===== src/Examples/Told.antt =====
-- packages/core/src/services/notification-service.ts at the example team.
use ai_kanban.Prelude.{◌≡◌, refl, [], ◌∷◌, none, some, true}
use ai_kanban.Domain.Vocabulary.{ActorKind, AccessMode}
use ai_kanban.Domain.Entities.{Board}
use ai_kanban.Domain.Events.{CardEvent, CardEventBody, Notification}
use ai_kanban.Db.State.{World}
use ai_kanban.Services.Notification.{fan_out_for_event}
use ai_kanban.Inbox.Own.{InboxCommand, perform, of_others, perform-of_others}
use ai_kanban.Examples.Data.{deps, member, team}

abbrev event : CardEvent
event = record {
  id = 60;
  card_id = 1;
  actor_id = some 7;
  actor_kind = ActorKind.user;
  actor_label = none;
  created_at = 70;
  body = CardEventBody.card_archived;
}

abbrev board : Board
board = record {
  id = 1;
  name = "Workshop";
  is_default = true;
  archived_at = none;
  access_mode = AccessMode.open_to_all;
  allowed_role_keys = [];
  allowed_user_ids = [];
  allowed_group_ids = [];
  created_at = 0;
}

abbrev archived : World
archived = record team { db = record (team.db) { events = event ∷ [] } }

abbrev told : World
told = (fan_out_for_event deps 1 60 archived).1

-- The member clears an inbox while another user has a notification.
perform-of_others_example :
    of_others 7 (perform deps member InboxCommand.clear_all told).1.db.notifications
    ≡ of_others 7 told.db.notifications
perform-of_others_example =
    perform-of_others deps member InboxCommand.clear_all told
      (perform deps member InboxCommand.clear_all told).1
      (perform deps member InboxCommand.clear_all told).0 refl
