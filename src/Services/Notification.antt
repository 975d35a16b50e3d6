-- ===== src/Services/Notification.antt =====
-- packages/core/src/services/notification-service.ts: `NotificationService`, and the view of
-- domain/notifications.ts.
use ai_kanban.Prelude.{
  ℕ, Bool, false, ◌||◌, not, Option, none, some, List, [], ◌∷◌, nat_eq, option_eq, ◌==◌, ◌!=◌,
  is_some, includes, String, if◌then◌else◌,
}
use ai_kanban.Domain.Vocabulary.{Uuid, Instant}
use ai_kanban.Domain.Entities.{Actor, Board, Card, User}
use ai_kanban.Domain.Events.{
  CardEvent, CardEventBody, event_type, is_notifiable_event, Notification, NotificationKind,
}
use ai_kanban.Domain.Errors.{Result, ok}
use ai_kanban.Domain.Errors
use ai_kanban.Db.State.{DbState, Deps}
use ai_kanban.Db.Tx.{Tx, ◌>>=◌, ◌>>◌, pure, reads, gets, now, new_id, run, read, for_each}
use ai_kanban.Db.Cards.{find_card}
use ai_kanban.Db.Rows.{
  find_event, find_board, find_user, list_watcher_ids, insert_notification, list_notifications,
}
use ai_kanban.Db.Rows
use ai_kanban.Services.Access.{can_access_board, visible_board_ids, as_actor}

-- `NotificationView`
pub record NotificationView : Type 0 where
  pub id : Uuid
  pub card_id : ℕ
  pub card_title : String
  pub event_type : NotificationKind
  pub actor_name : Option String
  pub comment_id : Option Uuid
  pub created_at : Instant
  pub read : Bool

-- The users whom a comment mentions were told already.
abbrev pub mentioned_user_ids : CardEventBody → List Uuid
mentioned_user_ids (CardEventBody.comment_added _ _ ids) = ids
mentioned_user_ids _ = []

abbrev pub comment_id_of : CardEventBody → Option Uuid
comment_id_of (CardEventBody.comment_added id _ _) = some id
comment_id_of _ = none

abbrev pub is_excluded : CardEvent → Uuid → Bool
is_excluded event id = event.actor_id == some id || includes (mentioned_user_ids event.body) id

-- An active user who can see the board.
unfoldable pub can_receive : DbState → Board → Uuid → Result Bool
can_receive db board id = elim (find_user id db) [
  | none ↦ ok false
  | some user ↦ if user.is_active then can_access_board db (as_actor user) board else ok false
]

unfoldable pub fan_out_recipients : DbState → CardEvent → Board → List Uuid → Result (List Uuid)
unfolding can_receive
fan_out_recipients db event board [] = ok []
fan_out_recipients db event board (id ∷ ids) =
    Errors.◌>>=◌ (if is_excluded event id then ok false else can_receive db board id) λ chosen.
      Errors.◌>>=◌ (fan_out_recipients db event board ids)
        λ rest. ok (if chosen then id ∷ rest else rest)

abbrev pub notify : Deps → CardEvent → ℕ → Instant → Uuid → Tx (Unit {0})
notify deps event card_id created_at user_id = do
  id ← new_id deps
  insert_notification (record {
    id = id;
    user_id = user_id;
    card_id = card_id;
    actor_id = event.actor_id;
    event_type = NotificationKind.event (event_type event.body);
    comment_id = comment_id_of event.body;
    created_at = created_at;
    read_at = none;
  })

unfoldable pub notify_watchers : Deps → CardEvent → ℕ → Board → Tx (List Uuid)
unfolding fan_out_recipients
notify_watchers deps event card_id board = do
  recipients ← reads (λ db. fan_out_recipients db event board (list_watcher_ids card_id db))
  created_at ← now deps
  for_each recipients (notify deps event card_id created_at)
  pure recipients

-- The event, when it notifies anyone, and the board of its card.
unfoldable pub notifiable : ℕ → Uuid → DbState → Option (CardEvent × Board)
notifiable card_id event_id db = elim (find_event event_id db) [
  | none ↦ none
  | some event ↦
      if not (is_notifiable_event (event_type event.body))
      then none
      else elim (find_card card_id db) [
        | none ↦ none
        | some card ↦
            if event.card_id != card_id then none else elim (find_board card.board_id db) [
              | none ↦ none
              | some board ↦ some (event, board)
            ]
      ]
]

abbrev fan_out : Deps → ℕ → Option (CardEvent × Board) → Tx (List Uuid)
fan_out deps card_id none = pure []
fan_out deps card_id (some (event, board)) = notify_watchers deps event card_id board

unfoldable pub fan_out_for_event : Deps → ℕ → Uuid → Tx (List Uuid)
unfolding notifiable notify_watchers run
fan_out_for_event deps card_id event_id =
    run do found ← gets (notifiable card_id event_id); fan_out deps card_id found

abbrev title_of : Option Card → String
title_of none = ""
title_of (some card) = card.title

abbrev name_of : Option User → Option String
name_of none = none
name_of (some user) = some user.display_name

abbrev actor_of : DbState → Option Uuid → Option User
actor_of db none = none
actor_of db (some id) = find_user id db

unfoldable pub to_view : DbState → Notification → NotificationView
to_view db row = record {
  id = row.id;
  card_id = row.card_id;
  card_title = title_of (find_card row.card_id db);
  event_type = row.event_type;
  actor_name = name_of (actor_of db row.actor_id);
  comment_id = row.comment_id;
  created_at = row.created_at;
  read = is_some row.read_at;
}

unfoldable pub mark_read : Deps → Actor → Uuid → Tx (Unit {0})
unfolding run
mark_read deps actor id = run do read_at ← now deps; Rows.mark_read id actor.id read_at

unfoldable pub mark_all_read : Deps → Actor → Tx ℕ
unfolding run
mark_all_read deps actor = run do
  read_at ← now deps
  board_ids ← reads (visible_board_ids actor)
  Rows.mark_all_read actor.id read_at (some board_ids)

unfoldable pub mark_unread : Actor → Uuid → Tx (Unit {0})
unfolding run
mark_unread actor id = run (Rows.mark_unread id actor.id)

unfoldable pub clear : Actor → Uuid → Tx (Unit {0})
unfolding run
clear actor id = run (Rows.clear_notification id actor.id)

unfoldable pub clear_all : Actor → Tx ℕ
unfolding run
clear_all actor = run do
  board_ids ← reads (visible_board_ids actor)
  Rows.clear_all_notifications actor.id (some board_ids)

unfoldable pub unread_count : Actor → Tx ℕ
unfolding read
unread_count actor = read do
  board_ids ← reads (visible_board_ids actor)
  gets (Rows.unread_count actor.id (some board_ids))

abbrev views_of : DbState → List Notification → List NotificationView
views_of db [] = []
views_of db (row ∷ rows) = to_view db row ∷ views_of db rows

-- `list`, of 50 rows where the caller names no limit.
unfoldable pub list_inbox : Actor → Option ℕ → Bool → Tx (List NotificationView)
unfolding read
list_inbox actor limit unread_only = read do
  board_ids ← reads (visible_board_ids actor)
  gets
      (λ db. views_of db (list_notifications actor.id (page limit) unread_only (some board_ids) db))
  where
    page : Option ℕ → ℕ
    page none = 50
    page (some n) = n
