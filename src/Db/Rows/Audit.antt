-- ===== src/Db/Rows/Audit.antt =====
-- packages/core/src/testing/in-memory-db.ts: the event and notification repositories.
use ai_kanban.Prelude.{
  ℕ, ◌-◌, Bool, true, ◌&&◌, ◌||◌, not, Option, none, some, List, [], ◌∷◌, ◌++◌, nat_eq, option_eq,
  ◌==◌, ◌!=◌, is_some, if◌then◌else◌, filter, find, any, includes, sort_by, ltb, map, length, take,
}
use mathlib.Core.List.{reverse}
use ai_kanban.Domain.Vocabulary.{Uuid, Instant}
use ai_kanban.Domain.Events.{CardEvent, CardEventType, event_type, event_type_eq, Notification}
use ai_kanban.Domain.Errors.{Result}
use ai_kanban.Db.State.{DbState}
use ai_kanban.Db.Tx.{Tx, modify}

unfoldable pub append_event : CardEvent → Tx (Unit {0})
append_event event = modify λ db. record db { events = db.events ++ event ∷ [] }

unfoldable pub find_event : Uuid → DbState → Option CardEvent
find_event id db = find (λ e. e.id == id) db.events

abbrev event_before : CardEvent → CardEvent → Bool
event_before a b = ltb a.created_at b.created_at || (a.created_at == b.created_at && ltb a.id b.id)

-- `listByCard` by types, oldest first.
unfoldable pub list_events : ℕ → List CardEventType → DbState → List CardEvent
list_events card_id types db = sort_by event_before (
    filter (λ e. includes types (event_type e.body)) (filter (λ e. e.card_id == card_id) db.events))

-- `listLatestByCard`: the newest events of the types, newest first.
unfoldable pub list_latest_events : ℕ → ℕ → List CardEventType → DbState → List CardEvent
unfolding list_events
list_latest_events card_id limit types db = take limit (reverse (list_events card_id types db))

unfoldable pub insert_notification : Notification → Tx (Unit {0})
insert_notification n = modify λ db. record db { notifications = db.notifications ++ n ∷ [] }

-- The notification's card stands on one of the boards; absent boards do not constrain.
abbrev pub on_boards : DbState → Option (List Uuid) → Notification → Bool
on_boards db none row = true
on_boards db (some board_ids) row =
    any (λ card. card.id == row.card_id && includes board_ids card.board_id) db.cards

unfoldable pub list_notifications :
    Uuid → ℕ → Bool → Option (List Uuid) → DbState → List Notification
list_notifications user_id limit unread_only board_ids db = take limit (
    sort_by
      (λ a b. ltb b.created_at a.created_at || (a.created_at == b.created_at && ltb b.id a.id))
      (filter
        (λ row.
          row.user_id == user_id
          && (not unread_only || not (is_some row.read_at))
          && on_boards db board_ids row)
        db.notifications))

abbrev pub is_unread_of : Uuid → DbState → Option (List Uuid) → Notification → Bool
is_unread_of user_id db board_ids row =
    row.user_id == user_id && not (is_some row.read_at) && on_boards db board_ids row

unfoldable pub unread_count : Uuid → Option (List Uuid) → DbState → ℕ
unread_count user_id board_ids db =
    length (filter (is_unread_of user_id db board_ids) db.notifications)

-- `find` and then an assignment to the row it found.
abbrev pub change_first :
    (Notification → Bool) → (Notification → Notification) → List Notification → List Notification
change_first p f [] = []
change_first p f (x ∷ xs) = if p x then f x ∷ xs else x ∷ change_first p f xs

abbrev pub is_own : Uuid → Uuid → Notification → Bool
is_own id user_id row = row.id == id && row.user_id == user_id

unfoldable pub mark_read : Uuid → Uuid → Instant → Tx (Unit {0})
mark_read id user_id read_at = modify λ db. record db {
  notifications =
      change_first (is_own id user_id)
        (λ row. if is_some row.read_at then row else record row { read_at = some read_at })
        db.notifications;
}

unfoldable pub mark_unread : Uuid → Uuid → Tx (Unit {0})
mark_unread id user_id = modify λ db. record db {
  notifications =
      change_first (is_own id user_id) (λ row. record row { read_at = none }) db.notifications;
}

unfoldable pub mark_all_read : Uuid → Instant → Option (List Uuid) → Tx ℕ
mark_all_read user_id read_at board_ids w = (
  Result.ok (length (filter (is_unread_of user_id w.db board_ids) w.db.notifications)),
  record w {
    db = record (w.db) {
      notifications =
          map
            (λ row.
              if is_unread_of user_id w.db board_ids row
              then record row { read_at = some read_at }
              else row)
            w.db.notifications;
    };
  },
)

unfoldable pub clear_notification : Uuid → Uuid → Tx (Unit {0})
clear_notification id user_id =
    modify λ db. record db {
      notifications = filter (λ row. not (is_own id user_id row)) db.notifications;
    }

abbrev pub is_kept : Uuid → DbState → Option (List Uuid) → Notification → Bool
is_kept user_id db board_ids row = row.user_id != user_id || not (on_boards db board_ids row)

unfoldable pub clear_all_notifications : Uuid → Option (List Uuid) → Tx ℕ
clear_all_notifications user_id board_ids w =
    let kept = filter (is_kept user_id w.db board_ids) w.db.notifications in
    (
      Result.ok (length w.db.notifications - length kept),
      record w { db = record (w.db) { notifications = kept } },
    )
