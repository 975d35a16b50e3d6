-- ===== src/Inbox.antt =====
-- packages/core/src/services/notification-service.ts: who is told of an event.
pub mod Own
use ai_kanban.Prelude.{
  ℕ, ◌+◌, Bool, true, not, ◌&&◌, ◌||◌, Option, none, some, List, [], ◌∷◌, ◌++◌, ◌≡◌, ◌⊎◌, refl, map,
  In, All, if◌then◌else◌, nat_eq, ◌≢◌,
}
use ai_kanban.Domain.Vocabulary.{Uuid, Instant}
use ai_kanban.Domain.Entities.{Board, Card, User}
use ai_kanban.Domain.Events.{CardEvent, CardEventBody, event_type, Notification, NotificationKind}
use ai_kanban.Domain.Errors.{DomainError, Result, ok, err, ok-cancel}
use ai_kanban.Db.State.{DbState, World, Deps}
use ai_kanban.Db.Tx.{Tx}
use ai_kanban.Db.Rows.{find_user, insert_notification}
use ai_kanban.Services.Access.{can_access_board, as_actor}
use ai_kanban.Services.Notification.{notify, comment_id_of}
use ai_kanban.Transactions.{run-ok}

-- A comment, by the event that adds it, mentions the user.
abbrev pub IsMentioned : CardEventBody → Uuid → Type 0
IsMentioned (CardEventBody.comment_added comment_id parent_id ids) id = In id ids
IsMentioned _ id = ⊥

-- An active user who can see the board, and neither caused the event nor was mentioned in it.
abbrev pub IsRecipient : DbState → CardEvent → Board → Uuid → Type 0
IsRecipient db event board id =
    (event.actor_id ≢ some id)
    × (¬ IsMentioned event.body id)
    × ((user : User) × (find_user id db ≡ some user)
        × (user.is_active ≡ true)
        × (can_access_board db (as_actor user) board ≡ ok true))

-- The rows of a fan-out: one unread row for each recipient, in their order.
abbrev pub IsTold : CardEvent → ℕ → List Uuid → List Notification → Type 0
IsTold event card_id ids rows =
    (map (λ (n : Notification). n.user_id) rows ≡ ids)
    × All
        (λ (n : Notification).
          (n.card_id ≡ card_id)
          × (n.actor_id ≡ event.actor_id)
          × (n.event_type ≡ NotificationKind.event (event_type event.body))
          × (n.comment_id ≡ comment_id_of event.body)
          × (n.read_at ≡ none))
        rows

notify-run :
    (deps : Deps) (event : CardEvent) (card_id : ℕ) (at : Instant) (id : Uuid) (w : World)
    → let n : Notification = record {
      id = deps.new_id w.id_calls;
      user_id = id;
      card_id = card_id;
      actor_id = event.actor_id;
      event_type = NotificationKind.event (event_type event.body);
      comment_id = comment_id_of event.body;
      created_at = at;
      read_at = none;
    } in
      notify deps event card_id at id w ≡ (
        ok tt,
        record w {
          id_calls = w.id_calls + 1;
          db = record (w.db) { notifications = w.db.notifications ++ n ∷ [] };
        },
      )
unfolding insert_notification
notify-run deps event card_id at id w = refl
