-- ===== src/Inbox/Own.antt =====
-- packages/core/src/services/notification-service.ts: a caller touches only rows of their own.
use ai_kanban.Prelude.{
  ℕ, Bool, true, false, not, none, some, List, [], ◌∷◌, ◌≡◌, inl, inr, refl, arith, map, filter,
  if◌then◌else◌, nat_eq, ◌!=◌, is_some,
}
use ai_kanban.Domain.Vocabulary.{Uuid}
use ai_kanban.Domain.Entities.{Actor}
use ai_kanban.Domain.Events.{Notification}
use ai_kanban.Domain.Errors.{DomainError, Result, ok, err, Result-cases}
use ai_kanban.Db.State.{World, Deps}
use ai_kanban.Db.Tx.{Tx, run, ◌>>◌, pure}
use ai_kanban.Db.Rows
use ai_kanban.Db.Rows.{change_first, is_own, is_unread_of, is_kept}
use ai_kanban.Services.Access.{visible_board_ids}
use ai_kanban.Services.Notification

-- The rows of everyone but the user, in their order.
abbrev pub of_others : Uuid → List Notification → List Notification
of_others user_id rows = filter (λ row. row.user_id != user_id) rows

-- The operations that change a caller's inbox; those that count say what they affected.
pub data InboxCommand : Type 0 where
  mark_read mark_unread clear : Uuid → InboxCommand
  mark_all_read clear_all : InboxCommand

abbrev pub perform : Deps → Actor → InboxCommand → Tx ℕ
perform deps actor (InboxCommand.mark_read id) = Notification.mark_read deps actor id >> pure 1
perform deps actor (InboxCommand.mark_unread id) = Notification.mark_unread actor id >> pure 1
perform deps actor (InboxCommand.clear id) = Notification.clear actor id >> pure 1
perform deps actor InboxCommand.mark_all_read = Notification.mark_all_read deps actor
perform deps actor InboxCommand.clear_all = Notification.clear_all actor

of_others-change_first :
    (user_id id : Uuid) (f : Notification → Notification) (rows : List Notification)
    → ((row : Notification) → (f row).user_id ≡ row.user_id)
    → of_others user_id (change_first (is_own id user_id) f rows) ≡ of_others user_id rows
of_others-change_first user_id id f [] h = refl
of_others-change_first user_id id f (row ∷ rows) h =
    ground (arith, h row, of_others-change_first user_id id f rows h)

of_others-filter :
    (user_id : Uuid) (keep : Notification → Bool) (rows : List Notification)
    → ((row : Notification) → keep row ≡ false → row.user_id ≡ user_id)
    → of_others user_id (filter keep rows) ≡ of_others user_id rows
of_others-filter user_id keep [] h = refl
of_others-filter user_id keep (row ∷ rows) h =
    ground
      (arith, h row, of_others-filter user_id keep rows h, nat_eq.equal_iff row.user_id user_id)

of_others-map :
    (user_id : Uuid) (hit : Notification → Bool) (f : Notification → Notification)
    (rows : List Notification)
    → ((row : Notification) → hit row ≡ true → row.user_id ≡ user_id)
    → ((row : Notification) → (f row).user_id ≡ row.user_id)
    → of_others user_id (map (λ row. if hit row then f row else row) rows) ≡ of_others user_id rows
of_others-map user_id hit f [] h k = refl
of_others-map user_id hit f (row ∷ rows) h k = ground (
  arith,
  h row,
  k row,
  of_others-map user_id hit f rows h k,
  nat_eq.equal_iff row.user_id user_id,
)

with_visible :
    {R : Type 0} (actor : Actor) (w : World)
    → ((e : DomainError) → visible_board_ids actor w.db ≡ err e → R)
    → ((ids : List Uuid) → visible_board_ids actor w.db ≡ ok ids → R)
    → R
with_visible actor w h k = elim (Result-cases (visible_board_ids actor w.db)) [
  | inl (ids, q) ↦ k ids q
  | inr (e, q) ↦ h e q
]

-- No command on an inbox, whatever its outcome, touches the notifications of other users.
pub perform-of_others :
    (deps : Deps) (actor : Actor) (command : InboxCommand) (w w' : World) (x : Result ℕ)
    → perform deps actor command w ≡ (x, w')
    → of_others actor.id w'.db.notifications ≡ of_others actor.id w.db.notifications
unfolding Notification.mark_read Notification.mark_unread Notification.clear
    Notification.mark_all_read Notification.clear_all run Rows.mark_read Rows.mark_unread
    Rows.mark_all_read Rows.clear_notification Rows.clear_all_notifications
perform-of_others deps actor (InboxCommand.mark_read id) w w' x h = ground (
  arith,
  of_others-change_first actor.id id
      (λ row.
        if is_some row.read_at then row else record row { read_at = some (deps.now w.clock_calls) })
      w.db.notifications (λ row. ground arith),
)
perform-of_others deps actor (InboxCommand.mark_unread id) w w' x h = ground (
  arith,
  of_others-change_first actor.id id (λ row. record row { read_at = none }) w.db.notifications
      (λ row. refl),
)
perform-of_others deps actor (InboxCommand.clear id) w w' x h = ground (
  arith,
  of_others-filter actor.id (λ row. not (is_own id actor.id row)) w.db.notifications
      (λ row p. ground arith),
)
perform-of_others deps actor InboxCommand.mark_all_read w w' x h =
    with_visible actor w (λ e q. ground arith)
      λ ids q. ground (
        arith,
        of_others-map actor.id (is_unread_of actor.id w.db (some ids))
            (λ row. record row { read_at = some (deps.now w.clock_calls) }) w.db.notifications
            (λ row p. ground arith) (λ row. refl),
      )
perform-of_others deps actor InboxCommand.clear_all w w' x h =
    with_visible actor w (λ e q. ground arith)
      λ ids q. ground (
        arith,
        of_others-filter actor.id (is_kept actor.id w.db (some ids)) w.db.notifications
            (λ row p. ground arith),
      )
