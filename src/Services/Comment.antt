-- ===== src/Services/Comment.antt =====
-- packages/core/src/services/comment-service.ts: `CommentService`.
use ai_kanban.Prelude.{
  ℕ, Bool, true, false, Option, none, some, List, [], ◌∷◌, String, nat_eq, ◌==◌, ◌!=◌, is_some,
  or_else, distinct, if◌then◌else◌,
}
use ai_kanban.Domain.Vocabulary.{Uuid, Instant}
use ai_kanban.Domain.Entities.{Actor, Board, Card, Comment}
use ai_kanban.Domain.Events.{CardEvent, CardEventBody, NotificationKind}
use ai_kanban.Domain.Commands.{AddCommentInput}
use ai_kanban.Domain.Errors.{Result, ok, err, not_found, require_found}
use ai_kanban.Domain.Errors
use ai_kanban.Policy.Engine.{PolicyAction, evaluate_policy, decide}
use ai_kanban.Db.State.{DbState, Deps}
use ai_kanban.Db.Tx.{Tx, ◌>>=◌, ◌>>◌, pure, lift, reads, gets, now, new_id, run, read}
use ai_kanban.Db.Cards.{find_card}
use ai_kanban.Db.Rows.{
  find_comment, insert_comment, update_comment, list_comments, find_user, find_board, add_watcher,
  insert_notification,
}
use ai_kanban.Services.Access.{
  accessible_card, active_policy, can_access_board, as_actor, ensure_not_archived,
}
use ai_kanban.Services.Internal.{record_event, publish_card_hints, redact_deleted_comments}

-- A comment, its card and the event that records the change.
pub record CommentResult : Type 0 where
  pub comment : Comment
  pub card : Card
  pub event : CardEvent

-- A reply to a reply attaches to the same parent.
unfoldable pub parent_of : ℕ → Option Uuid → DbState → Result (Option Uuid)
parent_of card_id none db = ok none
parent_of card_id (some id) db = elim (find_comment id db) [
  | none ↦ err (not_found "parent comment")
  | some parent ↦
      if parent.card_id != card_id
      then err (not_found "parent comment")
      else ok (some (or_else parent.parent_comment_id parent.id))
]

-- Not the author, and an active user who can see the board.
unfoldable pub can_mention : Uuid → Board → Uuid → DbState → Result Bool
can_mention author_id board user_id db =
    if user_id == author_id then ok false else elim (find_user user_id db) [
      | none ↦ ok false
      | some user ↦ if user.is_active then can_access_board db (as_actor user) board else ok false
    ]

-- The mentioned user watches the card and is told of the comment.
unfoldable pub mention : Deps → Uuid → ℕ → Uuid → Instant → Uuid → Tx (Unit {0})
mention deps author_id card_id comment_id now_iso user_id = do
  add_watcher card_id user_id now_iso
  id ← new_id deps
  insert_notification (record {
    id = id;
    user_id = user_id;
    card_id = card_id;
    actor_id = some author_id;
    event_type = NotificationKind.mention;
    comment_id = some comment_id;
    created_at = now_iso;
    read_at = none;
  })

unfoldable pub mention_each : Deps → Board → Uuid → ℕ → Uuid → Instant → List Uuid → Tx (List Uuid)
unfolding can_mention mention
mention_each deps board author_id card_id comment_id now_iso [] = pure []
mention_each deps board author_id card_id comment_id now_iso (user_id ∷ user_ids) = do
  resolved ← reads (can_mention author_id board user_id)
  elim resolved [
    | false ↦ mention_each deps board author_id card_id comment_id now_iso user_ids
    | true ↦ do
      mention deps author_id card_id comment_id now_iso user_id
      rest ← mention_each deps board author_id card_id comment_id now_iso user_ids
      pure (user_id ∷ rest)
  ]

unfoldable pub resolve_mentions : Deps → List Uuid → Uuid → ℕ → Uuid → Instant → Tx (List Uuid)
unfolding mention_each
resolve_mentions deps raw_mentions author_id card_id comment_id now_iso = do
  card ← reads (λ db. require_found (find_card card_id db) "card")
  board ← reads (λ db. require_found (find_board card.board_id db) "board")
  mention_each deps board author_id card_id comment_id now_iso (distinct raw_mentions)

-- Past the guards of `add`.
unfoldable pub post_comment :
    Deps → Actor → Card → Uuid → AddCommentInput → Option Uuid → Tx CommentResult
unfolding resolve_mentions
post_comment deps actor card author_id input parent = do
  now_iso ← now deps
  id ← new_id deps
  let created : Comment = record {
    id = id;
    card_id = card.id;
    parent_comment_id = parent;
    author_id = author_id;
    body = input.body;
    created_at = now_iso;
    updated_at = now_iso;
    deleted_at = none;
  }
  insert_comment created
  add_watcher card.id author_id now_iso
  mentioned ← resolve_mentions deps input.mentions author_id card.id id now_iso
  event ← record_event deps actor card.id (CardEventBody.comment_added id parent mentioned)
  pure (record { comment = created; card = card; event = event })

unfoldable pub add_tx : Deps → Actor → ℕ → AddCommentInput → Option Uuid → Tx CommentResult
unfolding parent_of post_comment
add_tx deps actor card_id input author = do
  card ← reads (accessible_card actor card_id)
  lift (ensure_not_archived card)
  policy ← reads (active_policy card.board_id)
  lift (decide (evaluate_policy actor PolicyAction.comment_add policy))
  reads (λ db. require_found (find_user (or_else author actor.id) db) "author")
  parent ← reads (parent_of card.id input.parent_comment_id)
  post_comment deps actor card (or_else author actor.id) input parent

-- `add`, by a trusted adapter in the name of `author` where it is given.
unfoldable pub add : Deps → Actor → ℕ → AddCommentInput → Option Uuid → Tx Comment
unfolding add_tx run
add deps actor card_id input author = do
  result ← run (add_tx deps actor card_id input author)
  publish_card_hints result.card (result.event ∷ [])
  pure result.comment

unfoldable pub require_active_comment : Uuid → DbState → Result Comment
require_active_comment id db =
    Errors.◌>>=◌ (require_found (find_comment id db) "comment")
      λ comment. if is_some comment.deleted_at then err (not_found "comment") else ok comment

unfoldable pub edit_tx : Deps → Actor → Uuid → (body : String) → Tx CommentResult
unfolding require_active_comment
edit_tx deps actor comment_id body = do
  existing ← reads (require_active_comment comment_id)
  card ← reads (accessible_card actor existing.card_id)
  lift (ensure_not_archived card)
  policy ← reads (active_policy card.board_id)
  lift (decide (evaluate_policy actor (PolicyAction.comment_edit existing.author_id) policy))
  now_iso ← now deps
  let updated : Comment = record existing { body = body; updated_at = now_iso }
  update_comment updated
  event ←
      record_event deps actor card.id
        (CardEventBody.comment_edited updated.id updated.parent_comment_id)
  pure (record { comment = updated; card = card; event = event })

unfoldable pub edit : Deps → Actor → Uuid → (body : String) → Tx Comment
unfolding edit_tx run
edit deps actor comment_id body = do
  result ← run (edit_tx deps actor comment_id body)
  publish_card_hints result.card (result.event ∷ [])
  pure result.comment

unfoldable pub soft_delete_tx : Deps → Actor → Uuid → Tx CommentResult
unfolding require_active_comment
soft_delete_tx deps actor comment_id = do
  existing ← reads (require_active_comment comment_id)
  card ← reads (accessible_card actor existing.card_id)
  lift (ensure_not_archived card)
  policy ← reads (active_policy card.board_id)
  lift (decide (evaluate_policy actor (PolicyAction.comment_delete existing.author_id) policy))
  now_iso ← now deps
  let updated : Comment = record existing { deleted_at = some now_iso; updated_at = now_iso }
  update_comment updated
  event ←
      record_event deps actor card.id
        (CardEventBody.comment_deleted updated.id updated.parent_comment_id)
  pure (record { comment = updated; card = card; event = event })

unfoldable pub soft_delete : Deps → Actor → Uuid → Tx Comment
unfolding soft_delete_tx run
soft_delete deps actor comment_id = do
  result ← run (soft_delete_tx deps actor comment_id)
  publish_card_hints result.card (result.event ∷ [])
  pure result.comment

unfoldable pub list_for_card_tx : Actor → ℕ → Tx (List Comment)
unfolding read
list_for_card_tx actor card_id =
    read do reads (accessible_card actor card_id); gets (list_comments card_id)

-- The thread, with the bodies of deleted comments blanked.
unfoldable pub list_for_card : Actor → ℕ → Tx (List Comment)
unfolding list_for_card_tx
list_for_card actor card_id = do
  thread ← list_for_card_tx actor card_id
  pure (redact_deleted_comments thread)
