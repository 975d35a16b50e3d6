-- ===== src/Discussion.antt =====
-- packages/core/src/services/comment-service.ts: what the operations on comments do to the threads.
pub mod Runs
use ai_kanban.Prelude.{
  ℕ, true, Option, none, some, List, [], ◌∷◌, ◌++◌, String, ◌≡◌, ◌⊎◌, inl, inr, refl, arith, find,
  find_passes, replace_first, nat_eq, ◌==◌, or_else, ◌||◌, ◌+◌, distinct,
}
use ai_kanban.Domain.Vocabulary.{Uuid, Instant}
use ai_kanban.Domain.Entities.{Actor, Board, Card, Comment}
use ai_kanban.Domain.Commands.{AddCommentInput}
use ai_kanban.Domain.Errors.{Result, ok, with_ok, with_some, ok-cancel}
use ai_kanban.Db.State.{World, Deps}
use ai_kanban.Db.Tx.{Tx, run}
use ai_kanban.Db.Cards.{find_card}
use ai_kanban.Db.Rows.{
  find_comment, update_comment, insert_comment, find_board, add_watcher, insert_notification,
  append_event,
}
use ai_kanban.Policy.Engine.{is_system, evaluate_policy, evaluate_action}
use ai_kanban.Services.Access.{accessible_card, active_policy}
use ai_kanban.Services.Internal.{record_event, make_event}
use ai_kanban.Services.Comment.{
  CommentResult, parent_of, mention, mention_each, resolve_mentions, post_comment, add_tx, add,
  require_active_comment, edit_tx, edit, soft_delete_tx, soft_delete,
}
use ai_kanban.Transactions.{mutation-run}
use ai_kanban.Threads.{
  SamePlace, IsThreaded, parent_of-IsRoot, append_one-IsThreaded, replace_first-IsThreaded,
}
use ai_kanban.Discussion.Runs.{
  IsChange, post_comment-comments, add_tx-run, edit_tx-run, soft_delete_tx-run,
}

-- The operations that change comments.
pub data CommentCommand : Type 0 where
  add_comment : ℕ → AddCommentInput → (author : Option Uuid) → CommentCommand
  edit_comment : Uuid → (body : String) → CommentCommand
  delete_comment : Uuid → CommentCommand

abbrev pub perform : Deps → Actor → CommentCommand → Tx Comment
perform deps actor (CommentCommand.add_comment card_id input author) =
    add deps actor card_id input author
perform deps actor (CommentCommand.edit_comment id body) = edit deps actor id body
perform deps actor (CommentCommand.delete_comment id) = soft_delete deps actor id

abbrev perform_tx : Deps → Actor → CommentCommand → Tx CommentResult
perform_tx deps actor (CommentCommand.add_comment card_id input author) =
    add_tx deps actor card_id input author
perform_tx deps actor (CommentCommand.edit_comment id body) = edit_tx deps actor id body
perform_tx deps actor (CommentCommand.delete_comment id) = soft_delete_tx deps actor id

-- A command that fails changes no table, and one that succeeds leaves what its unit of work wrote.
perform-run :
    (deps : Deps) (actor : Actor) (command : CommentCommand) (w w' : World) (x : Result Comment)
    → perform deps actor command w ≡ (x, w')
    → ((w'.db ≡ w.db) × ((a : Comment) → x ≡ ok a → ⊥))
      ⊎ ((r : CommentResult) × (w1 : World) × (x ≡ ok r.comment)
          × (perform_tx deps actor command w ≡ (ok r, w1))
          × (w'.db ≡ w1.db))
unfolding add edit soft_delete
perform-run deps actor (CommentCommand.add_comment card_id input author) w w' x h =
    mutation-run (add_tx deps actor card_id input author) (λ r. r.card) (λ r. r.event ∷ [])
      (λ r. r.comment) w w' x h
perform-run deps actor (CommentCommand.edit_comment id body) w w' x h =
    mutation-run (edit_tx deps actor id body) (λ r. r.card) (λ r. r.event ∷ []) (λ r. r.comment) w
      w' x h
perform-run deps actor (CommentCommand.delete_comment id) w w' x h =
    mutation-run (soft_delete_tx deps actor id) (λ r. r.card) (λ r. r.event ∷ []) (λ r. r.comment) w
      w' x h

changed-IsThreaded :
    (w w' : World) (id : Uuid) (existing updated : Comment)
    → IsChange w w' id existing updated
    → SamePlace existing updated
    → IsThreaded w.db.comments
    → IsThreaded w'.db.comments
unfolding find_comment
changed-IsThreaded w w' id existing updated (f, d, rows) (a, b, c) t =
    let same : updated.id ≡ id =
      ground (arith, find_passes (λ c. c.id == id) w.db.comments existing f) in
    let at : find (λ (c : Comment). c.id == updated.id) w.db.comments ≡ some existing = rw same f in
    rw rows (
      replace_first-IsThreaded (λ c. c.id == updated.id) updated w.db.comments existing at (a, b, c)
        t)

perform_tx-IsThreaded :
    (deps : Deps) (actor : Actor) (command : CommentCommand) (w w' : World) (r : CommentResult)
    → IsThreaded w.db.comments
    → perform_tx deps actor command w ≡ (ok r, w')
    → IsThreaded w'.db.comments
perform_tx-IsThreaded deps actor (CommentCommand.add_comment card_id input author) w w' r t h =
    let (card, parent, f, a, g, run) = add_tx-run deps actor card_id input author w w' r h in
    let (c, rows) =
      post_comment-comments deps actor card (or_else author actor.id) input parent w w' r run in
    rw rows (
      append_one-IsThreaded w.db.comments _ t
        λ p e. parent_of-IsRoot card.id input.parent_comment_id w.db p t (cc (g, e)))
perform_tx-IsThreaded deps actor (CommentCommand.edit_comment id body) w w' r t h =
    let (existing, c, (f, d, rows), own) = edit_tx-run deps actor id body w w' r h in
    changed-IsThreaded w w' id existing r.comment (f, d, rows) (ground arith) t
perform_tx-IsThreaded deps actor (CommentCommand.delete_comment id) w w' r t h =
    let (existing, c, (f, d, rows)) = soft_delete_tx-run deps actor id w w' r h in
    changed-IsThreaded w w' id existing r.comment (f, d, rows) (ground arith) t

-- Whatever call to add, edit or delete a comment runs, and whatever its outcome, the threads keep one
-- level: each reply has a parent on its own card that is no reply itself.
pub perform-IsThreaded :
    (deps : Deps) (actor : Actor) (command : CommentCommand) (w w' : World) (x : Result Comment)
    → IsThreaded w.db.comments
    → perform deps actor command w ≡ (x, w')
    → IsThreaded w'.db.comments
perform-IsThreaded deps actor command w w' x t h = elim (perform-run deps actor command w w' x h) [
  | inl (e, no_result) ↦ rw e t
  | inr (r, w1, e, run, same) ↦ rw same (perform_tx-IsThreaded deps actor command w w1 r t run)
]

-- An edit that succeeds is by the author or the system, of a comment that is not deleted; its result
-- is that comment with the new body and time, put in its place, and no other comment changes.
pub edit-IsChange :
    (deps : Deps) (actor : Actor) (id : Uuid) (body : String) (w w' : World) (a : Comment)
    → edit deps actor id body w ≡ (ok a, w')
    → (existing : Comment) × (a
        ≡ record existing { body = body; updated_at = deps.now w.clock_calls })
      × IsChange w w' id existing a
      × ((is_system actor || actor.id == existing.author_id) ≡ true)
edit-IsChange deps actor id body w w' a h =
    elim (perform-run deps actor (CommentCommand.edit_comment id body) w w' (ok a) h) [
      | inl (e, no_result) ↦ absurd (no_result a refl)
      | inr (r, w1, e, run, same) ↦
          let (existing, c, (f, d, rows), own) = edit_tx-run deps actor id body w w1 r run in
          let k : a ≡ r.comment = ok-cancel e in (existing, rw k c, rw (k, same) (f, d, rows), own)
    ]
