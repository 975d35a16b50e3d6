-- ===== src/Discussion/Runs.antt =====
-- packages/core/src/services/comment-service.ts: what each unit of work does to the comments.
use ai_kanban.Prelude.{
  ℕ, true, Option, none, some, List, [], ◌∷◌, ◌++◌, String, ◌≡◌, refl, arith, replace_first, nat_eq,
  ◌==◌, or_else, ◌||◌, ◌+◌, distinct,
}
use ai_kanban.Domain.Vocabulary.{Uuid, Instant}
use ai_kanban.Domain.Entities.{Actor, Board, Card, Comment}
use ai_kanban.Domain.Commands.{AddCommentInput}
use ai_kanban.Domain.Errors.{ok, with_ok, with_some}
use ai_kanban.Db.State.{World, Deps}
use ai_kanban.Db.Cards.{find_card}
use ai_kanban.Db.Rows.{
  find_comment, update_comment, insert_comment, find_board, add_watcher, insert_notification,
  append_event,
}
use ai_kanban.Policy.Engine.{is_system, evaluate_policy, evaluate_action}
use ai_kanban.Services.Access.{accessible_card, active_policy}
use ai_kanban.Services.Internal.{record_event, make_event}
use ai_kanban.Services.Comment.{
  CommentResult, parent_of, mention, mention_each, resolve_mentions, post_comment, add_tx,
  require_active_comment, edit_tx, soft_delete_tx,
}

mention-comments :
    (deps : Deps) (author : Uuid) (card_id : ℕ) (comment_id : Uuid) (at : Instant) (id : Uuid)
    (w : World)
    → (mention deps author card_id comment_id at id w).1.db.comments ≡ w.db.comments
unfolding mention add_watcher insert_notification
mention-comments deps author card_id comment_id at id w = ground arith

mention_each-comments :
    (deps : Deps) (board : Board) (author : Uuid) (card_id : ℕ) (comment_id : Uuid) (at : Instant)
    (ids : List Uuid) (w : World)
    → (mention_each deps board author card_id comment_id at ids w).1.db.comments ≡ w.db.comments
unfolding mention_each
mention_each-comments deps board author card_id comment_id at [] w = refl
mention_each-comments deps board author card_id comment_id at (id ∷ ids) w = ground (
  arith,
  mention-comments deps author card_id comment_id at id w,
  mention_each-comments deps board author card_id comment_id at ids w,
  mention_each-comments deps board author card_id comment_id at ids
      (mention deps author card_id comment_id at id w).1,
)

resolve_mentions-comments :
    (deps : Deps) (ids told : List Uuid) (author : Uuid) (card_id : ℕ) (comment_id : Uuid)
    (at : Instant) (w w' : World)
    → resolve_mentions deps ids author card_id comment_id at w ≡ (ok told, w')
    → w'.db.comments ≡ w.db.comments
unfolding resolve_mentions
resolve_mentions-comments deps ids told author card_id comment_id at w w' h =
    with_some (find_card card_id w.db) (λ e. ground arith)
      λ card f.
        with_some (find_board card.board_id w.db) (λ e. ground arith)
          λ board g.
            ground (
              arith,
              mention_each-comments deps board author card_id comment_id at (distinct ids) w,
            )

-- The comment of a call to add that succeeds.
abbrev pub created : Deps → Card → Uuid → AddCommentInput → Option Uuid → World → Comment
created deps card author input parent w = record {
  id = deps.new_id w.id_calls;
  card_id = card.id;
  parent_comment_id = parent;
  author_id = author;
  body = input.body;
  created_at = deps.now w.clock_calls;
  updated_at = deps.now w.clock_calls;
  deleted_at = none;
}

-- The world in which the mentions of the new comment are resolved.
abbrev posted : Deps → Card → Uuid → AddCommentInput → Option Uuid → World → World
posted deps card author input parent w =
    let at = deps.now w.clock_calls in
    (add_watcher card.id author at
      (insert_comment (created deps card author input parent w)
        (record w { clock_calls = w.clock_calls + 1; id_calls = w.id_calls + 1 })).1).1

pub post_comment-comments :
    (deps : Deps) (actor : Actor) (card : Card) (author : Uuid) (input : AddCommentInput)
    (parent : Option Uuid) (w w' : World) (r : CommentResult)
    → post_comment deps actor card author input parent w ≡ (ok r, w')
    → (r.comment ≡ created deps card author input parent w)
      × (w'.db.comments ≡ w.db.comments ++ created deps card author input parent w ∷ [])
unfolding post_comment record_event make_event append_event insert_comment add_watcher
post_comment-comments deps actor card author input parent w w' r h =
    let before = posted deps card author input parent w in
    let run =
      resolve_mentions deps input.mentions author card.id (deps.new_id w.id_calls)
        (deps.now w.clock_calls) before in
    with_ok run.0 (λ e q. ground arith)
      λ told q.
        let same : run.1.db.comments ≡ before.db.comments =
          resolve_mentions-comments deps input.mentions told author card.id (deps.new_id w.id_calls)
            (deps.now w.clock_calls) before run.1 (ground arith) in
        (ground arith, ground arith)

pub add_tx-run :
    (deps : Deps) (actor : Actor) (card_id : ℕ) (input : AddCommentInput) (author : Option Uuid)
    (w w' : World) (r : CommentResult)
    → add_tx deps actor card_id input author w ≡ (ok r, w')
    → (card : Card) × (parent : Option Uuid) × (accessible_card actor card_id w.db ≡ ok card)
      × (card.archived_at ≡ none)
      × (parent_of card.id input.parent_comment_id w.db ≡ ok parent)
      × (post_comment deps actor card (or_else author actor.id) input parent w ≡ (ok r, w'))
unfolding add_tx
add_tx-run deps actor card_id input author w w' r h =
    with_ok (accessible_card actor card_id w.db) (λ e q. ground arith)
      λ card f.
        with_ok (parent_of card.id input.parent_comment_id w.db) (λ e q. ground arith)
          λ parent g. (card, parent, f, ground arith, g, ground arith)

-- The first comment of the id was not deleted and is replaced.
abbrev pub IsChange : World → World → Uuid → Comment → Comment → Type 0
IsChange w w' id existing updated =
    (find_comment id w.db ≡ some existing)
    × (existing.deleted_at ≡ none)
    × (w'.db.comments ≡ replace_first (λ c. c.id == updated.id) updated w.db.comments)

pub edit_tx-run :
    (deps : Deps) (actor : Actor) (id : Uuid) (body : String) (w w' : World) (r : CommentResult)
    → edit_tx deps actor id body w ≡ (ok r, w')
    → (existing : Comment) × (r.comment
        ≡ record existing { body = body; updated_at = deps.now w.clock_calls })
      × IsChange w w' id existing r.comment
      × ((is_system actor || actor.id == existing.author_id) ≡ true)
unfolding evaluate_policy evaluate_action edit_tx require_active_comment update_comment record_event
    make_event append_event
edit_tx-run deps actor id body w w' r h =
    with_some (find_comment id w.db) (λ e. ground arith)
      λ existing f.
        with_ok (accessible_card actor existing.card_id w.db) (λ e q. ground arith)
          λ card g.
            with_ok (active_policy card.board_id w.db) (λ e q. ground arith)
              λ policy p. (existing, ground arith, (f, ground arith, ground arith), ground arith)

pub soft_delete_tx-run :
    (deps : Deps) (actor : Actor) (id : Uuid) (w w' : World) (r : CommentResult)
    → soft_delete_tx deps actor id w ≡ (ok r, w')
    → (existing : Comment) × (r.comment ≡ record existing {
      deleted_at = some (deps.now w.clock_calls);
      updated_at = deps.now w.clock_calls;
    })
      × IsChange w w' id existing r.comment
unfolding soft_delete_tx require_active_comment update_comment record_event make_event append_event
soft_delete_tx-run deps actor id w w' r h =
    with_some (find_comment id w.db) (λ e. ground arith)
      λ existing f.
        with_ok (accessible_card actor existing.card_id w.db) (λ e q. ground arith)
          λ card g.
            with_ok (active_policy card.board_id w.db) (λ e q. ground arith)
              λ policy p. (existing, ground arith, (f, ground arith, ground arith))
