-- ===== src/Examples/Comments.antt =====
-- packages/core/src/services/comment-service.ts at the example team.
use ai_kanban.Prelude.{◌≡◌, refl, inl, arith, [], ◌∷◌, none, some, true, ◌||◌, nat_eq, ◌==◌}
use ai_kanban.Domain.Entities.{Comment}
use ai_kanban.Domain.Errors.{ok}
use ai_kanban.Db.State.{World}
use ai_kanban.Policy.Engine.{is_system}
use ai_kanban.Services.Comment.{
  add, add_tx, post_comment, parent_of, resolve_mentions, mention_each, can_mention, mention, edit,
  edit_tx, require_active_comment,
}
use ai_kanban.Prelude.{sort_by, insert_by}
use ai_kanban.Domain.Vocabulary.{ActorKind-discrete, TokenScope-discrete, Permission-discrete}
use ai_kanban.Policy.Engine.{grant, has_permission, evaluate_policy, evaluate_action}
use ai_kanban.Db.Tx.{run}
use ai_kanban.Db.Cards.{find_card}
use ai_kanban.Db.Rows.{
  find_board, find_user, find_comment, get_default_board, get_active_policy, insert_comment,
  update_comment, append_event, insert_notification, add_watcher,
}
use ai_kanban.Services.Access.{
  accessible_card, require_board_access, can_access_board, has_membership, global_policy,
  active_policy,
}
use ai_kanban.Services.Internal.{make_event, record_event, publish_card_hints}
use ai_kanban.Threads.{IsThreaded}
use ai_kanban.Discussion.{CommentCommand, perform, perform-IsThreaded, edit-IsChange}
use ai_kanban.Discussion.Runs.{IsChange}
use ai_kanban.Examples.Data.{deps, member, team, comment}

abbrev reply : CommentCommand
reply =
    CommentCommand.add_comment 1
      (record { body = "Thanks"; parent_comment_id = some 31; mentions = 9 ∷ 9 ∷ 7 ∷ [] }) none

-- The world after the member replied to the second comment, which is a reply itself.
abbrev replied : World
replied = (perform deps member reply team).1

threads : IsThreaded team.db.comments
threads = ((λ p e. cc), ((λ p e. (comment 30 none, (inl refl, ground arith, refl, refl))), tt))

abbrev posted : Comment
posted = record {
  id = 500;
  card_id = 1;
  parent_comment_id = some 30;
  author_id = 7;
  body = "Thanks";
  created_at = 1000;
  updated_at = 1000;
  deleted_at = none;
}

replies : perform deps member reply team ≡ (ok posted, replied)
unfolding add add_tx post_comment parent_of find_comment find_user insert_comment add_watcher
    resolve_mentions mention_each can_mention mention insert_notification accessible_card find_card
    require_board_access find_board can_access_board global_policy get_default_board
    get_active_policy sort_by insert_by has_permission grant has_membership ActorKind-discrete
    TokenScope-discrete Permission-discrete active_policy evaluate_policy evaluate_action make_event
    record_event append_event publish_card_hints run
replies = refl

-- The member replies to a reply.
perform-IsThreaded_example : IsThreaded replied.db.comments
perform-IsThreaded_example =
    perform-IsThreaded deps member reply team replied (ok posted) threads replies

abbrev edited : Comment
edited = record (comment 31 (some 30)) { body = "Thanks"; updated_at = 1000 }

edits : edit deps member 31 "Thanks" team ≡ (ok edited, (edit deps member 31 "Thanks" team).1)
unfolding edit edit_tx require_active_comment find_comment update_comment accessible_card find_card
    require_board_access find_board can_access_board global_policy get_default_board
    get_active_policy sort_by insert_by has_permission grant has_membership ActorKind-discrete
    TokenScope-discrete Permission-discrete active_policy evaluate_policy evaluate_action make_event
    record_event append_event publish_card_hints run
edits = refl

edit-IsChange_example :
    (existing : Comment) × (edited ≡ record existing { body = "Thanks"; updated_at = 1000 })
    × IsChange team (edit deps member 31 "Thanks" team).1 31 existing edited
    × ((is_system member || member.id == existing.author_id) ≡ true)
edit-IsChange_example =
    edit-IsChange deps member 31 "Thanks" team (edit deps member 31 "Thanks" team).1 edited edits
