-- ===== src/Examples/Watchers.antt =====
-- packages/core/src/services/watch-service.ts at the example board.
use ai_kanban.Prelude.{sort_by, ◌≡◌, refl, ◌∷◌, [], true}
use ai_kanban.Domain.Vocabulary.{ActorKind-discrete, TokenScope-discrete, Permission-discrete}
use ai_kanban.Domain.Errors.{ok}
use ai_kanban.Db.State.{World}
use ai_kanban.Db.Tx.{run}
use ai_kanban.Db.Cards.{find_card}
use ai_kanban.Db.Rows.{
  find_board, get_default_board, get_active_policy, add_watcher, remove_watcher, is_watching,
}
use ai_kanban.Policy.Engine.{grant, has_permission}
use ai_kanban.Services.Access.{
  accessible_card, require_board_access, can_access_board, has_membership, global_policy,
}
use ai_kanban.Services.Watch.{watch, unwatch}
use ai_kanban.Watching.{HasUniqueWatchers, watch-HasUniqueWatchers, unwatch-watch}
use ai_kanban.Examples.Data.{deps, member, db, world}

abbrev watched : World
watched = record world {
  db = record db {
    card_watchers = record { card_id = 1; user_id = member.id; created_at = 1000 } ∷ [];
  };
  clock_calls = 1;
}

abbrev unwatched : World
unwatched = record world { clock_calls = 1 }

watches_card : watch deps member 1 world ≡ (ok tt, watched)
unfolding watch run accessible_card require_board_access can_access_board has_membership
    global_policy find_card find_board get_default_board get_active_policy grant has_permission
    ActorKind-discrete TokenScope-discrete Permission-discrete sort_by add_watcher
watches_card = refl

unwatches_card : unwatch member 1 watched ≡ (ok tt, unwatched)
unfolding unwatch run accessible_card require_board_access can_access_board has_membership
    global_policy find_card find_board get_default_board get_active_policy grant has_permission
    ActorKind-discrete TokenScope-discrete Permission-discrete sort_by remove_watcher
unwatches_card = refl

watch-HasUniqueWatchers_example :
    HasUniqueWatchers watched.db.card_watchers × (is_watching 1 member.id watched.db ≡ true)
watch-HasUniqueWatchers_example =
    watch-HasUniqueWatchers deps member 1 world watched tt watches_card

-- The member watches the first card and stops again.
unwatch-watch_example : unwatched.db.card_watchers ≡ world.db.card_watchers
unfolding is_watching
unwatch-watch_example =
    unwatch-watch deps member 1 world watched unwatched refl watches_card unwatches_card
