-- ===== src/Services/Watch.antt =====
-- packages/core/src/services/watch-service.ts: `CardWatchService`.
use ai_kanban.Prelude.{ℕ, Bool}
use ai_kanban.Domain.Entities.{Actor}
use ai_kanban.Db.State.{Deps}
use ai_kanban.Db.Tx.{Tx, ◌>>=◌, ◌>>◌, reads, gets, now, run, read}
use ai_kanban.Db.Rows.{add_watcher, remove_watcher}
use ai_kanban.Db.Rows
use ai_kanban.Services.Access.{accessible_card}

-- `isWatching`
unfoldable pub is_watched_by : Actor → ℕ → Tx Bool
unfolding read
is_watched_by actor card_id =
    read do reads (accessible_card actor card_id); gets (Rows.is_watching card_id actor.id)

unfoldable pub watch : Deps → Actor → ℕ → Tx (Unit {0})
unfolding run
watch deps actor card_id = run do
  reads (accessible_card actor card_id)
  created_at ← now deps
  add_watcher card_id actor.id created_at

unfoldable pub unwatch : Actor → ℕ → Tx (Unit {0})
unfolding run
unwatch actor card_id =
    run do reads (accessible_card actor card_id); remove_watcher card_id actor.id
