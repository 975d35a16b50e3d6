-- ===== src/Watching.antt =====
-- packages/core/src/services/watch-service.ts: who watches a card after the calls.
use ai_kanban.Prelude.{
  ℕ, ◌+◌, Bool, true, false, ◌≡◌, arith, List, [], ◌∷◌, ◌++◌, Pairwise, Pairwise-append_one,
  any-none, any, remove_first, nat_eq, Bool-cases, inl, inr,
}
use ai_kanban.Domain.Entities.{Actor, Card, CardWatcherRow}
use ai_kanban.Domain.Errors.{ok, with_ok}
use ai_kanban.Db.State.{World, Deps}
use ai_kanban.Db.Tx.{run}
use ai_kanban.Db.Rows.{is_watching, add_watcher, remove_watcher, watches}
use ai_kanban.Services.Access.{accessible_card}
use ai_kanban.Services.Watch.{watch, unwatch}

-- The `(card, user)` rows are unique.
abbrev pub HasUniqueWatchers : List CardWatcherRow → Type 0
HasUniqueWatchers rows = Pairwise (λ r s. watches s.card_id s.user_id r ≡ false) rows

any-append_one :
    (p : CardWatcherRow → Bool) (rows : List CardWatcherRow) (row : CardWatcherRow)
    → p row ≡ true
    → any p (rows ++ row ∷ []) ≡ true
any-append_one p [] row h = ground arith
any-append_one p (x ∷ rows) row h = ground (arith, any-append_one p rows row h)

-- Without a row of the pair, taking it out again gives back the rows before it was put in.
remove_first-append_one :
    (p : CardWatcherRow → Bool) (rows : List CardWatcherRow) (row : CardWatcherRow)
    → any p rows ≡ false
    → p row ≡ true
    → remove_first p (rows ++ row ∷ []) ≡ rows
remove_first-append_one p [] row h k = ground arith
remove_first-append_one p (x ∷ rows) row h k =
    ground (arith, remove_first-append_one p rows row (ground arith) k)

watch-run :
    (deps : Deps) (actor : Actor) (card_id : ℕ) (w w' : World)
    → watch deps actor card_id w ≡ (ok tt, w')
    → (card : Card) × (accessible_card actor card_id w.db ≡ ok card)
      × (w'
          ≡ (add_watcher card_id actor.id
              (deps.now w.clock_calls)
              (record w { clock_calls = w.clock_calls + 1 })).1)
unfolding watch run add_watcher
watch-run deps actor card_id w w' h =
    with_ok (accessible_card actor card_id w.db) (λ e q. ground arith)
      λ card f. (card, f, ground arith)

-- A call to watch that succeeds keeps the watcher rows unique for each card and user, and afterwards
-- the actor watches the card.
pub watch-HasUniqueWatchers :
    (deps : Deps) (actor : Actor) (card_id : ℕ) (w w' : World)
    → HasUniqueWatchers w.db.card_watchers
    → watch deps actor card_id w ≡ (ok tt, w')
    → HasUniqueWatchers w'.db.card_watchers × (is_watching card_id actor.id w'.db ≡ true)
unfolding add_watcher is_watching
watch-HasUniqueWatchers deps actor card_id w w' unique h =
    let (card, f, e) = watch-run deps actor card_id w w' h in
    let row : CardWatcherRow = record {
      card_id = card_id;
      user_id = actor.id;
      created_at = deps.now w.clock_calls;
    } in
    elim (Bool-cases (any (watches card_id actor.id) w.db.card_watchers)) [
      | inl t ↦ rw (e, t) (unique, t)
      | inr n ↦
          rw (e, n)
            (
              Pairwise-append_one _ w.db.card_watchers row unique
                  (any-none (watches card_id actor.id) w.db.card_watchers n),
              any-append_one (watches card_id actor.id) w.db.card_watchers row (ground arith),
            )
    ]

unwatch-run :
    (actor : Actor) (card_id : ℕ) (w w' : World)
    → unwatch actor card_id w ≡ (ok tt, w')
    → w'.db.card_watchers ≡ remove_first (watches card_id actor.id) w.db.card_watchers
unfolding unwatch run remove_watcher
unwatch-run actor card_id w w' h =
    with_ok (accessible_card actor card_id w.db) (λ e q. ground arith) λ card f. ground arith

-- An actor who did not watch a card, watches it and then stops leaves the watcher rows as they were.
pub unwatch-watch :
    (deps : Deps) (actor : Actor) (card_id : ℕ) (w w1 w2 : World)
    → is_watching card_id actor.id w.db ≡ false
    → watch deps actor card_id w ≡ (ok tt, w1)
    → unwatch actor card_id w1 ≡ (ok tt, w2)
    → w2.db.card_watchers ≡ w.db.card_watchers
unfolding add_watcher is_watching
unwatch-watch deps actor card_id w w1 w2 n h k =
    let (card, f, e) = watch-run deps actor card_id w w1 h in
    let r = unwatch-run actor card_id w1 w2 k in
    let row : CardWatcherRow = record {
      card_id = card_id;
      user_id = actor.id;
      created_at = deps.now w.clock_calls;
    } in
    let back =
      remove_first-append_one (watches card_id actor.id) w.db.card_watchers row n (ground arith) in
    ground arith
