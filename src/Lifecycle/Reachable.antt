-- ===== src/Lifecycle/Reachable.antt =====
-- packages/core/src/services/card-service.ts: any run of the operations on cards, whether they succeed or
-- fail, and what holds of every store it reaches.
use ai_kanban.Prelude.{ℕ, ◌≡◌, arith, none, some, List, [], ◌∷◌, refl, ◌∙◌}
use ai_kanban.Domain.Entities.{Actor, Card}
use ai_kanban.Domain.Commands.{CreateCardInput, CreateCardOptions}
use ai_kanban.Domain.Errors.{Result, ok, err}
use ai_kanban.Db.State.{World, Deps}
use ai_kanban.Db.Tx.{Tx, lift, for_each, ◌>>=◌, reads, run}
use ai_kanban.Services.Access.{accessible_card}
use ai_kanban.Services.Internal.{run_with_position_retry}
use ai_kanban.Services.Card
use ai_kanban.Lifecycle.Valid.{Valid}
use ai_kanban.Lifecycle.Keeps.{
  archive_tx-Valid, cancel_tx-Valid, reopen_tx-Valid, set_blocked_flag_tx-Valid,
}
use ai_kanban.Domain.Vocabulary.{CardOrigin, Uuid}
use ai_kanban.Lifecycle.Creations.{create_tx-Valid}
use ai_kanban.Lifecycle.Deletions.{delete_tx-Valid}
use ai_kanban.Lifecycle.MoveKeeps.{move_tx-Valid}
use ai_kanban.Lifecycle.UpdateKeeps.{update_tx-Valid}
use ai_kanban.Lifecycle.Commands.{CardCommand, execute}
use ai_kanban.Lifecycle.Outcomes.{
  EndsValid, run-EndsValid, retry-EndsValid, after-EndsValid, announce, announce_move, announce-db,
  announce_move-db,
}

execute-EndsValid :
    (deps : Deps) (actor : Actor) (card_id : ℕ) (command : CardCommand) (w : World)
    → Valid w.db
    → EndsValid (execute deps actor card_id command) w
unfolding Card.update Card.move Card.cancel Card.reopen Card.archive Card.block Card.unblock
    Card.set_blocked_flag
execute-EndsValid deps actor card_id (CardCommand.update input) w v =
    after-EndsValid (run (Card.update_tx deps actor card_id input)) announce w
      (λ r w1. announce-db r.card r.events w1)
      (run-EndsValid (Card.update_tx deps actor card_id input) w v
        (λ w1 r w' u h. update_tx-Valid deps actor card_id w1 w' u input r h))
execute-EndsValid deps actor card_id (CardCommand.move input) w v =
    after-EndsValid
      (run_with_position_retry (Card.move_tx deps actor card_id input)
        (some (reads (accessible_card actor card_id))))
      announce_move w (λ r w1. announce_move-db r w1)
      (retry-EndsValid (Card.move_tx deps actor card_id input) w v
        (λ w1 r w' u h. move_tx-Valid deps actor card_id w1 w' u input r h)
        (some (reads (accessible_card actor card_id))))
execute-EndsValid deps actor card_id (CardCommand.cancel input) w v =
    after-EndsValid
      (run_with_position_retry (Card.cancel_tx deps actor card_id input)
        (some (reads (accessible_card actor card_id))))
      announce w (λ r w1. announce-db r.card r.events w1)
      (retry-EndsValid (Card.cancel_tx deps actor card_id input) w v
        (λ w1 r w' u h. cancel_tx-Valid deps actor card_id w1 w' u input r h)
        (some (reads (accessible_card actor card_id))))
execute-EndsValid deps actor card_id (CardCommand.reopen e) w v =
    after-EndsValid
      (run_with_position_retry (Card.reopen_tx deps actor card_id e)
        (some (reads (accessible_card actor card_id))))
      announce w (λ r w1. announce-db r.card r.events w1)
      (retry-EndsValid (Card.reopen_tx deps actor card_id e) w v
        (λ w1 r w' u h. reopen_tx-Valid deps actor card_id w1 w' u e r h)
        (some (reads (accessible_card actor card_id))))
execute-EndsValid deps actor card_id (CardCommand.archive e) w v =
    after-EndsValid (run (Card.archive_tx deps actor card_id e)) announce w
      (λ r w1. announce-db r.card r.events w1)
      (run-EndsValid (Card.archive_tx deps actor card_id e) w v
        (λ w1 r w' u h. archive_tx-Valid deps actor card_id w1 w' u e r h))
execute-EndsValid deps actor card_id (CardCommand.unblock e) w v =
    after-EndsValid (run (Card.set_blocked_flag_tx deps actor card_id e none)) announce w
      (λ r w1. announce-db r.card r.events w1)
      (run-EndsValid (Card.set_blocked_flag_tx deps actor card_id e none) w v
        (λ w1 r w' u h. set_blocked_flag_tx-Valid deps actor card_id w1 w' u e none r h))
execute-EndsValid deps actor card_id (CardCommand.block e reason) w v =
    after-EndsValid (run (Card.set_blocked_flag_tx deps actor card_id e (some reason))) announce w
      (λ r w1. announce-db r.card r.events w1)
      (run-EndsValid (Card.set_blocked_flag_tx deps actor card_id e (some reason)) w v
        (λ w1 r w' u h. set_blocked_flag_tx-Valid deps actor card_id w1 w' u e (some reason) r h))

create-EndsValid :
    (deps : Deps) (actor : Actor) (input : CreateCardInput) (options : CreateCardOptions)
    (w : World)
    → Valid w.db
    → EndsValid (Card.create deps actor input options) w
unfolding Card.create
create-EndsValid deps actor input options w v = by_origin (Card.origin_of actor.kind)
  where
    inserted : CardOrigin → Tx Card
    inserted origin =
        run_with_position_retry (Card.create_tx deps actor origin input options) none >>= announce

    by_origin : (origin : Result CardOrigin) → EndsValid (lift origin >>= inserted) w
    by_origin (ok origin) =
        after-EndsValid
          (run_with_position_retry (Card.create_tx deps actor origin input options) none) announce w
          (λ r w1. announce-db r.card r.events w1)
          (retry-EndsValid (Card.create_tx deps actor origin input options) w v
            (λ w1 r w' u h. create_tx-Valid deps actor origin input options r w1 w' u h) none)
    by_origin (err e) = v

pub delete_blob-db :
    (deps : Deps) (key : Uuid) (w : World) → (Card.delete_blob deps key w).1.db ≡ w.db
unfolding Card.delete_blob
delete_blob-db deps key w = ground arith

delete_blobs-db :
    (deps : Deps) (keys : List Uuid) (w : World)
    → (for_each keys (Card.delete_blob deps) w).1.db ≡ w.db
unfolding Card.delete_blob
delete_blobs-db deps [] w = refl
delete_blobs-db deps (k ∷ ks) w =
    delete_blobs-db deps ks ((Card.delete_blob deps k w).1) ∙ delete_blob-db deps k w

delete-EndsValid :
    (deps : Deps) (actor : Actor) (card_id : ℕ) (expected_version : ℕ) (w : World)
    → Valid w.db
    → EndsValid (Card.delete deps actor card_id expected_version) w
unfolding Card.delete
delete-EndsValid deps actor card_id expected_version w v =
    after-EndsValid (run (Card.delete_tx deps actor card_id expected_version))
      (λ keys. for_each keys (Card.delete_blob deps)) w (λ keys w1. delete_blobs-db deps keys w1)
      (run-EndsValid (Card.delete_tx deps actor card_id expected_version) w v
        (λ w1 keys w' u h. delete_tx-Valid deps actor card_id expected_version keys w1 w' u h))

-- The worlds that creations, commands and deletions reach from a world, one after another, each by
-- an actor of its own.
pub data Reaches (deps : Deps) : World → World → Type 0 where
  here : (w : World) → Reaches deps w w
  then_creates :
      (w w' : World)
      → Reaches deps w w'
      → (actor : Actor) (input : CreateCardInput) (options : CreateCardOptions)
      → Reaches deps w ((Card.create deps actor input options w').1)
  then_executes :
      (w w' : World)
      → Reaches deps w w'
      → (actor : Actor) (card_id : ℕ) (command : CardCommand)
      → Reaches deps w ((execute deps actor card_id command w').1)
  then_deletes :
      (w w' : World)
      → Reaches deps w w'
      → (actor : Actor) (card_id : ℕ) (expected_version : ℕ)
      → Reaches deps w ((Card.delete deps actor card_id expected_version w').1)

-- Whatever creations, updates, moves, cancellations, reopenings, archivals, blocks, unblocks and
-- deletions run from a valid store, in whatever order, by whatever actors and with whatever outcome,
-- the store they reach is valid: the ids and the places of cards are distinct, and every card has a
-- lane of its board whose key allows its archived, resolved and waiting fields.
pub Reaches-Valid : (deps : Deps) (w w' : World) → Valid w.db → Reaches deps w w' → Valid w'.db
Reaches-Valid deps w w' v (Reaches.here _) = v
Reaches-Valid deps w w' v (Reaches.then_creates _ w1 r actor input options) =
    create-EndsValid deps actor input options w1 (Reaches-Valid deps w w1 v r)
Reaches-Valid deps w w' v (Reaches.then_executes _ w1 r actor card_id command) =
    execute-EndsValid deps actor card_id command w1 (Reaches-Valid deps w w1 v r)
Reaches-Valid deps w w' v (Reaches.then_deletes _ w1 r actor card_id expected_version) =
    delete-EndsValid deps actor card_id expected_version w1 (Reaches-Valid deps w w1 v r)
