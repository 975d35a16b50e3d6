-- ===== src/Lifecycle/Deletions.antt =====
-- packages/core/src/services/card-service.ts: the transaction of a deletion, and the store after it.
use ai_kanban.Prelude.{
  ℕ, ◌≡◌, arith, List, filter, ◌!=◌, nat_eq, All, All-filter, Pairwise-filter, true, map, ◌==◌,
  ◌&&◌, sym, subst, filter-All,
}
use ai_kanban.Domain.Vocabulary.{Uuid}
use ai_kanban.Domain.Entities.{Actor, Card, Attachment}
use ai_kanban.Domain.Errors.{ok, with_ok}
use ai_kanban.Db.State.{DbState, World, Deps}
use ai_kanban.Db.Cards.{hard_delete}
use ai_kanban.Services.Access.{accessible_card, lane_of_card, first_lane, active_policy}
use ai_kanban.Services.Card
use ai_kanban.Lifecycle.Valid.{Valid, IsApart, HasLane}

hard_delete-run :
    (id : ℕ) (keys : List Uuid) (w w' : World)
    → hard_delete id w ≡ (ok keys, w')
    → (w'.db.cards ≡ filter (λ c. c.id != id) w.db.cards) × (w'.db.lanes ≡ w.db.lanes)
unfolding hard_delete
hard_delete-run id keys w w' h = ground arith

hard_delete-Valid :
    (id : ℕ) (keys : List Uuid) (w w' : World)
    → Valid w.db
    → hard_delete id w ≡ (ok keys, w')
    → Valid w'.db
hard_delete-Valid id keys w w' v h =
    let (c, l) = hard_delete-run id keys w w' h in
    record {
      lane_ids = rw l v.lane_ids;
      apart = rw c (Pairwise-filter IsApart (λ (c : Card). c.id != id) w.db.cards v.apart);
      lanes =
          rw (l, c) (All-filter (HasLane w.db.lanes) (λ (c : Card). c.id != id) w.db.cards v.lanes);
    }

delete_tx-run :
    (deps : Deps) (actor : Actor) (card_id v : ℕ) (keys : List Uuid) (w w' : World)
    → Card.delete_tx deps actor card_id v w ≡ (ok keys, w')
    → hard_delete card_id w ≡ (ok keys, w')
unfolding Card.delete_tx
delete_tx-run deps actor card_id v keys w w' h =
    with_ok (accessible_card actor card_id w.db) (λ e q. ground arith)
      λ card a.
        with_ok (active_policy card.board_id w.db) (λ e q. ground arith)
          λ policy p.
            with_ok (lane_of_card card w.db) (λ e q. ground arith)
              λ lane l.
                with_ok (first_lane card.board_id w.db) (λ e q. ground arith)
                  λ entry f. ground arith

pub delete_tx-Valid :
    (deps : Deps) (actor : Actor) (card_id v : ℕ) (keys : List Uuid) (w w' : World)
    → Valid w.db
    → Card.delete_tx deps actor card_id v w ≡ (ok keys, w')
    → Valid w'.db
delete_tx-Valid deps actor card_id v keys w w' u h =
    hard_delete-Valid card_id keys w w' u (delete_tx-run deps actor card_id v keys w w' h)

-- No row of any table is the card, or refers to it.
abbrev pub IsForgotten : ℕ → DbState → Type 0
IsForgotten id db =
    All (λ c. (c.id != id) ≡ true) db.cards
    × All (λ row. (row.card_id != id) ≡ true) db.card_tags
    × All (λ c. (c.card_id != id) ≡ true) db.comments
    × All (λ a. (a.card_id != id) ≡ true) db.attachments
    × All (λ e. (e.card_id != id) ≡ true) db.events
    × All (λ r. (r.from_card_id != id && r.to_card_id != id) ≡ true) db.card_relations
    × All (λ row. (row.card_id != id) ≡ true) db.card_watchers
    × All (λ n. (n.card_id != id) ≡ true) db.notifications

-- The tables after a deletion, each a filter of the one before it.
unfoldable deleted_db : ℕ → DbState → DbState
deleted_db id db = record db {
  card_tags = filter (λ row. row.card_id != id) db.card_tags;
  comments = filter (λ c. c.card_id != id) db.comments;
  attachments = filter (λ a. a.card_id != id) db.attachments;
  events = filter (λ e. e.card_id != id) db.events;
  card_relations = filter (λ r. r.from_card_id != id && r.to_card_id != id) db.card_relations;
  card_watchers = filter (λ row. row.card_id != id) db.card_watchers;
  notifications = filter (λ n. n.card_id != id) db.notifications;
  cards = filter (λ c. c.id != id) db.cards;
}

hard_delete-db :
    (id : ℕ) (keys : List Uuid) (w w' : World)
    → hard_delete id w ≡ (ok keys, w')
    → (w'.db ≡ deleted_db id w.db)
      × (keys
          ≡ map
              (λ (a : Attachment). a.storage_key)
              (filter (λ a. a.card_id == id) w.db.attachments))
unfolding hard_delete deleted_db
hard_delete-db id keys w w' h = (ground arith, ground arith)

deleted_db-IsForgotten : (id : ℕ) (db : DbState) → IsForgotten id (deleted_db id db)
unfolding deleted_db
deleted_db-IsForgotten id db = (
  filter-All _ db.cards,
  filter-All _ db.card_tags,
  filter-All _ db.comments,
  filter-All _ db.attachments,
  filter-All _ db.events,
  filter-All _ db.card_relations,
  filter-All _ db.card_watchers,
  filter-All _ db.notifications,
)

-- A deletion that succeeds leaves no row that is the card or refers to it, and returns the storage
-- keys of exactly the card's attachments, in their order.
pub delete_tx-IsForgotten :
    (deps : Deps) (actor : Actor) (card_id v : ℕ) (keys : List Uuid) (w w' : World)
    → Card.delete_tx deps actor card_id v w ≡ (ok keys, w')
    → IsForgotten card_id w'.db
      × (keys
          ≡ map
              (λ (a : Attachment). a.storage_key)
              (filter (λ a. a.card_id == card_id) w.db.attachments))
delete_tx-IsForgotten deps actor card_id v keys w w' h =
    let (d, k) =
      hard_delete-db card_id keys w w' (delete_tx-run deps actor card_id v keys w w' h) in
    (subst (IsForgotten card_id) (sym d) (deleted_db-IsForgotten card_id w.db), k)
