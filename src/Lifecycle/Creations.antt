-- ===== src/Lifecycle/Creations.antt =====
-- packages/core/src/services/card-service.ts: the transaction of a creation keeps the store valid.
use ai_kanban.Prelude.{
  ℕ, ◌≤◌, ◌≡◌, arith, refl, false, Option, none, some, List, [], ◌∷◌, ◌++◌, ◌∙◌, map, All, All-imp,
  All-zip, or_else, All-append, Pairwise-append_one, option_map, Position, nat_eq, position_eq,
  ◌==◌, any-none,
}
use ai_kanban.Domain.Vocabulary.{Uuid, Instant, CardOrigin}
use ai_kanban.Domain.Entities.{Actor, Card, Lane, Tag}
use ai_kanban.Domain.Commands.{CreateCardInput, CreateCardOptions}
use ai_kanban.Domain.Events.{CardEvent, CardEventBody}
use ai_kanban.Domain.Errors.{Result, ok, with_ok, with_some}
use ai_kanban.Db.State.{DbState, World, Deps}
use ai_kanban.Db.Tx.{Tx, ◌>>=◌, ◌>>◌, pure, bind-ok}
use ai_kanban.Db.Cards.{
  insert_card, assert_unique_position, position_taken, next_card_id, highest_id, first_of_lane,
}
use ai_kanban.Db.Rows.{add_watcher, set_card_tags, append_event}
use ai_kanban.Services.Access.{first_lane}
use ai_kanban.Services.Internal.{resolve_tags, record_event, make_event}
use ai_kanban.Services.Card
use ai_kanban.Lifecycle.Change.{ticked}
use ai_kanban.Lifecycle.Fields.{resolve_tags_from-same}
use ai_kanban.Lifecycle.Valid.{Valid, IsApart, IsLaneOf, HasLane, has_lane, first_lane-lane}

-- Ids grow: the next one is above every card's.
highest_id-All : (cards : List Card) → All (λ (c : Card). c.id ≤ highest_id cards) cards
highest_id-All [] = tt
highest_id-All (c ∷ cs) = (
  omega arith,
  All-imp _ _ cs (λ (x : Card) (q : x.id ≤ highest_id cs). omega (arith, q)) (highest_id-All cs),
)

-- The tables of cards and lanes are as they were.
abbrev SameCards : World → World → Type 0
SameCards w w' = (w'.db.cards ≡ w.db.cards) × (w'.db.lanes ≡ w.db.lanes)

SameCards-trans : (w1 w2 w3 : World) → SameCards w1 w2 → SameCards w2 w3 → SameCards w1 w3
SameCards-trans w1 w2 w3 (a, b) (c, d) = (c ∙ a, d ∙ b)

watch-same :
    (card_id : ℕ) (user : Option Uuid) (now_iso : Instant) (w w' : World) (r : Result (Unit {0}))
    → Card.watch_if_given card_id user now_iso w ≡ (r, w')
    → SameCards w w'
unfolding add_watcher
watch-same card_id none now_iso w w' r h = ground arith
watch-same card_id (some user) now_iso w w' r h = ground arith

tags-same :
    (deps : Deps) (names : List _) (w w' : World) (tags : List Tag)
    → resolve_tags deps names w ≡ (ok tags, w')
    → SameCards w w'
unfolding resolve_tags
tags-same deps names w w' tags h =
    let (c, l, _, _) = resolve_tags_from-same deps [] names w w' tags h in (c, l)

record-same :
    (deps : Deps) (actor : Actor) (card_id : ℕ) (body : CardEventBody) (w w' : World)
    (e : CardEvent)
    → record_event deps actor card_id body w ≡ (ok e, w')
    → SameCards w w'
unfolding record_event make_event append_event
record-same deps actor card_id body w w' e h = ground arith

insert_card-run :
    (card : Card) (w w' : World)
    → insert_card card w ≡ (ok tt, w')
    → (w'.db.cards ≡ w.db.cards ++ card ∷ [])
      × (w'.db.lanes ≡ w.db.lanes)
      × (position_taken card w.db.cards ≡ false)
unfolding insert_card assert_unique_position
insert_card-run card w w' h = ground arith

announce_new_card-same :
    (deps : Deps) (actor : Actor) (input : CreateCardInput) (card : Card) (now_iso : Instant)
    (w w' : World) (r : Card.MutationResult)
    → Card.announce_new_card deps actor input card now_iso w ≡ (ok r, w')
    → SameCards w w'
unfolding Card.announce_new_card set_card_tags add_watcher
announce_new_card-same deps actor input card now_iso w w' r h =
    let (_, w1, p1, h1) =
      bind-ok (add_watcher card.id card.reporter_id now_iso)
        (λ _. Card.watch_if_given card.id card.assignee_id now_iso >> tagged) w w' r h in
    let (_, w2, p2, h2) =
      bind-ok (Card.watch_if_given card.id card.assignee_id now_iso) (λ _. tagged) w1 w' r h1 in
    let (tags, w3, p3, h3) = bind-ok (resolve_tags deps input.tags) logged w2 w' r h2 in
    let (_, w4, p4, h4) =
      bind-ok (set_card_tags card.id (map (λ (tag : Tag). tag.id) tags)) (λ _. recorded tags) w3 w'
        r h3 in
    let (e, w5, p5, h5) =
      bind-ok (record_event deps actor card.id (made tags)) finished w4 w' r h4 in
    SameCards-trans w w2 w'
      (SameCards-trans w w1 w2 (ground arith)
        (watch-same card.id card.assignee_id now_iso w1 w2 (ok tt) p2))
      (SameCards-trans w2 w3 w' (tags-same deps input.tags w2 w3 tags p3) (
        SameCards-trans w3 w4 w' (ground arith) (
          SameCards-trans w4 w5 w' (record-same deps actor card.id (made tags) w4 w5 e p5)
            (ground arith))))
  where
    made : List Tag → CardEventBody
    made tags =
        CardEventBody.card_created
          (record { card = card; tags = map (λ (tag : Tag). tag.name) tags })

    finished : CardEvent → Tx Card.MutationResult
    finished event = pure (record { card = card; events = event ∷ [] })

    recorded : List Tag → Tx Card.MutationResult
    recorded tags = record_event deps actor card.id (made tags) >>= finished

    logged : List Tag → Tx Card.MutationResult
    logged tags = set_card_tags card.id (map (λ (tag : Tag). tag.id) tags) >> recorded tags

    tagged : Tx Card.MutationResult
    tagged = resolve_tags deps input.tags >>= logged

-- A card with a fresh id at a free place is apart from the others.
insert-IsApart :
    (card : Card) (db : DbState)
    → card.id ≡ next_card_id db
    → position_taken card db.cards ≡ false
    → All (λ c. IsApart c card) db.cards
unfolding next_card_id position_taken
insert-IsApart card db i f =
    All-zip _ _ _ db.cards
      (λ (c : Card) (below : c.id ≤ highest_id db.cards) q.
        let new : (c.id == card.id) ≡ false = ground arith in (new, ground arith))
      (highest_id-All db.cards) (any-none _ db.cards f)

module _ (deps : Deps) (actor : Actor) (origin : CardOrigin) (reporter_id : Uuid)
    (input : CreateCardInput) (options : CreateCardOptions) (r : Card.MutationResult)
    (w w' : World) where
  -- The row that a creation inserts at a position.
  abbrev row : Lane → Position → Card
  row entry position =
      Card.new_card deps input options origin reporter_id (next_card_id w.db) entry position
        (deps.now w.clock_calls)

  insert_new-run :
      (entry : Lane)
      → Card.insert_new deps actor origin reporter_id input options entry w ≡ (ok r, w')
      → (position : Position) × (w1 : World) × (insert_card (row entry position) (ticked w)
          ≡ (ok tt, w1))
        × (Card.announce_new_card deps actor input (row entry position) (deps.now w.clock_calls) w1
            ≡ (ok r, w'))
  unfolding Card.insert_new
  insert_new-run entry h =
      with_some
        (deps.generate_key_between none
          (option_map (λ (c : Card). c.position) (first_of_lane entry.id w.db)))
        (λ q. ground arith)
        λ position k.
          let (t, w1, p, q) =
            bind-ok (insert_card (row entry position))
              (λ _.
                Card.announce_new_card deps actor input (row entry position)
                  (deps.now w.clock_calls))
              (ticked w) w' r (ground arith) in
          (position, w1, p, q)

  row-HasLane :
      (entry : Lane) (position : Position)
      → IsLaneOf w.db deps.board_id entry
      → HasLane w.db.lanes (row entry position)
  unfolding Card.new_card
  row-HasLane entry position l =
      has_lane w.db (row entry position) entry l refl
        ((λ e. cc), (λ e. cc), (λ e. cc), (λ e. cc), (refl, refl, omega arith))

  row-id : (entry : Lane) (position : Position) → (row entry position).id ≡ next_card_id w.db
  unfolding Card.new_card
  row-id entry position = refl

  insert_new-Valid :
      (entry : Lane)
      → Valid w.db
      → IsLaneOf w.db deps.board_id entry
      → Card.insert_new deps actor origin reporter_id input options entry w ≡ (ok r, w')
      → Valid w'.db
  insert_new-Valid entry v l h =
      let (position, w1, p, q) = insert_new-run entry h in
      let (c, m, f) = insert_card-run (row entry position) (ticked w) w1 p in
      let (c2, m2) =
        announce_new_card-same deps actor input (row entry position) (deps.now w.clock_calls) w1 w'
          r q in
      record {
        lane_ids = rw (m2 ∙ m) v.lane_ids;
        apart = rw (c2 ∙ c) (
            Pairwise-append_one IsApart w.db.cards (row entry position) v.apart
              (insert-IsApart (row entry position) w.db (row-id entry position) f));
        lanes =
            rw (m2 ∙ m, c2 ∙ c)
              (All-append (HasLane w.db.lanes) w.db.cards (row entry position ∷ []) v.lanes
                (row-HasLane entry position l, tt));
      }

-- A new card has an id and a place of its own, and starts in the first lane of the board.
pub create_tx-Valid :
    (deps : Deps) (actor : Actor) (origin : CardOrigin) (input : CreateCardInput)
    (options : CreateCardOptions) (r : Card.MutationResult) (w w' : World)
    → Valid w.db
    → Card.create_tx deps actor origin input options w ≡ (ok r, w')
    → Valid w'.db
unfolding Card.create_tx
create_tx-Valid deps actor origin input options r w w' v h =
    with_ok (first_lane deps.board_id w.db) (λ e q. ground arith)
      λ entry l.
        insert_new-Valid deps actor origin (or_else options.reporter_id actor.id) input options r w
          w' entry v (first_lane-lane deps.board_id w.db entry l) (ground arith)
