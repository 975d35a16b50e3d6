-- ===== src/Relations.antt =====
-- packages/core/src/services/relation-service.ts: the links that the service can store.
use ai_kanban.Prelude.{
  ℕ, Bool, false, ◌&&◌, ◌||◌, ◌≡◌, arith, [], ◌∷◌, ◌++◌, All, All-zip, All-append, Pairwise,
  Pairwise-append_one, any-none, nat_eq, ◌==◌, Bool-cases, inl, inr,
}
use ai_kanban.Domain.Vocabulary.{relation_type_eq}
use ai_kanban.Domain.Entities.{Actor, Card, CardRelation, CardRelationView}
use ai_kanban.Domain.Commands.{CreateCardRelationInput}
use ai_kanban.Domain.Errors.{ok, with_ok}
use ai_kanban.Db.State.{DbState, World, Deps}
use ai_kanban.Db.Rows.{relation_exists, insert_relation, links}
use ai_kanban.Services.Access.{accessible_card, global_policy}
use ai_kanban.Services.Relation.{
  create_relation, create_relation_tx, is_duplicate, is_symmetric_relation,
}
use ai_kanban.Transactions.{run-ok}
use ai_kanban.Lifecycle.Valid.{accessible_card-found}

-- The two rows are the same link.
abbrev pub same_link : CardRelation → CardRelation → Bool
same_link r s =
    links s.from_card_id s.to_card_id s.type r
    || (is_symmetric_relation s.type && links s.to_card_id s.from_card_id s.type r)

-- No card is linked to itself, and no link is stored twice, in either direction for a symmetric type.
abbrev pub IsLinked : DbState → Type 0
IsLinked db =
    All (λ (r : CardRelation). (r.to_card_id == r.from_card_id) ≡ false) db.card_relations
    × Pairwise (λ r s. same_link r s ≡ false) db.card_relations

-- The row of a creation that succeeds.
abbrev added : Deps → ℕ → CreateCardRelationInput → World → CardRelation
added deps card_id input w = record {
  id = deps.new_id w.id_calls;
  from_card_id = card_id;
  to_card_id = input.to_card_id;
  type = input.type;
  created_at = deps.now w.clock_calls;
}

create_relation_tx-run :
    (deps : Deps) (actor : Actor) (card_id : ℕ) (input : CreateCardRelationInput) (w w' : World)
    (view : CardRelationView)
    → create_relation_tx deps actor card_id input w ≡ (ok view, w')
    → (from : Card) × (to : Card) × (accessible_card actor card_id w.db ≡ ok from)
      × (accessible_card actor input.to_card_id w.db ≡ ok to)
      × (from.board_id ≡ to.board_id)
      × (is_duplicate from.id to.id input.type w.db ≡ false)
      × (w'.db.card_relations
          ≡ w.db.card_relations
            ++ record (added deps card_id input w) { from_card_id = from.id; to_card_id = to.id }
              ∷ [])
unfolding create_relation_tx insert_relation
create_relation_tx-run deps actor card_id input w w' view h =
    with_ok (accessible_card actor card_id w.db) (λ e q. ground arith)
      λ from f.
        with_ok (accessible_card actor input.to_card_id w.db) (λ e q. ground arith)
          λ to t.
            with_ok (global_policy w.db) (λ e q. ground arith)
              λ policy p. (from, to, f, t, ground arith, ground arith, ground arith)

not_duplicate :
    (row : CardRelation) (db : DbState)
    → is_duplicate row.from_card_id row.to_card_id row.type db ≡ false
    → All (λ r. same_link r row ≡ false) db.card_relations
unfolding is_duplicate relation_exists
not_duplicate row db h = elim (Bool-cases (is_symmetric_relation row.type)) [
  | inl t ↦
      All-zip _ _ _ db.card_relations (λ r p q. ground arith)
        (any-none (links row.from_card_id row.to_card_id row.type) db.card_relations (ground arith))
        (any-none (links row.to_card_id row.from_card_id row.type) db.card_relations (ground arith))
  | inr f ↦
      All-zip _ _ _ db.card_relations (λ r p q. ground arith)
        (any-none (links row.from_card_id row.to_card_id row.type) db.card_relations (ground arith))
        (any-none (links row.from_card_id row.to_card_id row.type) db.card_relations (ground arith))
]

create_relation-run :
    (deps : Deps) (actor : Actor) (card_id : ℕ) (input : CreateCardRelationInput) (w w' : World)
    (view : CardRelationView)
    → create_relation deps actor card_id input w ≡ (ok view, w')
    → ((input.to_card_id == card_id) ≡ false)
      × (create_relation_tx deps actor card_id input w ≡ (ok view, w'))
unfolding create_relation
create_relation-run deps actor card_id input w w' view h =
    elim (Bool-cases (input.to_card_id == card_id)) [
      | inl t ↦ absurd (ground arith)
      | inr f ↦ (f, run-ok (create_relation_tx deps actor card_id input) w w' view (ground arith))
    ]

-- A link that is created joins two cards of one board that the actor can see, and keeps the links
-- free of self-links and of duplicates.
pub create_relation-IsLinked :
    (deps : Deps) (actor : Actor) (card_id : ℕ) (input : CreateCardRelationInput) (w w' : World)
    (view : CardRelationView)
    → IsLinked w.db
    → create_relation deps actor card_id input w ≡ (ok view, w')
    → IsLinked w'.db
      × ((from : Card) × (to : Card) × (accessible_card actor card_id w.db ≡ ok from)
          × (accessible_card actor input.to_card_id w.db ≡ ok to)
          × (from.board_id ≡ to.board_id))
create_relation-IsLinked deps actor card_id input w w' view (loops, pairs) h =
    let (apart, tx) = create_relation-run deps actor card_id input w w' view h in
    let (from, to, f, t, board, new, rows) =
      create_relation_tx-run deps actor card_id input w w' view tx in
    let row : CardRelation = record (added deps card_id input w) {
      from_card_id = from.id;
      to_card_id = to.id;
    } in
    let (_, _, i) = accessible_card-found actor card_id w.db from f in
    let (_, _, j) = accessible_card-found actor input.to_card_id w.db to t in
    (
      (
        rw rows (All-append _ w.db.card_relations (row ∷ []) loops (rw (i, j) apart, tt)),
        rw rows (Pairwise-append_one _ w.db.card_relations row pairs (not_duplicate row w.db new)),
      ),
      (from, to, f, t, board),
    )
