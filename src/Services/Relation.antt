-- ===== src/Services/Relation.antt =====
-- packages/core/src/services/relation-service.ts: `CardRelationService`.
use ai_kanban.Prelude.{
  ℕ, Bool, true, false, ◌&&◌, ◌||◌, Option, none, some, List, [], ◌∷◌, nat_eq, ◌==◌, ◌!=◌,
  if◌then◌else◌,
}
use ai_kanban.Domain.Vocabulary.{Uuid, Permission, RelationType, RelationDirection}
use ai_kanban.Domain.Entities.{Actor, Card, CardRelation, CardRelationView}
use ai_kanban.Domain.Commands.{CreateCardRelationInput}
use ai_kanban.Domain.Errors.{Result, ok, conflict, not_found, require_found}
use ai_kanban.Domain.Errors
use ai_kanban.Policy.Engine.{ensure_permission}
use ai_kanban.Db.State.{DbState, Deps}
use ai_kanban.Db.Tx.{Tx, ◌>>=◌, ◌>>◌, pure, lift, reads, gets, now, new_id, run, read, throw_if}
use ai_kanban.Db.Cards.{find_card}
use ai_kanban.Db.Rows.{
  find_board, list_relations, find_relation, relation_exists, insert_relation, delete_relation,
}
use ai_kanban.Services.Access.{accessible_card, can_access_board, global_policy}

-- `SYMMETRIC_RELATION_TYPES`
abbrev pub is_symmetric_relation : RelationType → Bool
is_symmetric_relation RelationType.relates_to = true
is_symmetric_relation RelationType.blocks = false
is_symmetric_relation RelationType.duplicates = false

abbrev view_of : CardRelation → RelationDirection → Card → CardRelationView
view_of relation direction other = record {
  id = relation.id;
  type = relation.type;
  direction = direction;
  card = record { id = other.id; title = other.title };
}

abbrev direction_of : ℕ → CardRelation → RelationDirection
direction_of card_id relation =
    if relation.from_card_id == card_id
    then RelationDirection.outgoing
    else RelationDirection.incoming

abbrev other_id : ℕ → CardRelation → ℕ
other_id card_id relation =
    if relation.from_card_id == card_id then relation.to_card_id else relation.from_card_id

-- The other card's side, unless it is gone or on a board that the actor cannot see.
unfoldable pub to_view : Actor → ℕ → CardRelation → DbState → Result (Option CardRelationView)
to_view actor card_id relation db = elim (find_card (other_id card_id relation) db) [
  | none ↦ ok none
  | some other ↦ elim (find_board other.board_id db) [
    | none ↦ ok none
    | some board ↦ Errors.◌>>=◌ (can_access_board db actor board) λ visible.
        ok (if visible then some (view_of relation (direction_of card_id relation) other) else none)
  ]
]

abbrev keep_view : Option CardRelationView → List CardRelationView → List CardRelationView
keep_view none views = views
keep_view (some view) views = view ∷ views

unfoldable pub views_of : Actor → ℕ → List CardRelation → DbState → Result (List CardRelationView)
unfolding to_view
views_of actor card_id [] db = ok []
views_of actor card_id (relation ∷ relations) db =
    Errors.◌>>=◌ (to_view actor card_id relation db)
      λ view. Errors.◌>>=◌ (views_of actor card_id relations db) λ views. ok (keep_view view views)

unfoldable pub list_views : Actor → ℕ → Tx (List CardRelationView)
unfolding views_of read
list_views actor card_id = read do
  reads (accessible_card actor card_id)
  reads (λ db. views_of actor card_id (list_relations card_id db) db)

-- The same link exists, in either direction where the type is symmetric.
unfoldable pub is_duplicate : ℕ → ℕ → RelationType → DbState → Bool
is_duplicate from to type db =
    relation_exists from to type db
    || (is_symmetric_relation type && relation_exists to from type db)

unfoldable pub create_relation_tx : Deps → Actor → ℕ → CreateCardRelationInput → Tx CardRelationView
unfolding is_duplicate
create_relation_tx deps actor card_id input = do
  from ← reads (accessible_card actor card_id)
  to ← reads (accessible_card actor input.to_card_id)
  throw_if (from.board_id != to.board_id) (conflict "related cards must be on the same board" none)
  policy ← reads global_policy
  lift (ensure_permission actor Permission.card_update policy)
  duplicate ← gets (is_duplicate from.id to.id input.type)
  throw_if duplicate (conflict "that relation already exists" none)
  id ← new_id deps
  created_at ← now deps
  let relation : CardRelation = record {
    id = id;
    from_card_id = from.id;
    to_card_id = to.id;
    type = input.type;
    created_at = created_at;
  }
  insert_relation relation
  pure (view_of relation RelationDirection.outgoing to)

unfoldable pub create_relation : Deps → Actor → ℕ → CreateCardRelationInput → Tx CardRelationView
unfolding create_relation_tx run
create_relation deps actor card_id input = do
  throw_if (input.to_card_id == card_id) (conflict "a card cannot be related to itself" none)
  run (create_relation_tx deps actor card_id input)

unfoldable pub remove_relation_tx : Actor → ℕ → (relation_id : Uuid) → Tx (Unit {0})
remove_relation_tx actor card_id relation_id = do
  reads (accessible_card actor card_id)
  policy ← reads global_policy
  lift (ensure_permission actor Permission.card_update policy)
  relation ← reads (λ db. require_found (find_relation relation_id db) "relation")
  throw_if (relation.from_card_id != card_id && relation.to_card_id != card_id)
      (not_found "relation")
  delete_relation relation_id

unfoldable pub remove_relation : Actor → ℕ → (relation_id : Uuid) → Tx (Unit {0})
unfolding remove_relation_tx run
remove_relation actor card_id relation_id = run (remove_relation_tx actor card_id relation_id)
