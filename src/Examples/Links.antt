-- ===== src/Examples/Links.antt =====
-- packages/core/src/services/relation-service.ts at the example board.
use ai_kanban.Prelude.{sort_by, ◌≡◌, refl, [], ◌∷◌}
use ai_kanban.Domain.Vocabulary.{
  RelationType, RelationDirection, ActorKind-discrete, TokenScope-discrete, Permission-discrete,
}
use ai_kanban.Domain.Entities.{Card, CardRelationView}
use ai_kanban.Domain.Commands.{CreateCardRelationInput}
use ai_kanban.Domain.Errors.{ok}
use ai_kanban.Db.State.{World}
use ai_kanban.Db.Tx.{run}
use ai_kanban.Db.Cards.{find_card}
use ai_kanban.Db.Rows.{
  find_board, get_default_board, get_active_policy, relation_exists, insert_relation,
}
use ai_kanban.Policy.Engine.{grant, has_permission, ensure_permission}
use ai_kanban.Services.Access.{
  accessible_card, require_board_access, can_access_board, has_membership, global_policy,
}
use ai_kanban.Services.Relation.{create_relation, create_relation_tx, is_duplicate}
use ai_kanban.Relations.{IsLinked, create_relation-IsLinked}
use ai_kanban.Examples.Data.{deps, member, db, world}

abbrev input : CreateCardRelationInput
input = record { to_card_id = 2; type = RelationType.relates_to }

abbrev view : CardRelationView
view = record {
  id = 500;
  type = RelationType.relates_to;
  direction = RelationDirection.outgoing;
  card = record { id = 2; title = "Oil the press" };
}

abbrev linked : World
linked = record world {
  db = record db {
    card_relations =
        record {
          id = 500;
          from_card_id = 1;
          to_card_id = 2;
          type = RelationType.relates_to;
          created_at = 1000;
        }
        ∷ [];
  };
  clock_calls = 1;
  id_calls = 1;
}

relates_cards : create_relation deps member 1 input world ≡ (ok view, linked)
unfolding create_relation create_relation_tx run accessible_card require_board_access
    can_access_board has_membership global_policy find_card find_board get_default_board
    get_active_policy grant has_permission ensure_permission is_duplicate relation_exists
    insert_relation ActorKind-discrete TokenScope-discrete Permission-discrete sort_by
relates_cards = refl

-- The first two cards of the example board are linked once.
create_relation-IsLinked_example :
    IsLinked linked.db
    × ((from : Card) × (to : Card) × (accessible_card member 1 world.db ≡ ok from)
        × (accessible_card member 2 world.db ≡ ok to)
        × (from.board_id ≡ to.board_id))
create_relation-IsLinked_example =
    create_relation-IsLinked deps member 1 input world linked view (tt, tt) relates_cards
