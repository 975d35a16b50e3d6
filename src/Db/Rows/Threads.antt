-- ===== src/Db/Rows/Threads.antt =====
-- packages/core/src/testing/in-memory-db.ts: the comment, attachment, tag, relation and watcher
-- repositories.
use ai_kanban.Prelude.{
  ℕ, Bool, ◌&&◌, ◌||◌, not, Option, List, [], ◌∷◌, ◌++◌, nat_eq, string_eq, ◌==◌, ◌!=◌,
  if◌then◌else◌, filter, find, any, replace_first, remove_first, sort_by, ltb, map, String,
}
use mathlib.Core.List.{filter_map}
use ai_kanban.Domain.Vocabulary.{Uuid, Instant, RelationType, relation_type_eq}
use ai_kanban.Domain.Entities.{Comment, Attachment, Tag, CardTagRow, CardRelation, CardWatcherRow}
use ai_kanban.Domain.Errors.{not_found}
use ai_kanban.Db.State.{DbState, Deps}
use ai_kanban.Db.Tx.{Tx, ◌>>=◌, ◌>>◌, modify, gets, throw_if}

unfoldable pub find_comment : Uuid → DbState → Option Comment
find_comment id db = find (λ c. c.id == id) db.comments

unfoldable pub insert_comment : Comment → Tx (Unit {0})
insert_comment comment = modify λ db. record db { comments = db.comments ++ comment ∷ [] }

unfoldable pub update_comment : Comment → Tx (Unit {0})
update_comment comment = do
  present ← gets (λ db. any (λ c. c.id == comment.id) db.comments)
  throw_if (not present) (not_found "comment")
  modify
      (λ db. record db { comments = replace_first (λ c. c.id == comment.id) comment db.comments })

-- A card's comments, oldest first.
unfoldable pub list_comments : ℕ → DbState → List Comment
list_comments card_id db =
    sort_by
      (λ a b. ltb a.created_at b.created_at || (a.created_at == b.created_at && ltb a.id b.id))
      (filter (λ c. c.card_id == card_id) db.comments)

unfoldable pub find_attachment : Uuid → DbState → Option Attachment
find_attachment id db = find (λ a. a.id == id) db.attachments

unfoldable pub insert_attachment : Attachment → Tx (Unit {0})
insert_attachment attachment =
    modify λ db. record db { attachments = db.attachments ++ attachment ∷ [] }

unfoldable pub update_attachment : Attachment → Tx (Unit {0})
update_attachment attachment = do
  present ← gets (λ db. any (λ a. a.id == attachment.id) db.attachments)
  throw_if (not present) (not_found "attachment")
  modify (λ db. record db {
    attachments = replace_first (λ a. a.id == attachment.id) attachment db.attachments;
  })

unfoldable pub list_attachments : ℕ → DbState → List Attachment
list_attachments card_id db =
    sort_by (λ a b. ltb a.created_at b.created_at)
      (filter (λ a. a.card_id == card_id) db.attachments)

-- `findByNameCi`
unfoldable pub find_tag_by_name : Deps → String → DbState → Option Tag
find_tag_by_name deps name db =
    find (λ tag. deps.to_lower_case tag.name == deps.to_lower_case name) db.tags

unfoldable pub insert_tag : Tag → Tx (Unit {0})
insert_tag tag = modify λ db. record db { tags = db.tags ++ tag ∷ [] }

-- A card's tags, in the order of its links; a link to no tag is skipped.
unfoldable pub list_tags : ℕ → DbState → List Tag
unfolding filter_map
list_tags card_id db =
    filter_map (λ (row : CardTagRow). find (λ tag. tag.id == row.tag_id) db.tags)
      (filter (λ row. row.card_id == card_id) db.card_tags)

unfoldable pub set_card_tags : ℕ → List Uuid → Tx (Unit {0})
set_card_tags card_id tag_ids = modify λ db. record db {
  card_tags =
      filter (λ row. row.card_id != card_id) db.card_tags
      ++ map (λ tag_id. record { card_id = card_id; tag_id = tag_id }) tag_ids;
}

-- The rows that touch a card, newest first.
unfoldable pub list_relations : ℕ → DbState → List CardRelation
list_relations card_id db =
    sort_by
      (λ a b. ltb b.created_at a.created_at || (a.created_at == b.created_at && ltb b.id a.id))
      (filter (λ r. r.from_card_id == card_id || r.to_card_id == card_id) db.card_relations)

unfoldable pub find_relation : Uuid → DbState → Option CardRelation
find_relation id db = find (λ r. r.id == id) db.card_relations

abbrev pub links : ℕ → ℕ → RelationType → CardRelation → Bool
links from_card_id to_card_id type r =
    r.from_card_id == from_card_id && r.to_card_id == to_card_id && r.type == type

unfoldable pub relation_exists : ℕ → ℕ → RelationType → DbState → Bool
relation_exists from_card_id to_card_id type db =
    any (links from_card_id to_card_id type) db.card_relations

unfoldable pub insert_relation : CardRelation → Tx (Unit {0})
insert_relation relation =
    modify λ db. record db { card_relations = db.card_relations ++ relation ∷ [] }

unfoldable pub delete_relation : Uuid → Tx (Unit {0})
delete_relation id =
    modify λ db. record db { card_relations = remove_first (λ r. r.id == id) db.card_relations }

abbrev pub watches : ℕ → Uuid → CardWatcherRow → Bool
watches card_id user_id row = row.card_id == card_id && row.user_id == user_id

unfoldable pub is_watching : ℕ → Uuid → DbState → Bool
is_watching card_id user_id db = any (watches card_id user_id) db.card_watchers

unfoldable pub list_watcher_ids : ℕ → DbState → List Uuid
list_watcher_ids card_id db =
    map (λ (row : CardWatcherRow). row.user_id)
      (filter (λ row. row.card_id == card_id) db.card_watchers)

-- Idempotent: a second watch changes nothing.
unfoldable pub add_watcher : ℕ → Uuid → Instant → Tx (Unit {0})
add_watcher card_id user_id created_at = modify λ db.
    if any (watches card_id user_id) db.card_watchers then db else record db {
      card_watchers =
          db.card_watchers
          ++ record { card_id = card_id; user_id = user_id; created_at = created_at } ∷ [];
    }

unfoldable pub remove_watcher : ℕ → Uuid → Tx (Unit {0})
remove_watcher card_id user_id =
    modify
      λ db. record db { card_watchers = remove_first (watches card_id user_id) db.card_watchers }
