-- ===== src/Services/Internal.antt =====
-- packages/core/src/services/internal.ts: events, hints, tags and the retry on a taken position.
use ai_kanban.Prelude.{
  ℕ, Bool, true, false, ◌&&◌, Option, none, some, List, [], ◌∷◌, map, String, nat_eq, string_eq,
  ◌==◌, if◌then◌else◌, includes, distinct, get_last?, is_some, option_map, sort_by,
}
use Prim.Native.Nat.{Ordering}
use Prim.Native.String
use ai_kanban.Domain.Vocabulary.{Uuid, ActorKind, actor_kind_eq}
use ai_kanban.Domain.Entities.{Actor, Card, Comment, Tag}
use ai_kanban.Domain.Events.{CardEvent, CardEventBody, event_type, SseHint}
use ai_kanban.Domain.Errors.{DomainError, ok, err, conflict, duplicate_position}
use ai_kanban.Db.State.{Deps}
use ai_kanban.Db.Tx.{Tx, ◌>>=◌, ◌>>◌, pure, raise, gets, now, new_id, publish, run, read}
use ai_kanban.Db.Rows.{append_event, find_tag_by_name, insert_tag}

abbrev pub actor_label : Actor → Option String
actor_label actor =
    if actor.kind == ActorKind.agent then option_map (λ c. c.name) actor.client else none

abbrev pub event_actor_id : Actor → Option Uuid
event_actor_id actor = if actor.kind == ActorKind.system then none else some actor.id

unfoldable pub make_event : Deps → Actor → ℕ → CardEventBody → Tx CardEvent
make_event deps actor card_id body = do
  id ← new_id deps
  created_at ← now deps
  pure (record {
    id = id;
    card_id = card_id;
    actor_id = event_actor_id actor;
    actor_kind = actor.kind;
    actor_label = actor_label actor;
    created_at = created_at;
    body = body;
  })

-- One event of the mutation, built and appended.
unfoldable pub record_event : Deps → Actor → ℕ → CardEventBody → Tx CardEvent
unfolding make_event append_event
record_event deps actor card_id body = do
  event ← make_event deps actor card_id body
  append_event event
  pure event

abbrev hint_of : Card → CardEvent → SseHint
hint_of card event = SseHint.card (record {
  type = event_type event.body;
  card_id = card.id;
  version = card.version;
  event_id = event.id;
})

-- One hint for a mutation: its last event stands for all of them.
unfoldable pub publish_card_hints : Card → List CardEvent → Tx (Unit {0})
publish_card_hints card events = elim (get_last? events) [
  | none ↦ pure tt
  | some last ↦ publish (hint_of card last)
]

abbrev pub is_duplicate_position : DomainError → Bool
is_duplicate_position duplicate_position = true
is_duplicate_position _ = false

abbrev pub read_current : Option (Tx Card) → Tx (Option Card)
read_current none = pure none
read_current (some current_card) = do current ← read current_card; pure (some current)

module _ {A : Type 0} where
  -- A second violation in a row is a conflict that carries the current card.
  unfoldable pub persisted_conflict : Option (Tx Card) → Tx A
  unfolding read
  persisted_conflict current_card = do
    current ← read_current current_card
    raise (conflict "position conflict persisted after retry" current)

  -- The second attempt, and what becomes of its error.
  unfoldable pub retry : Tx A → Option (Tx Card) → Tx A
  unfolding run persisted_conflict
  retry fn current_card w =
      let (r, w') = run fn w in
      elim r [
        | ok a ↦ (ok a, w')
        | err e ↦
            if is_duplicate_position e then persisted_conflict current_card w' else (err e, w')
      ]

  -- The unit of work, retried once where a position was taken.
  unfoldable pub run_with_position_retry : Tx A → Option (Tx Card) → Tx A
  unfolding run retry
  run_with_position_retry fn current_card w =
      let (r, w') = run fn w in
      elim r [
        | ok a ↦ (ok a, w')
        | err e ↦ if is_duplicate_position e then retry fn current_card w' else (err e, w')
      ]

unfoldable pub create_tag : Deps → String → Option Tag → Tx Tag
unfolding insert_tag
create_tag deps name (some tag) = pure tag
create_tag deps name none = do
  id ← new_id deps
  let tag : Tag = record { id = id; name = name }
  insert_tag tag
  pure tag

unfoldable pub resolve_tag : Deps → String → Tx Tag
unfolding create_tag
resolve_tag deps name = do
  existing ← gets (find_tag_by_name deps name)
  create_tag deps name existing

-- The loop of `resolveTags`; `seen` holds the lower-case names met so far.
unfoldable pub resolve_tags_from : Deps → List String → List String → Tx (List Tag)
unfolding resolve_tag
resolve_tags_from deps seen [] = pure []
resolve_tags_from deps seen (name ∷ names) =
    let ci = deps.to_lower_case name in
    elim (includes seen ci) [
      | true ↦ resolve_tags_from deps seen names
      | false ↦ do
        tag ← resolve_tag deps name
        rest ← resolve_tags_from deps (ci ∷ seen) names
        pure (tag ∷ rest)
    ]

unfoldable pub resolve_tags : Deps → List String → Tx (List Tag)
unfolding resolve_tags_from
resolve_tags deps names = resolve_tags_from deps [] names

-- Blanks the bodies of deleted comments.
abbrev pub redact_deleted_comments : List Comment → List Comment
redact_deleted_comments thread =
    map (λ comment. if is_some comment.deleted_at then record comment { body = "" } else comment)
      thread

abbrev text_before : String → String → Bool
text_before a b = elim (String.compare a b) [ Ordering.lt ↦ true | _ ↦ false ]

abbrev normalize : Deps → List String → List String
normalize deps names = sort_by text_before (distinct (map deps.to_lower_case names))

abbrev same_items : List String → List String → Bool
same_items [] [] = true
same_items (a ∷ xs) [] = false
same_items [] (b ∷ ys) = false
same_items (a ∷ xs) (b ∷ ys) = a == b && same_items xs ys

-- Set equality of tag names, whatever their case.
unfoldable pub same_tag_set : Deps → List String → List String → Bool
same_tag_set deps a b = same_items (normalize deps a) (normalize deps b)
