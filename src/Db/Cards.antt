-- ===== src/Db/Cards.antt =====
-- packages/core/src/testing/in-memory-db.ts: `InMemoryCardRepository`.
use Prim.Native.String
use text.Mathlib.Text.{find? as index_of}
use ai_kanban.Prelude.{
  ℕ, ◌+◌, max, Bool, true, false, ◌&&◌, ◌||◌, not, Option, none, some, List, [], ◌∷◌, ◌++◌, String,
  Position, lt_key, position_eq, nat_eq, string_eq, option_eq, bool_eq, sort_by, ltb, ◌==◌, ◌!=◌,
  is_some, if◌then◌else◌, filter, find, any, includes, head?, get_last?, replace_first, map, length,
  option_map,
}
use ai_kanban.Domain.Vocabulary.{Uuid, Date, Priority, priority_eq}
use ai_kanban.Domain.Entities.{Card, Attachment}
use ai_kanban.Domain.Errors.{ok, err, not_found, duplicate_position}
use ai_kanban.Db.State.{DbState, Deps}
use ai_kanban.Db.Tx.{Tx, ◌>>=◌, ◌>>◌, pure, modify, gets, throw_if}

unfoldable pub find_card : ℕ → DbState → Option Card
find_card id db = find (λ c. c.id == id) db.cards

-- The highest id plus one.
abbrev pub highest_id : List Card → ℕ
highest_id [] = 0
highest_id (c ∷ cs) = max c.id (highest_id cs)

unfoldable pub next_card_id : DbState → ℕ
next_card_id db = highest_id db.cards + 1

-- Another card holds the card's place in its lane.
unfoldable pub position_taken : Card → List Card → Bool
position_taken card cards =
    any (λ c. c.id != card.id && c.lane_id == card.lane_id && c.position == card.position) cards

unfoldable pub assert_unique_position : Card → Tx (Unit {0})
unfolding position_taken
assert_unique_position card w =
    if w.fail_next_card_position_write
    then (err duplicate_position, record w { fail_next_card_position_write = false })
    else if position_taken card w.db.cards
    then (err duplicate_position, w)
    else (ok tt, w)

unfoldable pub insert_card : Card → Tx (Unit {0})
unfolding assert_unique_position
insert_card card = do
  assert_unique_position card
  modify (λ db. record db { cards = db.cards ++ card ∷ [] })

unfoldable pub update_card : Card → Tx (Unit {0})
unfolding assert_unique_position
update_card card = do
  present ← gets (λ db. any (λ c. c.id == card.id) db.cards)
  throw_if (not present) (not_found "card")
  assert_unique_position card
  modify (λ db. record db { cards = replace_first (λ c. c.id == card.id) card db.cards })

abbrev by_position : Card → Card → Bool
by_position a b = lt_key a.position b.position

unfoldable pub list_by_lane : Uuid → DbState → List Card
list_by_lane lane_id db = sort_by by_position (filter (λ c. c.lane_id == lane_id) db.cards)

-- `listByLane` with `activeOnly`.
unfoldable pub list_active_by_lane : Uuid → DbState → List Card
list_active_by_lane lane_id db =
    sort_by by_position
      (filter (λ c. not (is_some c.archived_at)) (filter (λ c. c.lane_id == lane_id) db.cards))

unfoldable pub count_active_by_lane : Uuid → DbState → ℕ
unfolding list_active_by_lane
count_active_by_lane lane_id db = length (list_active_by_lane lane_id db)

unfoldable pub first_of_lane : Uuid → DbState → Option Card
unfolding list_by_lane
first_of_lane lane_id db = head? (list_by_lane lane_id db)

unfoldable pub last_of_lane : Uuid → DbState → Option Card
unfolding list_by_lane
last_of_lane lane_id db = get_last? (list_by_lane lane_id db)

-- Before `next_position`, which is the end of the lane if it is absent.
abbrev pub precedes : Option Position → Card → Bool
precedes none c = true
precedes (some next_position) c = lt_key c.position next_position

unfoldable pub position_before : Uuid → Option Position → ℕ → DbState → Option Position
unfolding list_by_lane
position_before lane_id next_position moving_card_id db =
    option_map (λ (c : Card). c.position)
      (get_last? (
        filter (λ c. c.id != moving_card_id && precedes next_position c) (list_by_lane lane_id db)))

-- `CardQueryFilter`: an absent field does not constrain.
pub record CardQueryFilter : Type 0 where
  pub board_id : Option Uuid
  pub lane_id : Option Uuid
  pub lane_ids : Option (List Uuid)
  pub assignee_id : Option Uuid
  pub assignee_ids : Option (List Uuid)
  pub reporter_id : Option Uuid
  pub reporter_ids : Option (List Uuid)
  pub priority : Option Priority
  pub priorities : Option (List Priority)
  pub location_ids : Option (List Uuid)
  pub overdue_candidate : Bool
  pub blocked : Option Bool
  pub waiting_reason : Option String
  pub overdue_before : Option Date
  pub tags : List String
  pub q : Option String
  pub include_archived : Bool
  pub archived_only : Bool

abbrev pub no_filter : CardQueryFilter
no_filter = record {
  board_id = none;
  lane_id = none;
  lane_ids = none;
  assignee_id = none;
  assignee_ids = none;
  reporter_id = none;
  reporter_ids = none;
  priority = none;
  priorities = none;
  location_ids = none;
  overdue_candidate = false;
  blocked = none;
  waiting_reason = none;
  overdue_before = none;
  tags = [];
  q = none;
  include_archived = false;
  archived_only = false;
}

module _ {A : Type 0} where
  -- The test holds of the field's value, if it is given.
  abbrev if_given : Option A → (A → Bool) → Bool
  if_given none test = true
  if_given (some a) test = test a

  -- The test holds of a value that is present.
  abbrev is_present_and : Option A → (A → Bool) → Bool
  is_present_and none test = false
  is_present_and (some a) test = test a

-- The lower-case names of the card's tags.
unfoldable pub lower_tag_names : Deps → ℕ → DbState → List String
lower_tag_names deps card_id db =
    let tag_ids =
      map (λ (row : _). row.tag_id) (filter (λ row. row.card_id == card_id) db.card_tags) in
    map (λ tag. deps.to_lower_case tag.name) (filter (λ tag. includes tag_ids tag.id) db.tags)

-- `names.some((name) => wanted.includes(name))`
abbrev has_any_tag : Deps → DbState → Card → List String → Bool
has_any_tag deps db card [] = true
has_any_tag deps db card (t ∷ ts) =
    let wanted = map deps.to_lower_case (t ∷ ts) in
    any (λ name. includes wanted name) (lower_tag_names deps card.id db)

abbrev archived_matches : CardQueryFilter → Card → Bool
archived_matches f card =
    if f.archived_only
    then is_some card.archived_at
    else f.include_archived || not (is_some card.archived_at)

unfoldable pub matches : Deps → DbState → CardQueryFilter → Card → Bool
unfolding lower_tag_names
matches deps db f card =
    archived_matches f card
    && if_given f.board_id (λ x. card.board_id == x)
    && if_given f.lane_id (λ x. card.lane_id == x)
    && if_given f.lane_ids (λ xs. includes xs card.lane_id)
    && if_given f.assignee_id (λ x. card.assignee_id == some x)
    && if_given f.assignee_ids (λ xs. is_present_and card.assignee_id (includes xs))
    && if_given f.reporter_id (λ x. card.reporter_id == x)
    && if_given f.reporter_ids (λ xs. includes xs card.reporter_id)
    && if_given f.priority (λ x. card.priority == x)
    && if_given f.priorities (λ xs. includes xs card.priority)
    && if_given f.location_ids (λ xs. is_present_and card.location_id (includes xs))
    && (not f.overdue_candidate || (is_some card.work_started_at && is_some card.estimate_minutes))
    && if_given f.blocked (λ x. card.blocked == x)
    && if_given f.waiting_reason (λ x. card.waiting_reason == some x)
    && if_given f.overdue_before (λ x. is_present_and card.expected_resume_at (λ d. ltb d x))
    && has_any_tag deps db card f.tags
    && if_given f.q (λ x. is_some (
        index_of (deps.to_lower_case (String.◌++◌ card.title (String.◌++◌ "\n" card.description)))
          (deps.to_lower_case x)))

-- Newest first, the higher id first among equals.
abbrev newest_first : Card → Card → Bool
newest_first a b = ltb b.created_at a.created_at || (a.created_at == b.created_at && ltb b.id a.id)

unfoldable pub query : Deps → CardQueryFilter → DbState → List Card
unfolding matches
query deps f db = sort_by newest_first (filter (matches deps db f) db.cards)

-- The card goes with every row that refers to it; the storage keys of its attachments are returned.
unfoldable pub hard_delete : ℕ → Tx (List Uuid)
hard_delete id = do
  present ← gets (λ db. any (λ c. c.id == id) db.cards)
  throw_if (not present) (not_found "card")
  storage_keys ←
      gets (λ db.
        map (λ (a : Attachment). a.storage_key) (filter (λ a. a.card_id == id) db.attachments))
  modify (λ db. record db {
    card_tags = filter (λ row. row.card_id != id) db.card_tags;
    comments = filter (λ c. c.card_id != id) db.comments;
    attachments = filter (λ a. a.card_id != id) db.attachments;
    events = filter (λ e. e.card_id != id) db.events;
    card_relations = filter (λ r. r.from_card_id != id && r.to_card_id != id) db.card_relations;
    card_watchers = filter (λ row. row.card_id != id) db.card_watchers;
    notifications = filter (λ n. n.card_id != id) db.notifications;
    cards = filter (λ c. c.id != id) db.cards;
  })
  pure storage_keys
