-- ===== src/Lifecycle/Valid.antt =====
-- packages/core/src/services/card-service.ts and testing/in-memory-db.ts: the stores whose cards have a
-- lane, distinct ids and distinct places, and the two writes of a card.
use ai_kanban.Prelude.{
  ℕ, ◌≡◌, arith, true, false, ◌==◌, nat_eq, position_eq, string_eq, ◌&&◌, List, map, sym, In,
  AllDistinct, All, All-replace_first, All-imp, replace_first, Pairwise, Pairwise-replace_first,
  any-none, beq_sym, some, find, same_by_key, ◌∙◌, find_passes, find-All, All-of_In, All-In,
  All-sort_by, head?-All, In-of_find, filter, In-filter, subst,
}
use ai_kanban.Domain.Vocabulary.{Uuid, LaneKey}
use ai_kanban.Domain.Entities.{Card, Lane, Actor}
use ai_kanban.Domain.Errors.{ok}
use ai_kanban.Db.State.{DbState, World}
use ai_kanban.Db.Cards.{find_card, position_taken}
use ai_kanban.Db.Rows.{find_lane_by_key, list_lanes}
use ai_kanban.Services.Access.{lane_of_card, first_lane, accessible_card}
use ai_kanban.Services.Card.{MutationResult}
use ai_kanban.Lifecycle.Commit.{Committed}
use ai_kanban.Lifecycle.Shape.{FieldsIn}

-- Two cards differ in their ids and in their places.
abbrev pub IsApart : Card → Card → Type 0
IsApart c d =
    ((c.id == d.id) ≡ false) × ((c.lane_id == d.lane_id && c.position == d.position) ≡ false)

-- The card stands in a lane of its board, and its fields say so.
pub record HasLane (lanes : List Lane) (c : Card) : Type 0 where
  pub lane : Lane
  pub is_in : In lane lanes
  pub id_is : lane.id ≡ c.lane_id
  pub board_is : lane.board_id ≡ c.board_id
  pub fields : FieldsIn lane.key c

pub record Valid (db : DbState) : Type 0 where
  pub lane_ids : AllDistinct (map (λ (l : Lane). l.id) db.lanes)
  pub apart : Pairwise IsApart db.cards
  pub lanes : All (HasLane db.lanes) db.cards

IsApart-sym : (c d : Card) → IsApart c d → IsApart d c
IsApart-sym c d (i, p) = (
  beq_sym c.id d.id i,
  ground (arith, beq_sym c.lane_id d.lane_id, beq_sym c.position d.position),
)

-- A free place is apart from every other card.
IsApart-of_free :
    (updated : Card) (cards : List Card)
    → position_taken updated cards ≡ false
    → All (λ c. (c.id == updated.id) ≡ false → IsApart c updated × IsApart updated c) cards
unfolding position_taken
IsApart-of_free updated cards h =
    All-imp _ _ cards
      (λ c q n. let a : IsApart c updated = (n, ground arith) in (a, IsApart-sym c updated a))
      (any-none _ cards h)

-- The write of an existing card at a free place.
pub replace-Valid :
    (db : DbState) (db' : DbState) (updated : Card)
    → Valid db
    → db'.cards ≡ replace_first (λ c. c.id == updated.id) updated db.cards
    → db'.lanes ≡ db.lanes
    → position_taken updated db.cards ≡ false
    → HasLane db.lanes updated
    → Valid db'
replace-Valid db db' updated v c l f h = record {
  lane_ids = rw l v.lane_ids;
  apart = rw c (
      Pairwise-replace_first IsApart (λ c. c.id == updated.id) updated db.cards
        (λ x y (i, p) t. ground arith) v.apart (IsApart-of_free updated db.cards f));
  lanes =
      rw (c, l)
        (All-replace_first (HasLane db.lanes) (λ c. c.id == updated.id) updated db.cards v.lanes h);
}

-- What a committed change of a card keeps.
pub Committed-Valid :
    (actor : Actor) (r : MutationResult) (w w' : World)
    → Valid w.db
    → Committed actor r w w'
    → HasLane w.db.lanes r.card
    → Valid w'.db
Committed-Valid actor r w w' v c h =
    replace-Valid w.db w'.db r.card v c.cards_are c.lanes_are c.was_free h

-- What the lookups of lanes find.
abbrev pub IsLaneOf : DbState → Uuid → Lane → Type 0
IsLaneOf db board_id lane = In lane db.lanes × (lane.board_id ≡ board_id)

list_lanes-All :
    (board_id : Uuid) (db : DbState) → All (IsLaneOf db board_id) (list_lanes board_id db)
unfolding list_lanes
list_lanes-All board_id db = All-sort_by _ (IsLaneOf db board_id) _ (
    All-of_In (IsLaneOf db board_id) (filter (λ (l : Lane). l.board_id == board_id) db.lanes)
      (λ l i.
        let q = (In-filter (λ (l : Lane). l.board_id == board_id) db.lanes l).0 i in
        (q.0, (nat_eq.equal_iff l.board_id board_id).0 q.1)))

pub lane_of_card-lane :
    (card : Card) (db : DbState) (lane : Lane)
    → lane_of_card card db ≡ ok lane
    → IsLaneOf db card.board_id lane × (lane.id ≡ card.lane_id)
unfolding lane_of_card
lane_of_card-lane card db lane h =
    let q =
      find-All (IsLaneOf db card.board_id) (λ lane. lane.id == card.lane_id)
        (list_lanes card.board_id db) lane (list_lanes-All card.board_id db) (ground arith) in
    (q.0, (nat_eq.equal_iff lane.id card.lane_id).0 q.1)

pub find_lane_by_key-lane :
    (board_id : Uuid) (key : LaneKey) (db : DbState) (lane : Lane)
    → find_lane_by_key board_id key db ≡ some lane
    → IsLaneOf db board_id lane × ((lane.key == key) ≡ true)
unfolding find_lane_by_key
find_lane_by_key-lane board_id key db lane h =
    let q = find_passes (λ l. l.board_id == board_id && l.key == key) db.lanes lane h in
    (
      (In-of_find _ db.lanes lane h, (nat_eq.equal_iff lane.board_id board_id).0 (ground arith)),
      ground arith,
    )

pub first_lane-lane :
    (board_id : Uuid) (db : DbState) (lane : Lane)
    → first_lane board_id db ≡ ok lane
    → IsLaneOf db board_id lane
unfolding first_lane
first_lane-lane board_id db lane h =
    head?-All (IsLaneOf db board_id) (list_lanes board_id db) lane (list_lanes-All board_id db)
      (ground arith)

-- The lane that a valid card was found in is the one that its fields are about.
pub home_lane :
    (db : DbState) (card : Card) (lane : Lane) (home : HasLane db.lanes card)
    → Valid db
    → lane_of_card card db ≡ ok lane
    → lane ≡ home.lane
home_lane db card lane home v h =
    let (l, e) = lane_of_card-lane card db lane h in
    same_by_key (λ (l : Lane). l.id) db.lanes lane home.lane v.lane_ids l.0 home.is_in
      (e ∙ sym home.id_is)

pub fields_of_found :
    (db : DbState) (card : Card) (lane : Lane)
    → Valid db
    → In card db.cards
    → lane_of_card card db ≡ ok lane
    → FieldsIn lane.key card
fields_of_found db card lane v i h =
    let home = All-In (HasLane db.lanes) db.cards card v.lanes i in
    subst (λ (l : Lane). FieldsIn l.key card) (sym (home_lane db card lane home v h)) home.fields

-- A card in a lane that a lookup found.
pub has_lane :
    (db : DbState) (card : Card) (lane : Lane)
    → IsLaneOf db card.board_id lane
    → lane.id ≡ card.lane_id
    → FieldsIn lane.key card
    → HasLane db.lanes card
has_lane db card lane (i, b) e f = record {
  lane = lane;
  is_in = i;
  id_is = e;
  board_is = b;
  fields = f;
}

-- A found card is in the table, under the id it was asked for.
pub accessible_card-found :
    (actor : Actor) (card_id : ℕ) (db : DbState) (card : Card)
    → accessible_card actor card_id db ≡ ok card
    → (find_card card_id db ≡ some card) × In card db.cards × (card.id ≡ card_id)
unfolding accessible_card find_card
accessible_card-found actor card_id db card h =
    let f : find (λ c. c.id == card_id) db.cards ≡ some card = ground arith in
    (
      f,
      In-of_find (λ c. c.id == card_id) db.cards card f,
      (nat_eq.equal_iff card.id card_id).0 (find_passes (λ c. c.id == card_id) db.cards card f),
    )
