-- ===== src/Lifecycle/MoveKeeps.antt =====
-- packages/core/src/services/card-service.ts: the transaction of a move keeps the store valid.
use ai_kanban.Prelude.{
  ℕ, ◌≡◌, true, false, ◌==◌, nat_eq, string_eq, Option, none, sym, subst, inl, inr, arith, refl,
  same_by_key,
}
use ai_kanban.Domain.Vocabulary.{Instant, LaneKey, waiting_key}
use ai_kanban.Domain.Entities.{Actor, Card, Lane}
use ai_kanban.Domain.Commands.{MoveCardInput}
use ai_kanban.Domain.Errors.{ok}
use ai_kanban.Db.State.{DbState, World, Deps}
use ai_kanban.Services.Access.{lane_by_key}
use ai_kanban.Services.Card
use ai_kanban.Lifecycle.Moves.{write_move-run, move_tx-run}
use ai_kanban.Lifecycle.Shape.{FieldsIn, placed_card-FieldsIn, change_lane-FieldsIn}
use ai_kanban.Lifecycle.Valid.{Valid, IsLaneOf, lane_of_card-lane, find_lane_by_key-lane}
use ai_kanban.Lifecycle.Keeps.{commit-Valid, found_fields}

lane_by_key-lane :
    (board_id : _) (key : LaneKey) (db : DbState) (lane : Lane)
    → lane_by_key board_id key db ≡ ok lane
    → IsLaneOf db board_id lane
unfolding lane_by_key
lane_by_key-lane board_id key db lane h =
    (find_lane_by_key-lane board_id key db lane (ground arith)).0

-- A change of lanes leaves the card's place alone.
pub change_lane-place :
    (lane target : Lane) (fields : Option Card.WaitingFields) (started : Option Instant)
    (card : Card)
    → ((Card.change_lane lane target fields started card).board_id ≡ card.board_id)
      × ((Card.change_lane lane target fields started card).lane_id ≡ card.lane_id)
      × ((Card.change_lane lane target fields started card).id ≡ card.id)
      × ((Card.change_lane lane target fields started card).version ≡ card.version)
unfolding Card.change_lane
change_lane-place lane target fields started card = ground arith

-- Where a moved card lands, and with which fields.
abbrev LandsIn : DbState → Lane → Card → Type 0
LandsIn db target updated =
    IsLaneOf db updated.board_id target
    × (target.id ≡ updated.lane_id)
    × FieldsIn target.key updated

module _ (db : DbState) (v : Valid db) (card : Card) (lane target : Lane)
    (fields : FieldsIn lane.key card) (l : IsLaneOf db card.board_id lane)
    (t : IsLaneOf db card.board_id target) (now_iso : Instant) (position : _) where
  reordered-LandsIn :
      (target.id == lane.id) ≡ true
      → LandsIn db target (Card.placed_card target position now_iso card)
  unfolding Card.placed_card
  reordered-LandsIn same =
      let q : target ≡ lane =
        same_by_key (λ (x : Lane). x.id) db.lanes target lane v.lane_ids t.0 l.0
          ((nat_eq.equal_iff target.id lane.id).0 same) in
      (
        t,
        refl,
        placed_card-FieldsIn target.key card
            (subst (λ (x : Lane). FieldsIn x.key card) (sym q) fields) target position now_iso,
      )

  status_changed-LandsIn :
      (waiting_fields : Option Card.WaitingFields) (started : Option Instant)
      → card.archived_at ≡ none
      → ((target.key == waiting_key) ≡ false → waiting_fields ≡ none)
      → LandsIn db target (
          Card.change_lane lane target waiting_fields started
            (Card.placed_card target position now_iso card))
  unfolding Card.placed_card
  status_changed-LandsIn waiting_fields started a f =
      let (b, m, _, _) =
        change_lane-place lane target waiting_fields started
          (Card.placed_card target position now_iso card) in
      (
        (t.0, rw b t.1),
        sym m,
        change_lane-FieldsIn lane target waiting_fields started
            (Card.placed_card target position now_iso card)
            (placed_card-FieldsIn lane.key card fields target position now_iso) a f,
      )

pub move_tx-Valid :
    (deps : Deps) (actor : Actor) (card_id : ℕ) (w w' : World)
    → Valid w.db
    → (input : MoveCardInput) (r : Card.MoveResult)
    → Card.move_tx deps actor card_id input w ≡ (ok r, w')
    → Valid w'.db
move_tx-Valid deps actor card_id w w' v input r h =
    let (card, a, _, ar, (lane, l, (target, t, _, (fields, f, k)))) =
      move_tx-run deps actor input r w w' card_id h in
    let (position, _, (updated, body, w1, same, _, c, how)) =
      write_move-run deps actor input r w w' card lane target fields k in
    let found : FieldsIn lane.key card = found_fields deps actor card_id w w' v card lane a l in
    let il : IsLaneOf w.db card.board_id lane = (lane_of_card-lane card w.db lane l).0 in
    let it : IsLaneOf w.db card.board_id target =
      lane_by_key-lane card.board_id input.to_lane w.db target t in
    let (i, e, g) : LandsIn w.db target updated = elim how [
      | inl (s, _, u) ↦ subst (LandsIn w.db target) (sym u) (
          reordered-LandsIn w.db v card lane target found il it (deps.now w.clock_calls) position s)
      | inr (n, _, (started, u)) ↦ subst (LandsIn w.db target) (sym u) (
          status_changed-LandsIn w.db v card lane target found il it (deps.now w.clock_calls)
            position fields started ar (f n))
    ] in
    commit-Valid deps actor updated body r.result w1 w' target (subst Valid (sym same) v) c
      (subst (λ db. IsLaneOf db updated.board_id target) (sym same) i) e g
