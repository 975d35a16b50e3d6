-- ===== src/Lifecycle/Keeps.antt =====
-- packages/core/src/services/card-service.ts: the transactions of the operations on one card keep the
-- store valid.
use ai_kanban.Prelude.{
  ℕ, ◌≡◌, nat_eq, string_eq, Option, some, none, sym, subst, String, inl, inr, Option-cases, All-In,
  is_some, arith, refl,
}
use ai_kanban.Domain.Vocabulary.{done_key, ready_key, LaneKey}
use ai_kanban.Domain.Entities.{Actor, Card, Lane}
use ai_kanban.Domain.Commands.{CancelCardInput}
use ai_kanban.Domain.Events.{CardEventBody}
use ai_kanban.Domain.Errors.{ok}
use ai_kanban.Db.State.{DbState, World, Deps}
use ai_kanban.Db.Rows.{find_lane_by_key}
use ai_kanban.Services.Access.{accessible_card, lane_of_card}
use ai_kanban.Services.Card
use ai_kanban.Lifecycle.Commit.{commit-Committed}
use ai_kanban.Lifecycle.Change.{
  ticked, archive_tx-run, set_blocked_flag_tx-run, cancel_tx-run, reopen_tx-run, restored_lane,
}
use ai_kanban.Lifecycle.Shape.{
  FieldsIn, archived_card-FieldsIn, flagged_card-FieldsIn, cancelled_card-FieldsIn,
  reopened_card-FieldsIn,
}
use ai_kanban.Lifecycle.Valid.{
  Valid, HasLane, IsLaneOf, Committed-Valid, has_lane, lane_of_card-lane, find_lane_by_key-lane,
  first_lane-lane, fields_of_found, accessible_card-found,
}

-- A committed card in a lane that a lookup found, with the fields that its lane allows.
pub commit-Valid :
    (deps : Deps) (actor : Actor) (updated : Card) (body : CardEventBody) (r : Card.MutationResult)
    (w w' : World) (lane : Lane)
    → Valid w.db
    → Card.commit deps actor updated body w ≡ (ok r, w')
    → IsLaneOf w.db updated.board_id lane
    → lane.id ≡ updated.lane_id
    → FieldsIn lane.key updated
    → Valid w'.db
commit-Valid deps actor updated body r w w' lane v c l e f =
    let (s, k) = commit-Committed deps actor updated body r w w' c in
    Committed-Valid actor r w w' v k
      (subst (HasLane w.db.lanes) (sym s) (has_lane w.db updated lane l e f))

-- A lane to reopen into is one of the board.
restored_lane-lane :
    (db : DbState) (card : Card) (key : Option LaneKey) (lane : Lane)
    → Card.find_prior card.board_id key db ≡ some lane
    → IsLaneOf db card.board_id lane
restored_lane-lane db card none lane h = cc
restored_lane-lane db card (some key) lane h = (find_lane_by_key-lane card.board_id key db lane h).0

reopen_target-lane :
    (db : DbState) (card : Card) (target : Lane)
    → Card.reopen_target card.board_id (restored_lane db card) db ≡ ok target
    → IsLaneOf db card.board_id target
unfolding Card.reopen_target
reopen_target-lane db card target h = elim (Option-cases (restored_lane db card)) [
  | inl n ↦ elim (Option-cases (find_lane_by_key card.board_id ready_key db)) [
    | inl m ↦ first_lane-lane card.board_id db target (ground arith)
    | inr (lane, m) ↦ (find_lane_by_key-lane card.board_id ready_key db target (ground arith)).0
  ]
  | inr (lane, s) ↦
      restored_lane-lane db card (Card.prior_lane_key (Card.cancel_payload card db)) target
        (ground arith)
]

module _ (deps : Deps) (actor : Actor) (card_id : ℕ) (w w' : World) (v : Valid w.db) where
  -- The fields of the card that an operation found.
  pub found_fields :
      (card : Card) (lane : Lane)
      → accessible_card actor card_id w.db ≡ ok card
      → lane_of_card card w.db ≡ ok lane
      → FieldsIn lane.key card
  found_fields card lane a l =
      fields_of_found w.db card lane v (accessible_card-found actor card_id w.db card a).1 l

  pub archive_tx-Valid :
      (expected_version : ℕ) (r : Card.MutationResult)
      → Card.archive_tx deps actor card_id expected_version w ≡ (ok r, w')
      → Valid w'.db
  unfolding Card.archived_card
  archive_tx-Valid expected_version r h =
      let (card, (a, _, _), _, (lane, l, d), c) =
        archive_tx-run deps actor card_id r w w' expected_version h in
      let (i, e) = lane_of_card-lane card w.db lane l in
      commit-Valid deps actor (Card.archived_card (deps.now w.clock_calls) card)
        CardEventBody.card_archived r (ticked w) w' lane v c i e
        (archived_card-FieldsIn lane.key card (found_fields card lane a l) (deps.now w.clock_calls)
          d)

  pub set_blocked_flag_tx-Valid :
      (expected_version : ℕ) (reason : Option String) (r : Card.MutationResult)
      → Card.set_blocked_flag_tx deps actor card_id expected_version reason w ≡ (ok r, w')
      → Valid w'.db
  unfolding Card.flagged_card
  set_blocked_flag_tx-Valid expected_version reason r h =
      let (card, (a, _, _), _, _, c) =
        set_blocked_flag_tx-run deps actor card_id r w w' expected_version reason h in
      let i = (accessible_card-found actor card_id w.db card a).1 in
      let home = All-In (HasLane w.db.lanes) w.db.cards card v.lanes i in
      commit-Valid deps actor (Card.flagged_card reason (deps.now w.clock_calls) card)
        (Card.flag_body reason) r (ticked w) w' home.lane v c (home.is_in, home.board_is) home.id_is
        (flagged_card-FieldsIn home.lane.key card home.fields reason (deps.now w.clock_calls))

  pub cancel_tx-Valid :
      (input : CancelCardInput) (r : Card.MutationResult)
      → Card.cancel_tx deps actor card_id input w ≡ (ok r, w')
      → Valid w'.db
  unfolding Card.cancelled_card
  cancel_tx-Valid input r h =
      let (card, (a, _, _), _, (lane, l, _, (done, d, (position, _, c)))) =
        cancel_tx-run deps actor card_id r w w' input h in
      let (i, k) = find_lane_by_key-lane card.board_id done_key w.db done d in
      commit-Valid deps actor
        (Card.cancelled_card done position input (deps.now w.clock_calls) card)
        (Card.cancelled_body input lane card) r (ticked w) w' done v c i refl
        (cancelled_card-FieldsIn lane.key card (found_fields card lane a l) done position input
          (deps.now w.clock_calls) k)

  pub reopen_tx-Valid :
      (expected_version : ℕ) (r : Card.MutationResult)
      → Card.reopen_tx deps actor card_id expected_version w ≡ (ok r, w')
      → Valid w'.db
  unfolding Card.reopened_card
  reopen_tx-Valid expected_version r h =
      let (card, (a, _, _), (lane, l, d, (target, t, (position, _, c)))) =
        reopen_tx-run deps actor card_id r w w' expected_version h in
      let (i, e) = lane_of_card-lane card w.db lane l in
      commit-Valid deps actor
        (Card.reopened_card target position (is_some (restored_lane w.db card))
          (Card.cancel_payload card w.db) (deps.now w.clock_calls) card)
        (CardEventBody.card_reopened target.key) r (ticked w) w' target v c
        (reopen_target-lane w.db card target t) refl
        (reopened_card-FieldsIn lane.key card (found_fields card lane a l) target position
          (is_some (restored_lane w.db card)) (Card.cancel_payload card w.db)
          (deps.now w.clock_calls) d)
