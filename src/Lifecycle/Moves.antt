-- ===== src/Lifecycle/Moves.antt =====
-- packages/core/src/services/card-service.ts: the transaction of a move, where it succeeds.
use ai_kanban.Prelude.{
  ℕ, ◌≡◌, arith, some, none, true, false, ◌==◌, nat_eq, string_eq, not, ◌&&◌, Position, Option, ◌⊎◌,
  inl, inr, Bool-cases, refl, is_some, ◌+◌,
}
use ai_kanban.Domain.Vocabulary.{in_progress_key, done_key, Instant, waiting_key}
use ai_kanban.Domain.Entities.{Actor, Card, Lane}
use ai_kanban.Domain.Commands.{MoveCardInput}
use ai_kanban.Domain.Events.{CardEventBody}
use ai_kanban.Domain.Errors.{ok, with_ok}
use ai_kanban.Policy.Engine.{evaluate_policy, decide}
use ai_kanban.Domain.Policy.{PolicyDocument}
use ai_kanban.Db.State.{World, Deps}
use ai_kanban.Services.Access.{accessible_card, lane_of_card, lane_by_key, active_policy}
use ai_kanban.Services.Card
use ai_kanban.Lifecycle.Change.{ticked}

module _ (deps : Deps) (actor : Actor) (input : MoveCardInput) (r : Card.MoveResult)
    (w w' : World) where
  pub write_move-run :
      (card : Card) (lane target : Lane) (fields : Option Card.WaitingFields)
      → Card.write_move deps actor input card lane target fields w ≡ (ok r, w')
      → (position : Position) × (Card.place deps card target input w.db ≡ ok position)
        × ((updated : Card) × (body : CardEventBody) × (w1 : World) × (w1.db ≡ w.db)
            × (w1.hints ≡ w.hints)
            × (Card.commit deps actor updated body w1 ≡ (ok r.result, w'))
            × (((target.id == lane.id) ≡ true)
                  × (r.completed ≡ false)
                  × (updated ≡ Card.placed_card target position (deps.now w.clock_calls) card)
                ⊎ ((target.id == lane.id) ≡ false)
                  × (r.completed ≡ (target.key == done_key))
                  × ((started : Option Instant) × (updated
                        ≡ Card.change_lane lane target fields started
                            (Card.placed_card target position (deps.now w.clock_calls) card)))))
  unfolding Card.write_move Card.reordered Card.status_changed Card.placed_card
  write_move-run card lane target fields h =
      with_ok (Card.place deps card target input w.db) (λ e q. ground arith)
        λ position k. elim (Bool-cases (target.id == lane.id)) [
          | inl t ↦ (
            position,
            k,
            (
              placed position,
              CardEventBody.card_reordered target.key input.prev_card_id input.next_card_id,
              ticked w,
              refl,
              refl,
              ground arith,
              inl (t, ground arith, refl),
            ),
          )
          | inr f ↦
              elim (Bool-cases
                (target.key == in_progress_key && not (is_some card.work_started_at))) [
                  | inl b ↦ (
                    position,
                    k,
                    (
                      Card.change_lane lane target fields (some (deps.now (w.clock_calls + 1)))
                          (placed position),
                      CardEventBody.card_status_changed lane.key target.key
                          (Card.wip_limit_exceeded target w.db) (lane.key == waiting_key),
                      ticked (ticked w),
                      refl,
                      refl,
                      ground arith,
                      inr (f, ground arith, (some (deps.now (w.clock_calls + 1)), refl)),
                    ),
                  )
                  | inr b ↦ (
                    position,
                    k,
                    (
                      Card.change_lane lane target fields card.work_started_at (placed position),
                      CardEventBody.card_status_changed lane.key target.key
                          (Card.wip_limit_exceeded target w.db) (lane.key == waiting_key),
                      ticked w,
                      refl,
                      refl,
                      ground arith,
                      inr (f, ground arith, (card.work_started_at, refl)),
                    ),
                  )
                ]
        ]
    where
      placed : Position → Card
      placed position = Card.placed_card target position (deps.now w.clock_calls) card

  pub move_tx-run :
      (card_id : ℕ)
      → Card.move_tx deps actor card_id input w ≡ (ok r, w')
      → (card : Card) × (accessible_card actor card_id w.db ≡ ok card)
        × (card.version ≡ input.expected_version)
        × (card.archived_at ≡ none)
        × ((lane : Lane) × (lane_of_card card w.db ≡ ok lane)
            × ((target : Lane) × (lane_by_key card.board_id input.to_lane w.db ≡ ok target)
                × ((policy : PolicyDocument) × (active_policy card.board_id w.db ≡ ok policy)
                    × (decide (evaluate_policy actor (Card.move_action lane target) policy)
                        ≡ ok tt))
                × ((fields : Option Card.WaitingFields) × ((target.id == lane.id) ≡ false
                      → (target.key == waiting_key) ≡ false
                      → fields ≡ none)
                    × (Card.write_move deps actor input card lane target fields w ≡ (ok r, w')))))
  unfolding Card.move_tx
  move_tx-run card_id h =
      with_ok (accessible_card actor card_id w.db) (λ e q. ground arith)
        λ card a.
          with_ok (lane_of_card card w.db) (λ e q. ground arith)
            λ lane l.
              with_ok (lane_by_key card.board_id input.to_lane w.db) (λ e q. ground arith)
                λ target t.
                  with_ok (active_policy card.board_id w.db) (λ e q. ground arith)
                    λ policy p.
                      with_ok
                        (elim (not (target.id == lane.id) && target.key == waiting_key) [
                          | true ↦ Card.waiting_lane_entry input
                          | false ↦ ok none
                        ])
                        (λ e q. ground arith)
                        λ fields f. (
                          card,
                          a,
                          ground arith,
                          ground arith,
                          (
                            lane,
                            l,
                            (
                              target,
                              t,
                              (policy, p, ground arith),
                              (fields, (λ x y. ground arith), ground arith),
                            ),
                          ),
                        )
