-- ===== src/Lifecycle/Change.antt =====
-- packages/core/src/services/card-service.ts: the transaction of each operation that changes one card,
-- where it succeeds: the checks that passed, and the write.
use ai_kanban.Prelude.{
  ℕ, ◌+◌, ◌≡◌, arith, some, none, is_some, Option, String, true, false, option_map, ◌==◌, nat_eq,
  string_eq, bool_eq, Position,
}
use ai_kanban.Domain.Vocabulary.{done_key}
use ai_kanban.Domain.Entities.{Actor, Card, Lane}
use ai_kanban.Domain.Commands.{CancelCardInput}
use ai_kanban.Domain.Events.{CardEventBody}
use ai_kanban.Domain.Errors.{ok, with_ok, with_some}
use ai_kanban.Policy.Engine.{PolicyAction, evaluate_policy, decide}
use ai_kanban.Domain.Policy.{PolicyDocument}
use ai_kanban.Db.State.{DbState, World, Deps}
use ai_kanban.Db.Cards.{last_of_lane}
use ai_kanban.Db.Rows.{find_lane_by_key}
use ai_kanban.Services.Access.{accessible_card, lane_of_card, active_policy}
use ai_kanban.Services.Card

-- The world after one reading of the clock.
abbrev pub ticked : World → World
ticked w = record w { clock_calls = w.clock_calls + 1 }

-- The lane that a cancelled card goes back to, where it is known and still exists.
abbrev pub restored_lane : DbState → Card → Option Lane
restored_lane db card =
    Card.find_prior card.board_id (Card.prior_lane_key (Card.cancel_payload card db)) db

module _ (deps : Deps) (actor : Actor) (card_id : ℕ) (r : Card.MutationResult) (w w' : World) where
  -- The actor sees the card, it has the expected version, and the policy allows the action.
  abbrev pub IsChecked : Card → ℕ → PolicyAction → Type 0
  IsChecked card v action =
      (accessible_card actor card_id w.db ≡ ok card)
      × (card.version ≡ v)
      × ((policy : PolicyDocument) × (active_policy card.board_id w.db ≡ ok policy)
          × (decide (evaluate_policy actor action policy) ≡ ok tt))

  pub archive_tx-run :
      (v : ℕ)
      → Card.archive_tx deps actor card_id v w ≡ (ok r, w')
      → (card : Card) × IsChecked card v PolicyAction.card_archive
        × (card.archived_at ≡ none)
        × ((lane : Lane) × (lane_of_card card w.db ≡ ok lane) × ((lane.key == done_key) ≡ true))
        × (Card.commit deps actor
              (Card.archived_card (deps.now w.clock_calls) card)
              CardEventBody.card_archived
              (ticked w)
            ≡ (ok r, w'))
  unfolding Card.archive_tx
  archive_tx-run v h =
      with_ok (accessible_card actor card_id w.db) (λ e q. ground arith)
        λ card a.
          with_ok (lane_of_card card w.db) (λ e q. ground arith)
            λ lane l.
              with_ok (active_policy card.board_id w.db) (λ e q. ground arith)
                λ policy p. (
                  card,
                  (a, ground arith, (policy, p, ground arith)),
                  ground arith,
                  (lane, l, ground arith),
                  ground arith,
                )

  pub set_blocked_flag_tx-run :
      (v : ℕ) (reason : Option String)
      → Card.set_blocked_flag_tx deps actor card_id v reason w ≡ (ok r, w')
      → (card : Card) × IsChecked card v (Card.flag_action (is_some reason))
        × (card.archived_at ≡ none)
        × ((card.blocked == is_some reason) ≡ false)
        × (Card.commit deps actor
              (Card.flagged_card reason (deps.now w.clock_calls) card)
              (Card.flag_body reason)
              (ticked w)
            ≡ (ok r, w'))
  unfolding Card.set_blocked_flag_tx
  set_blocked_flag_tx-run v reason h =
      with_ok (accessible_card actor card_id w.db) (λ e q. ground arith)
        λ card a.
          with_ok (active_policy card.board_id w.db) (λ e q. ground arith)
            λ policy p. (
              card,
              (a, ground arith, (policy, p, ground arith)),
              ground arith,
              ground arith,
              ground arith,
            )

  pub cancel_tx-run :
      (input : CancelCardInput)
      → Card.cancel_tx deps actor card_id input w ≡ (ok r, w')
      → (card : Card) × IsChecked card input.expected_version PolicyAction.card_cancel
        × (card.archived_at ≡ none)
        × ((lane : Lane) × (lane_of_card card w.db ≡ ok lane)
            × ((lane.key == done_key) ≡ false)
            × ((done : Lane) × (find_lane_by_key card.board_id done_key w.db ≡ some done)
                × ((position : Position) × (deps.generate_key_between
                        (option_map (λ (c : Card). c.position) (last_of_lane done.id w.db))
                        none
                      ≡ some position)
                    × (Card.commit deps actor
                          (Card.cancelled_card done position input (deps.now w.clock_calls) card)
                          (Card.cancelled_body input lane card)
                          (ticked w)
                        ≡ (ok r, w')))))
  unfolding Card.cancel_tx
  cancel_tx-run input h =
      with_ok (accessible_card actor card_id w.db) (λ e q. ground arith)
        λ card a.
          with_ok (lane_of_card card w.db) (λ e q. ground arith)
            λ lane l.
              with_ok (active_policy card.board_id w.db) (λ e q. ground arith)
                λ policy p.
                  with_some (find_lane_by_key card.board_id done_key w.db) (λ q. ground arith)
                    λ done d.
                      with_some
                        (deps.generate_key_between
                          (option_map (λ (c : Card). c.position) (last_of_lane done.id w.db)) none)
                        (λ q. ground arith)
                        λ position k. (
                          card,
                          (a, ground arith, (policy, p, ground arith)),
                          ground arith,
                          (lane, l, ground arith, (done, d, (position, k, ground arith))),
                        )

  pub reopen_tx-run :
      (v : ℕ)
      → Card.reopen_tx deps actor card_id v w ≡ (ok r, w')
      → (card : Card) × IsChecked card v PolicyAction.card_reopen
        × ((lane : Lane) × (lane_of_card card w.db ≡ ok lane)
            × ((lane.key == done_key) ≡ true)
            × ((target : Lane) × (Card.reopen_target card.board_id (restored_lane w.db card) w.db
                  ≡ ok target)
                × ((position : Position) × (deps.generate_key_between
                        (option_map (λ (c : Card). c.position) (last_of_lane target.id w.db))
                        none
                      ≡ some position)
                    × (Card.commit deps actor
                          (Card.reopened_card target position
                            (is_some (restored_lane w.db card))
                            (Card.cancel_payload card w.db)
                            (deps.now w.clock_calls)
                            card)
                          (CardEventBody.card_reopened target.key)
                          (ticked w)
                        ≡ (ok r, w')))))
  unfolding Card.reopen_tx
  reopen_tx-run v h =
      with_ok (accessible_card actor card_id w.db) (λ e q. ground arith)
        λ card a.
          with_ok (lane_of_card card w.db) (λ e q. ground arith)
            λ lane l.
              with_ok (active_policy card.board_id w.db) (λ e q. ground arith)
                λ policy p.
                  with_ok (Card.reopen_target card.board_id (restored_lane w.db card) w.db)
                    (λ e q. ground arith)
                    λ target t.
                      with_some
                        (deps.generate_key_between
                          (option_map (λ (c : Card). c.position) (last_of_lane target.id w.db))
                          none)
                        (λ q. ground arith)
                        λ position k. (
                          card,
                          (a, ground arith, (policy, p, ground arith)),
                          (lane, l, ground arith, (target, t, (position, k, ground arith))),
                        )
