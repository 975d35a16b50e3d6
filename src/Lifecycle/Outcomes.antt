-- ===== src/Lifecycle/Outcomes.antt =====
-- packages/core/src/services/internal.ts: the store after a unit of work, its retry and what follows it,
-- whatever the outcome.
use ai_kanban.Prelude.{◌≡◌, arith, Option, sym, subst, inl, inr, List}
use ai_kanban.Domain.Entities.{Card}
use ai_kanban.Domain.Events.{CardEvent}
use ai_kanban.Domain.Errors.{ok, Result-cases}
use ai_kanban.Db.State.{World}
use ai_kanban.Db.Tx.{Tx, ◌>>=◌, ◌>>◌, pure, run, when, card_completed}
use ai_kanban.Services.Internal.{publish_card_hints, run_with_position_retry}
use ai_kanban.Services.Card
use ai_kanban.Transactions.{
  run-ok, run-atomic, run_with_position_retry-ok, run_with_position_retry-atomic,
}
use ai_kanban.Lifecycle.Valid.{Valid}

-- A store is valid in every world that a call may end in.
abbrev pub EndsValid : {A : Type 0} → Tx A → World → Type 0
EndsValid m w = Valid ((m w).1.db)

module _ {A : Type 0} (m : Tx A) (w : World) (v : Valid w.db)
    (k : (w1 : World) (r : A) (w' : World) → Valid w1.db → m w1 ≡ (ok r, w') → Valid w'.db) where
  pub run-EndsValid : EndsValid (run m) w
  run-EndsValid = elim (Result-cases (run m w).0) [
    | inl (r, e) ↦ k w r (run m w).1 v (run-ok m w (run m w).1 r (ground arith))
    | inr (x, e) ↦ subst Valid (sym (run-atomic m w (run m w).1 x (ground arith))) v
  ]

  pub retry-EndsValid :
      (current_card : Option (Tx Card)) → EndsValid (run_with_position_retry m current_card) w
  retry-EndsValid c = elim (Result-cases (run_with_position_retry m c w).0) [
    | inl (r, e) ↦
        let (w1, same, q, _) =
          run_with_position_retry-ok m c w (run_with_position_retry m c w).1 r (ground arith) in
        k w1 r (run_with_position_retry m c w).1 (subst Valid (sym same) v) q
    | inr (x, e) ↦
        subst Valid
          (sym (
            run_with_position_retry-atomic m c w (run_with_position_retry m c w).1 x
              (ground arith)))
          v
  ]

-- What follows a unit of work writes nothing.
pub after-EndsValid :
    {A B : Type 0} (m : Tx A) (f : A → Tx B) (w : World)
    → ((a : A) (w1 : World) → (f a w1).1.db ≡ w1.db)
    → EndsValid m w
    → EndsValid (m >>= f) w
after-EndsValid m f w k v = elim (Result-cases (m w).0) [
  | inl (a, e) ↦
      let q : ((m >>= f) w).1.db ≡ (m w).1.db = ground (arith, k a (m w).1) in subst Valid (sym q) v
  | inr (x, e) ↦ let q : ((m >>= f) w).1.db ≡ (m w).1.db = ground arith in subst Valid (sym q) v
]

abbrev pub announce : Card.MutationResult → Tx Card
announce r = publish_card_hints r.card r.events >> pure r.card

abbrev pub announce_move : Card.MoveResult → Tx Card
announce_move moved =
    publish_card_hints moved.result.card moved.result.events
    >> (when moved.completed (card_completed moved.result.card) >> pure moved.result.card)

pub announce-db :
    (card : Card) (events : List CardEvent) (w : World)
    → ((publish_card_hints card events >> pure card) w).1.db ≡ w.db
unfolding publish_card_hints
announce-db card events w = ground arith

pub announce_move-db :
    (moved : Card.MoveResult) (w : World)
    → ((publish_card_hints moved.result.card moved.result.events
          >> (when moved.completed (card_completed moved.result.card) >> pure moved.result.card))
        w).1.db
      ≡ w.db
unfolding publish_card_hints
announce_move-db moved w = ground arith
