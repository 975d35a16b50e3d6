-- ===== src/Lifecycle/Places.antt =====
-- packages/core/src/services/card-service.ts: how the operations that place a card fail, where the place
-- is taken and otherwise.
use ai_kanban.Prelude.{ℕ, some, ◌≡◌, ◌≢◌, ◌⊎◌, inl, inr, arith, sym, ap, ◌∙◌}
use ai_kanban.Domain.Entities.{Actor, Card}
use ai_kanban.Domain.Errors.{
  DomainError, Result, ok, err, Result-cases, conflict, duplicate_position,
}
use ai_kanban.Db.State.{World, Deps, DbState}
use ai_kanban.Db.Tx.{Tx, ◌>>=◌, reads}
use ai_kanban.Services.Access.{
  accessible_card, require_board_access, can_access_board, global_policy,
}
use ai_kanban.Services.Internal.{run_with_position_retry}
use ai_kanban.Services.Card
use ai_kanban.Transactions.{
  run_with_position_retry-err, run_with_position_retry-atomic, publish_card_hints-ok,
}
use ai_kanban.Lifecycle.Commands.{CardCommand, execute}
use ai_kanban.Lifecycle.Outcomes.{announce, announce_move}

-- One attempt at the command, in this world, ends in the error.
abbrev pub Fails : Deps → Actor → ℕ → CardCommand → World → DomainError → Type 0
Fails deps actor card_id (CardCommand.move input) w e =
    (Card.move_tx deps actor card_id input w).0 ≡ err e
Fails deps actor card_id (CardCommand.cancel input) w e =
    (Card.cancel_tx deps actor card_id input w).0 ≡ err e
Fails deps actor card_id (CardCommand.reopen v) w e =
    (Card.reopen_tx deps actor card_id v w).0 ≡ err e
Fails deps actor card_id _ w e = ⊥

-- The commands that write a place among other cards.
abbrev pub IsPlacing : CardCommand → Type 0
IsPlacing (CardCommand.move _) = Unit
IsPlacing (CardCommand.cancel _) = Unit
IsPlacing (CardCommand.reopen _) = Unit
IsPlacing _ = ⊥

accessible_card-error :
    (actor : Actor) (card_id : ℕ) (db : DbState)
    → accessible_card actor card_id db ≢ err duplicate_position
unfolding accessible_card require_board_access can_access_board global_policy
accessible_card-error actor card_id db h = ground arith

err-cancel : {A : Type 0} {d e : DomainError} → ◌≡◌ {A = Result A} (err d) (err e) → d ≡ e
err-cancel h = ground arith

bind-err :
    {A B : Type 0} (m : Tx A) (f : A → Tx B) (w w' : World) (e : DomainError)
    → ((a : A) (w1 : World) → (b : B) × ((f a w1).0 ≡ ok b))
    → (m >>= f) w ≡ (err e, w')
    → m w ≡ (err e, w')
bind-err m f w w' e k h = elim (Result-cases (m w).0) [
  | inl (a, q) ↦ let (b, p) = k a (m w).1 in absurd (ground arith)
  | inr (x, q) ↦ ground arith
]

move_tx-access :
    (deps : Deps) (actor : Actor) (card_id : ℕ) (input : _) (w : World) (e : DomainError)
    → accessible_card actor card_id w.db ≡ err e
    → (Card.move_tx deps actor card_id input w).0 ≡ err e
unfolding Card.move_tx
move_tx-access deps actor card_id input w e h = ground arith

cancel_tx-access :
    (deps : Deps) (actor : Actor) (card_id : ℕ) (input : _) (w : World) (e : DomainError)
    → accessible_card actor card_id w.db ≡ err e
    → (Card.cancel_tx deps actor card_id input w).0 ≡ err e
unfolding Card.cancel_tx
cancel_tx-access deps actor card_id input w e h = ground arith

reopen_tx-access :
    (deps : Deps) (actor : Actor) (card_id v : ℕ) (w : World) (e : DomainError)
    → accessible_card actor card_id w.db ≡ err e
    → (Card.reopen_tx deps actor card_id v w).0 ≡ err e
unfolding Card.reopen_tx
reopen_tx-access deps actor card_id v w e h = ground arith

announces : (r : Card.MutationResult) (w : World) → (card : Card) × ((announce r w).0 ≡ ok card)
announces r w = let (p, q) = publish_card_hints-ok r.card r.events w in (r.card, ground arith)

announces_move :
    (m : Card.MoveResult) (w : World) → (card : Card) × ((announce_move m w).0 ≡ ok card)
announces_move m w =
    let (p, q) = publish_card_hints-ok m.result.card m.result.events w in
    (m.result.card, ground arith)

module _ (actor : Actor) (card_id : ℕ) (command : CardCommand) (deps : Deps) where
  -- How a failed command ended: in the error of an attempt, or in a conflict over a place that was
  -- taken twice.
  abbrev pub Failure : World → DomainError → Type 0
  Failure w e =
      ((w1 : World) × (w1.db ≡ w.db) × Fails deps actor card_id command w1 e)
      ⊎ (Fails deps actor card_id command w duplicate_position
          × ((card : Card) × (accessible_card actor card_id w.db ≡ ok card)
              × (e ≡ conflict "position conflict persisted after retry" (some card))))

  retry-Failure :
      {R : Type 0} (m : Tx R) (value : R → Tx Card) (w w' : World) (e : DomainError)
      → ((r : R) (w1 : World) → (card : Card) × ((value r w1).0 ≡ ok card))
      → ((w1 : World) (x : DomainError) → (m w1).0 ≡ err x → Fails deps actor card_id command w1 x)
      → ((x : DomainError) → accessible_card actor card_id w.db ≡ err x → (m w).0 ≡ err x)
      → (run_with_position_retry m (some (reads (accessible_card actor card_id))) >>= value) w
        ≡ (err e, w')
      → (e ≢ duplicate_position) × (w'.db ≡ w.db) × Failure w e
  retry-Failure m value w w' e total fails access h =
      let current = reads (accessible_card actor card_id) in
      let k = bind-err (run_with_position_retry m (some current)) value w w' e total h in
      let same_tables = run_with_position_retry-atomic m (some current) w w' e k in
      let (w1, same, how) = run_with_position_retry-err m current w w' e k in
      let there : accessible_card actor card_id w1.db ≡ accessible_card actor card_id w.db =
        ap (accessible_card actor card_id) same in
      elim how [
        | inl (n, own) ↦ (n, same_tables, inl (w1, same, fails w1 e own))
        | inr (twice, inl lost) ↦
            let missing : accessible_card actor card_id w.db ≡ err e = sym there ∙ lost in
            let again : ◌≡◌ {A = DomainError} e duplicate_position =
              err-cancel (sym (access e missing) ∙ twice) in
            absurd (accessible_card-error actor card_id w.db (missing ∙ ap err again))
        | inr (twice, inr (card, found, q)) ↦ (
          λ d. let clash = sym q ∙ d in ground arith,
          same_tables,
          inr (fails w duplicate_position twice, (card, sym there ∙ found, q)),
        )
      ]

-- A move, cancellation or reopening that fails leaves the tables as they were, and never ends in the
-- store's own error for a taken place: it ends in an error of one attempt on these tables, or the
-- place was taken, and it ends in a conflict that carries the stored card.
pub execute-Failure :
    (deps : Deps) (actor : Actor) (card_id : ℕ) (command : CardCommand) (w w' : World)
    (e : DomainError)
    → IsPlacing command
    → execute deps actor card_id command w ≡ (err e, w')
    → (e ≢ duplicate_position) × (w'.db ≡ w.db) × Failure actor card_id command deps w e
unfolding Card.move Card.cancel Card.reopen
execute-Failure deps actor card_id (CardCommand.move input) w w' e p h =
    retry-Failure actor card_id (CardCommand.move input) deps
      (Card.move_tx deps actor card_id input) announce_move w w' e announces_move (λ w1 x q. q)
      (move_tx-access deps actor card_id input w) h
execute-Failure deps actor card_id (CardCommand.cancel input) w w' e p h =
    retry-Failure actor card_id (CardCommand.cancel input) deps
      (Card.cancel_tx deps actor card_id input) announce w w' e announces (λ w1 x q. q)
      (cancel_tx-access deps actor card_id input w) h
execute-Failure deps actor card_id (CardCommand.reopen v) w w' e p h =
    retry-Failure actor card_id (CardCommand.reopen v) deps (Card.reopen_tx deps actor card_id v)
      announce w w' e announces (λ w1 x q. q) (reopen_tx-access deps actor card_id v w) h
execute-Failure deps actor card_id (CardCommand.update input) w w' e p h = absurd p
execute-Failure deps actor card_id (CardCommand.archive v) w w' e p h = absurd p
execute-Failure deps actor card_id (CardCommand.unblock v) w w' e p h = absurd p
execute-Failure deps actor card_id (CardCommand.block v reason) w w' e p h = absurd p
