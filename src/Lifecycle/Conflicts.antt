-- ===== src/Lifecycle/Conflicts.antt =====
-- packages/core/src/services/card-service.ts: what a client that names the version it read can rely on.
use ai_kanban.Prelude.{
  ℕ, ◌≡◌, ◌≢◌, arith, Option, none, some, sym, subst, inl, inr, ◌⊎◌, ◌∙◌, ap, some-cancel,
}
use ai_kanban.Domain.Entities.{Actor, Card}
use ai_kanban.Domain.Errors.{ok}
use ai_kanban.Db.State.{DbState, World, Deps}
use ai_kanban.Db.Tx.{Tx, ◌>>=◌, reads, run, bind-ok}
use ai_kanban.Db.Cards.{find_card}
use ai_kanban.Services.Access.{accessible_card}
use ai_kanban.Services.Internal.{run_with_position_retry, publish_card_hints}
use ai_kanban.Services.Card
use ai_kanban.Transactions.{run-ok, run_with_position_retry-ok}
use ai_kanban.Lifecycle.Commands.{CardCommand, execute}
use ai_kanban.Lifecycle.Outcomes.{announce, announce_move}
use ai_kanban.Lifecycle.Locking

-- The version that the caller of a command says it has read.
abbrev pub expected_version : CardCommand → ℕ
expected_version (CardCommand.update input) = input.expected_version
expected_version (CardCommand.move input) = input.expected_version
expected_version (CardCommand.cancel input) = input.expected_version
expected_version (CardCommand.reopen v) = v
expected_version (CardCommand.archive v) = v
expected_version (CardCommand.unblock v) = v
expected_version (CardCommand.block v reason) = v

-- The command is one that may change nothing.
abbrev pub MayChangeNothing : CardCommand → Type 0
MayChangeNothing (CardCommand.update input) = Unit
MayChangeNothing _ = ⊥

-- What a successful command did: nothing at all, or the next version of the card and its events.
abbrev pub Outcome : Actor → ℕ → CardCommand → Card.MutationResult → DbState → DbState → Type 0
Outcome actor card_id command r db db' =
    (MayChangeNothing command × Locking.IsUnchanged card_id (expected_version command) r db db')
    ⊎ Locking.Advances actor card_id (expected_version command) r db db'

-- The outcome, with the card that the command returned.
abbrev pub Effect : Actor → ℕ → CardCommand → Card → DbState → DbState → Type 0
Effect actor card_id command card db db' =
    (r : Card.MutationResult) × (r.card ≡ card) × Outcome actor card_id command r db db'

announce-ok :
    (r : Card.MutationResult) (w w' : World) (card : Card)
    → announce r w ≡ (ok card, w')
    → (r.card ≡ card) × (w.db ≡ w'.db)
unfolding publish_card_hints
announce-ok r w w' card h = ground arith

announce_move-ok :
    (r : Card.MoveResult) (w w' : World) (card : Card)
    → announce_move r w ≡ (ok card, w')
    → (r.result.card ≡ card) × (w.db ≡ w'.db)
unfolding publish_card_hints
announce_move-ok r w w' card h = ground arith

module _ (actor : Actor) (card_id : ℕ) (command : CardCommand) (w w' : World) (card : Card) where
  run-Effect :
      (m : Tx Card.MutationResult)
      → ((r : Card.MutationResult) (w1 : World)
          → m w ≡ (ok r, w1)
          → Outcome actor card_id command r w.db w1.db)
      → (run m >>= announce) w ≡ (ok card, w')
      → Effect actor card_id command card w.db w'.db
  run-Effect m k h =
      let (r, w1, p, q) = bind-ok (run m) announce w w' card h in
      let (c, d) = announce-ok r w1 w' card q in
      (r, c, subst (λ db. Outcome actor card_id command r w.db db) d (k r w1 (run-ok m w w1 r p)))

  retry-Effect :
      (m : Tx Card.MutationResult) (current_card : Option (Tx Card))
      → ((r : Card.MutationResult) (w0 w1 : World)
          → m w0 ≡ (ok r, w1)
          → Locking.Advances actor card_id (expected_version command) r w0.db w1.db)
      → (run_with_position_retry m current_card >>= announce) w ≡ (ok card, w')
      → Effect actor card_id command card w.db w'.db
  retry-Effect m current_card k h =
      let v = expected_version command in
      let (r, w1, p, q) = bind-ok (run_with_position_retry m current_card) announce w w' card h in
      let (c, d) = announce-ok r w1 w' card q in
      let (w0, same, g, _) = run_with_position_retry-ok m current_card w w1 r p in
      (
        r,
        c,
        inr (
            subst (λ db. Locking.Advances actor card_id v r db w'.db) same
              (subst (λ db. Locking.Advances actor card_id v r w0.db db) d (k r w0 w1 g))),
      )

-- A command on a card that succeeds found the card under the expected version, and either left it
-- under the next version with at least one event about it, by the actor's kind, appended to the log,
-- or was an update that changed neither the cards nor the log.
pub execute-Effect :
    (deps : Deps) (actor : Actor) (card_id : ℕ) (command : CardCommand) (w w' : World) (card : Card)
    → execute deps actor card_id command w ≡ (ok card, w')
    → Effect actor card_id command card w.db w'.db
unfolding Card.update Card.move Card.cancel Card.reopen Card.archive Card.block Card.unblock
    Card.set_blocked_flag
execute-Effect deps actor card_id (CardCommand.update input) w w' card h =
    run-Effect actor card_id (CardCommand.update input) w w' card
      (Card.update_tx deps actor card_id input)
      (λ r w1 p. elim (Locking.update_tx-Advances deps actor card_id r w w1 input p) [
        | inl same ↦ inl (tt, same)
        | inr next ↦ inr next
      ])
      h
execute-Effect deps actor card_id (CardCommand.move input) w w' card h =
    let current = some (reads (accessible_card actor card_id)) in
    let (m, w1, p, q) =
      bind-ok (run_with_position_retry (Card.move_tx deps actor card_id input) current)
        announce_move w w' card h in
    let (c, d) = announce_move-ok m w1 w' card q in
    let (w0, same, g, _) =
      run_with_position_retry-ok (Card.move_tx deps actor card_id input) current w w1 m p in
    (
      m.result,
      c,
      inr (
          subst (λ db. Locking.Advances actor card_id input.expected_version m.result db w'.db) same
            (subst (λ db. Locking.Advances actor card_id input.expected_version m.result w0.db db) d
              (Locking.move_tx-Advances deps actor card_id m.result w0 w1 input m.completed g))),
    )
execute-Effect deps actor card_id (CardCommand.cancel input) w w' card h =
    retry-Effect actor card_id (CardCommand.cancel input) w w' card
      (Card.cancel_tx deps actor card_id input) (some (reads (accessible_card actor card_id)))
      (λ r w0 w1 p. Locking.cancel_tx-Advances deps actor card_id r w0 w1 input p) h
execute-Effect deps actor card_id (CardCommand.reopen v) w w' card h =
    retry-Effect actor card_id (CardCommand.reopen v) w w' card
      (Card.reopen_tx deps actor card_id v) (some (reads (accessible_card actor card_id)))
      (λ r w0 w1 p. Locking.reopen_tx-Advances deps actor card_id r w0 w1 v p) h
execute-Effect deps actor card_id (CardCommand.archive v) w w' card h =
    run-Effect actor card_id (CardCommand.archive v) w w' card
      (Card.archive_tx deps actor card_id v)
      (λ r w1 p. inr (Locking.archive_tx-Advances deps actor card_id r w w1 v p)) h
execute-Effect deps actor card_id (CardCommand.unblock v) w w' card h =
    run-Effect actor card_id (CardCommand.unblock v) w w' card
      (Card.set_blocked_flag_tx deps actor card_id v none)
      (λ r w1 p. inr (Locking.set_blocked_flag_tx-Advances deps actor card_id r w w1 v none p)) h
execute-Effect deps actor card_id (CardCommand.block v reason) w w' card h =
    run-Effect actor card_id (CardCommand.block v reason) w w' card
      (Card.set_blocked_flag_tx deps actor card_id v (some reason))
      (λ r w1 p.
        inr (Locking.set_blocked_flag_tx-Advances deps actor card_id r w w1 v (some reason) p))
      h

-- The version under which an effect found its card.
found_version :
    (actor : Actor) (card_id : ℕ) (command : CardCommand) (card : Card) (db db' : DbState)
    → Effect actor card_id command card db db'
    → (before : Card) × (find_card card_id db ≡ some before)
      × (before.version ≡ expected_version command)
found_version actor card_id command card db db' (r, _, inl (_, (f, e, _, _, _))) = (r.card, f, e)
found_version actor card_id command card db db' (r, _, inr (b, _, _, _)) = b

-- Two callers that read the same version of a card cannot both change it: once the first command has
-- changed the log, the second does not succeed.
pub execute-no_lost_update :
    (deps : Deps) (first_actor second_actor : Actor) (card_id : ℕ) (first second : CardCommand)
    (w w1 w2 : World) (c1 c2 : Card)
    → expected_version first ≡ expected_version second
    → execute deps first_actor card_id first w ≡ (ok c1, w1)
    → w1.db.events ≢ w.db.events
    → execute deps second_actor card_id second w1 ≢ (ok c2, w2)
execute-no_lost_update deps a1 a2 card_id first second w w1 w2 c1 c2 e h n k =
    let (before, f, v) =
      found_version a2 card_id second c2 w1.db w2.db
        (execute-Effect deps a2 card_id second w1 w2 c2 k) in
    let (r, _, how) = execute-Effect deps a1 card_id first w w1 c1 h in
    elim how [
      | inl (_, (_, _, _, _, same)) ↦ n same
      | inr (_, next, found, _) ↦
          let q : r.card.version ≡ before.version =
            ap (λ (x : Card). x.version) (some-cancel (sym found ∙ f)) in
          omega (arith, next, q, v, e)
    ]
