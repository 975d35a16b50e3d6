-- ===== src/Lifecycle/Locking.antt =====
-- packages/core/src/services/card-service.ts: optimistic locking and the audit trail of the operations on
-- one card.
use ai_kanban.Prelude.{
  ℕ, ◌+◌, ◌≡◌, ◌≢◌, arith, String, Option, none, some, sym, subst, refl, inl, inr, ◌⊎◌, List, [],
  ◌∷◌, ◌++◌, ◌∙◌, ap, All, true, find, replace_first, ◌==◌, nat_eq, Bool, Bool-cases, is_some,
}
use ai_kanban.Domain.Entities.{Actor, Card, Lane}
use ai_kanban.Domain.Commands.{UpdateCardInput, MoveCardInput, CancelCardInput}
use ai_kanban.Domain.Events.{CardEvent, CardEventBody}
use ai_kanban.Domain.Errors.{ok, Result-cases, ok-cancel}
use ai_kanban.Domain.Policy.{PolicyDocument}
use ai_kanban.Db.State.{DbState, World, Deps}
use ai_kanban.Db.Cards.{find_card}
use ai_kanban.Services.Access.{accessible_card, lane_of_card}
use ai_kanban.Services.Card
use ai_kanban.Lifecycle.Commit.{IsAbout, Committed, commit-Committed}
use ai_kanban.Lifecycle.Change.{
  ticked, archive_tx-run, set_blocked_flag_tx-run, cancel_tx-run, reopen_tx-run, restored_lane,
}
use ai_kanban.Lifecycle.Moves.{write_move-run, move_tx-run}
use ai_kanban.Lifecycle.MoveKeeps.{change_lane-place}
use ai_kanban.Lifecycle.Edits.{SameTables}
use ai_kanban.Lifecycle.Updates.{edit_fields-Edits}
use ai_kanban.Lifecycle.UpdateKeeps.{update_tx-run, commit_edit-run}
use ai_kanban.Lifecycle.Valid.{accessible_card-found}

-- The log gained the events, which are about the card and by the actor.
abbrev pub IsLogged : Actor → Card → List CardEvent → DbState → DbState → Type 0
IsLogged actor card events db db' =
    (db'.events ≡ db.events ++ events) × (events ≢ []) × All (IsAbout actor card) events

-- The transaction found the card under the expected version, and left it under the next one with
-- events of its own.
abbrev pub Advances :
    Actor → ℕ → (expected_version : ℕ) → Card.MutationResult → DbState → DbState → Type 0
Advances actor card_id v r db db' =
    ((before : Card) × (find_card card_id db ≡ some before) × (before.version ≡ v))
    × (r.card.version ≡ v + 1)
    × (find_card card_id db' ≡ some r.card)
    × IsLogged actor r.card r.events db db'

-- The card was found, and neither the cards nor the log changed.
abbrev pub IsUnchanged :
    ℕ → (expected_version : ℕ) → Card.MutationResult → DbState → DbState → Type 0
IsUnchanged card_id v r db db' =
    (find_card card_id db ≡ some r.card)
    × (r.card.version ≡ v)
    × (r.events ≡ [])
    × (db'.cards ≡ db.cards)
    × (db'.events ≡ db.events)

find_replaced :
    {A : Type 0} (p : A → Bool) (v b : A) (xs : List A)
    → find p xs ≡ some b
    → p v ≡ true
    → find p (replace_first p v xs) ≡ some v
find_replaced p v b [] h t = cc
find_replaced p v b (x ∷ xs) h t = elim (Bool-cases (p x)) [
  | inl y ↦ ground arith
  | inr n ↦ ground (arith, find_replaced p v b xs)
]

Committed-Advances :
    (actor : Actor) (card_id v : ℕ) (before : Card) (r : Card.MutationResult) (w w1 w' : World)
    → accessible_card actor card_id w.db ≡ ok before
    → before.version ≡ v
    → r.card.version ≡ before.version + 1
    → r.card.id ≡ before.id
    → SameTables w w1
    → Committed actor r w1 w'
    → Advances actor card_id v r w.db w'.db
unfolding find_card
Committed-Advances actor card_id v before r w w1 w' a e n i (c, l, ev, _) k =
    let (f, _, id) = accessible_card-found actor card_id w.db before a in
    (
      (before, f, e),
      n ∙ ap (λ x. x + 1) e,
      subst (λ cs. find (λ c. c.id == card_id) cs ≡ some r.card)
          (sym (k.cards_are ∙ ap (replace_first (λ c. c.id == r.card.id) r.card) c))
          (subst
            (λ n.
              find (λ (x : Card). x.id == card_id)
                (replace_first (λ c. c.id == n) r.card w.db.cards)
              ≡ some r.card)
            (sym (i ∙ id))
            (find_replaced (λ c. c.id == card_id) r.card before w.db.cards f
              ((nat_eq.equal_iff r.card.id card_id).1 (i ∙ id)))),
      (k.events_are ∙ ap (λ x. x ++ r.events) ev, k.some_event, k.all_about),
    )

-- A lane for cards whose own lane is not found.
abbrev no_lane : Lane
no_lane = record { id = 0; board_id = 0; key = ""; label = ""; position = 0; wip_limit = none }

-- The edits of a field keep the card's identity, whatever its lane.
edit_fields-places :
    (deps : Deps) (actor : Actor) (card : Card) (w w' : World) (policy : PolicyDocument)
    (input : UpdateCardInput) (edit : Card.Edit)
    → Card.edit_fields deps actor card policy input w ≡ (ok edit, w')
    → SameTables w w'
      × (edit.next.id ≡ card.id)
      × (All (IsAbout actor card) [] → All (IsAbout actor card) edit.events)
edit_fields-places deps actor card w w' policy input edit p =
    elim (Result-cases (lane_of_card card w.db)) [
      | inl (lane, l) ↦
          let (t, (id, _, _, _), _, ab) =
            edit_fields-Edits deps actor card lane w (λ x y. ok-cancel (sym y ∙ l)) policy input
              edit w' p in
          (t, id, ab)
      | inr (x, n) ↦
          let (t, (id, _, _, _), _, ab) =
            edit_fields-Edits deps actor card no_lane w (λ x y. absurd (cc (n, y))) policy input
              edit w' p in
          (t, id, ab)
    ]

module _ (deps : Deps) (actor : Actor) (card_id : ℕ) (r : Card.MutationResult) (w w' : World) where
  pub archive_tx-Advances :
      (v : ℕ)
      → Card.archive_tx deps actor card_id v w ≡ (ok r, w')
      → Advances actor card_id v r w.db w'.db
  unfolding Card.archived_card
  archive_tx-Advances v h =
      let (card, (a, e, _), _, _, c) = archive_tx-run deps actor card_id r w w' v h in
      let (s, k) =
        commit-Committed deps actor (Card.archived_card (deps.now w.clock_calls) card)
          CardEventBody.card_archived r (ticked w) w' c in
      Committed-Advances actor card_id v card r w (ticked w) w' a e (ap (λ (x : Card). x.version) s)
        (ap (λ (x : Card). x.id) s) (refl, refl, refl, refl) k

  pub set_blocked_flag_tx-Advances :
      (v : ℕ) (reason : Option String)
      → Card.set_blocked_flag_tx deps actor card_id v reason w ≡ (ok r, w')
      → Advances actor card_id v r w.db w'.db
  unfolding Card.flagged_card
  set_blocked_flag_tx-Advances v reason h =
      let (card, (a, e, _), _, _, c) =
        set_blocked_flag_tx-run deps actor card_id r w w' v reason h in
      let (s, k) =
        commit-Committed deps actor (Card.flagged_card reason (deps.now w.clock_calls) card)
          (Card.flag_body reason) r (ticked w) w' c in
      Committed-Advances actor card_id v card r w (ticked w) w' a e (ap (λ (x : Card). x.version) s)
        (ap (λ (x : Card). x.id) s) (refl, refl, refl, refl) k

  pub cancel_tx-Advances :
      (input : CancelCardInput)
      → Card.cancel_tx deps actor card_id input w ≡ (ok r, w')
      → Advances actor card_id input.expected_version r w.db w'.db
  unfolding Card.cancelled_card
  cancel_tx-Advances input h =
      let (card, (a, e, _), _, (lane, _, _, (done, _, (position, _, c)))) =
        cancel_tx-run deps actor card_id r w w' input h in
      let (s, k) =
        commit-Committed deps actor
          (Card.cancelled_card done position input (deps.now w.clock_calls) card)
          (Card.cancelled_body input lane card) r (ticked w) w' c in
      Committed-Advances actor card_id input.expected_version card r w (ticked w) w' a e
        (ap (λ (x : Card). x.version) s) (ap (λ (x : Card). x.id) s) (refl, refl, refl, refl) k

  pub move_tx-Advances :
      (input : MoveCardInput) (completed : Bool)
      → Card.move_tx deps actor card_id input w
        ≡ (ok (record { result = r; completed = completed }), w')
      → Advances actor card_id input.expected_version r w.db w'.db
  unfolding Card.placed_card
  move_tx-Advances input completed h =
      let (card, a, e, _, (lane, _, (target, _, _, (fields, _, g)))) =
        move_tx-run deps actor input (record { result = r; completed = completed }) w w' card_id
          h in
      let (position, _, (updated, body, w1, same, hints, c, how)) =
        write_move-run deps actor input (record { result = r; completed = completed }) w w' card
          lane target fields g in
      let (s, k) = commit-Committed deps actor updated body r w1 w' c in
      let placed = Card.placed_card target position (deps.now w.clock_calls) card in
      let (vn, vi) : (updated.version ≡ card.version + 1) × (updated.id ≡ card.id) = elim how [
        | inl (_, _, u) ↦ (ap (λ (x : Card). x.version) u, ap (λ (x : Card). x.id) u)
        | inr (_, _, (started, u)) ↦
            let (_, _, j, n) = change_lane-place lane target fields started placed in
            (ap (λ (x : Card). x.version) u ∙ n, ap (λ (x : Card). x.id) u ∙ j)
      ] in
      Committed-Advances actor card_id input.expected_version card r w w1 w' a e
        (ap (λ (x : Card). x.version) s ∙ vn) (ap (λ (x : Card). x.id) s ∙ vi)
        (
          ap (λ (x : DbState). x.cards) same,
          ap (λ (x : DbState). x.lanes) same,
          ap (λ (x : DbState). x.events) same,
          hints,
        )
        k

  pub reopen_tx-Advances :
      (v : ℕ)
      → Card.reopen_tx deps actor card_id v w ≡ (ok r, w')
      → Advances actor card_id v r w.db w'.db
  unfolding Card.reopened_card
  reopen_tx-Advances v h =
      let (card, (a, e, _), (lane, _, _, (target, _, (position, _, c)))) =
        reopen_tx-run deps actor card_id r w w' v h in
      let (s, k) =
        commit-Committed deps actor
          (Card.reopened_card target position (is_some (restored_lane w.db card))
            (Card.cancel_payload card w.db) (deps.now w.clock_calls) card)
          (CardEventBody.card_reopened target.key) r (ticked w) w' c in
      Committed-Advances actor card_id v card r w (ticked w) w' a e (ap (λ (x : Card). x.version) s)
        (ap (λ (x : Card). x.id) s) (refl, refl, refl, refl) k

  -- An update that changes no field writes neither the card nor the log.
  pub update_tx-Advances :
      (input : UpdateCardInput)
      → Card.update_tx deps actor card_id input w ≡ (ok r, w')
      → IsUnchanged card_id input.expected_version r w.db w'.db
        ⊎ Advances actor card_id input.expected_version r w.db w'.db
  update_tx-Advances input h =
      let (card, (a, e, _), _, (policy, edit, w1, p, q)) =
        update_tx-run deps actor card_id r w w' input h in
      let ((c, l, ev, hi), id, ab) = edit_fields-places deps actor card w w1 policy input edit p in
      elim (commit_edit-run deps actor card edit r w1 w' id (ab tt) q) [
        | inl (s, n, same) ↦ inl (
          rw s ((accessible_card-found actor card_id w.db card a).0),
          rw s e,
          n,
          ap (λ (x : World). x.db.cards) same ∙ c,
          ap (λ (x : World). x.db.events) same ∙ ev,
        )
        | inr (s, k) ↦ inr (
            Committed-Advances actor card_id input.expected_version card r w w1 w' a e
              (ap (λ (x : Card). x.version) s) (ap (λ (x : Card). x.id) s ∙ id) (c, l, ev, hi) k)
      ]
