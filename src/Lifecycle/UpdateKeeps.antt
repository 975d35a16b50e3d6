-- ===== src/Lifecycle/UpdateKeeps.antt =====
-- packages/core/src/services/card-service.ts: what `update` commits once its edits are made.
use ai_kanban.Prelude.{
  ℕ, ◌+◌, ◌≡◌, ◌≢◌, arith, false, List, [], ◌∷◌, ◌++◌, All, append_assoc, append-nil, sym, subst,
  ◌∙◌, ap, inl, inr, ◌⊎◌, none, All-In, All-imp, List-cases, replace_first, ◌≤◌, ◌==◌, nat_eq,
}
use ai_kanban.Domain.Vocabulary.{LaneKey, Instant}
use ai_kanban.Domain.Entities.{Actor, Card}
use ai_kanban.Domain.Commands.{UpdateCardInput}
use ai_kanban.Domain.Events.{CardEvent}
use ai_kanban.Domain.Policy.{PolicyDocument}
use ai_kanban.Domain.Errors.{ok, with_ok}
use ai_kanban.Db.State.{World, Deps}
use ai_kanban.Db.Tx.{◌>>=◌, pure, for_each, bind-ok}
use ai_kanban.Db.Cards.{update_card, assert_unique_position, position_taken}
use ai_kanban.Db.Rows.{append_event}
use ai_kanban.Services.Access.{accessible_card, active_policy}
use ai_kanban.Services.Card
use ai_kanban.Lifecycle.Change.{IsChecked, ticked}
use ai_kanban.Lifecycle.Shape.{FieldsIn}
use ai_kanban.Lifecycle.Commit.{IsAbout, Committed}
use ai_kanban.Lifecycle.Valid.{Valid, HasLane, accessible_card-found, Committed-Valid, home_lane}
use ai_kanban.Lifecycle.Updates.{edit_fields-Edits}
use ai_kanban.Policy.Engine.{PolicyAction}

append_events-run :
    (events : List CardEvent) (w w' : World)
    → for_each events append_event w ≡ (ok tt, w')
    → (w'.db.events ≡ w.db.events ++ events)
      × (w'.db.cards ≡ w.db.cards)
      × (w'.db.lanes ≡ w.db.lanes)
      × (w'.hints ≡ w.hints)
unfolding append_event
append_events-run [] w w' h =
    (ground (arith, append-nil w.db.events), ground arith, ground arith, ground arith)
append_events-run (e ∷ es) w w' h =
    let (ev, c, l, n) =
      append_events-run es (record w { db = record (w.db) { events = w.db.events ++ e ∷ [] } }) w'
        (ground arith) in
    (ev ∙ append_assoc w.db.events (e ∷ []) es, c, l, n)

-- The card that an edit writes.
abbrev pub written : Deps → Card → Card.Edit → World → Card
written deps card edit w = record (edit.next) {
  version = card.version + 1;
  updated_at = deps.now w.clock_calls;
}

update_card-run :
    (card : Card) (w w' : World)
    → update_card card w ≡ (ok tt, w')
    → (w'.db.events ≡ w.db.events)
      × (w'.db.cards ≡ replace_first (λ c. c.id == card.id) card w.db.cards)
      × (w'.db.lanes ≡ w.db.lanes)
      × (w'.hints ≡ w.hints)
      × (position_taken card w.db.cards ≡ false)
unfolding update_card assert_unique_position
update_card-run card w w' h = ground arith

write_edit-run :
    (deps : Deps) (actor : Actor) (card : Card) (edit : Card.Edit) (r : Card.MutationResult)
    (w w' : World)
    → edit.next.id ≡ card.id
    → edit.events ≢ []
    → All (IsAbout actor card) edit.events
    → Card.write_edit deps actor card edit w ≡ (ok r, w')
    → (r.card ≡ written deps card edit w) × Committed actor r w w'
unfolding Card.write_edit
write_edit-run deps actor card edit r w w' i n a h =
    let (t1, w1, p1, q1) =
      bind-ok (update_card (written deps card edit w))
        (λ _. for_each edit.events append_event >>= λ _. pure made) (ticked w) w' r h in
    let (t2, w2, p2, q2) =
      bind-ok (for_each edit.events append_event) (λ _. pure made) w1 w' r q1 in
    let (e1, c1, l1, h1, f1) = update_card-run (written deps card edit w) (ticked w) w1 p1 in
    let (e2, c2, l2, h2) = append_events-run edit.events w1 w2 p2 in
    let same : w' ≡ w2 = ground arith in
    let is : made ≡ r = ground arith in
    (
      ap (λ (x : Card.MutationResult). x.card) (sym is),
      subst (λ x. Committed actor r w x) (sym same)
          (subst (λ x. Committed actor x w w2) is
            (record {
              cards_are = c2 ∙ c1;
              events_are = ground arith;
              lanes_are = l2 ∙ l1;
              some_event = n;
              all_about = All-imp _ _ edit.events (λ e (x, y). (x ∙ sym i, y)) a;
              was_free = f1;
              no_hint = h2 ∙ h1;
            })),
    )
  where
    made : Card.MutationResult
    made = record { card = written deps card edit w; events = edit.events }

pub commit_edit-run :
    (deps : Deps) (actor : Actor) (card : Card) (edit : Card.Edit) (r : Card.MutationResult)
    (w w' : World)
    → edit.next.id ≡ card.id
    → All (IsAbout actor card) edit.events
    → Card.commit_edit deps actor card edit w ≡ (ok r, w')
    → ((r.card ≡ card) × (r.events ≡ []) × (w' ≡ w))
      ⊎ ((r.card ≡ written deps card edit w) × Committed actor r w w')
unfolding Card.commit_edit
commit_edit-run deps actor card edit r w w' i a h = elim (List-cases edit.events) [
  | inl n ↦ inl (ground arith)
  | inr (e, es, n) ↦
      inr (write_edit-run deps actor card edit r w w' i (λ q. cc (n, q)) a (ground arith))
]

pub update_tx-run :
    (deps : Deps) (actor : Actor) (card_id : ℕ) (r : Card.MutationResult) (w w' : World)
    (input : UpdateCardInput)
    → Card.update_tx deps actor card_id input w ≡ (ok r, w')
    → (card : Card) × IsChecked deps actor card_id r w w' card input.expected_version
        PolicyAction.card_update
      × (card.archived_at ≡ none)
      × ((policy : PolicyDocument) × (edit : Card.Edit) × (w1 : World) × (Card.edit_fields deps
              actor card policy input w
            ≡ (ok edit, w1))
          × (Card.commit_edit deps actor card edit w1 ≡ (ok r, w')))
unfolding Card.update_tx
update_tx-run deps actor card_id r w w' input h =
    with_ok (accessible_card actor card_id w.db) (λ e q. ground arith)
      λ card a.
        with_ok (active_policy card.board_id w.db) (λ e q. ground arith)
          λ policy p.
            with_ok (Card.edit_fields deps actor card policy input w).0 (λ e q. ground arith)
              λ edit q. (
                card,
                (a, ground arith, (policy, p, ground arith)),
                ground arith,
                (
                  policy,
                  edit,
                  (Card.edit_fields deps actor card policy input w).1,
                  ground arith,
                  ground arith,
                ),
              )

versioned :
    (key : LaneKey) (card : Card) (version : ℕ) (updated_at : Instant)
    → FieldsIn key card
    → 1 ≤ version
    → FieldsIn key (record card { version = version; updated_at = updated_at })
versioned key card version updated_at f v = ground arith

-- The edits that an update commits, and either nothing written or the edited card and its events.
pub update_tx-Valid :
    (deps : Deps) (actor : Actor) (card_id : ℕ) (w w' : World)
    → Valid w.db
    → (input : UpdateCardInput) (r : Card.MutationResult)
    → Card.update_tx deps actor card_id input w ≡ (ok r, w')
    → Valid w'.db
update_tx-Valid deps actor card_id w w' v input r h =
    let (card, (a, _, _), _, (policy, edit, w1, p, q)) =
      update_tx-run deps actor card_id r w w' input h in
    let (_, i, _) = accessible_card-found actor card_id w.db card a in
    let home = All-In (HasLane w.db.lanes) w.db.cards card v.lanes i in
    let ((c, l, ev, hi), (id, b, m, po), f, ab) =
      edit_fields-Edits deps actor card home.lane w (λ x y. home_lane w.db card x home v y) policy
        input edit w1 p in
    let v1 : Valid w1.db = record {
      lane_ids = rw l v.lane_ids;
      apart = rw c v.apart;
      lanes = rw (l, c) v.lanes;
    } in
    elim (commit_edit-run deps actor card edit r w1 w' id (ab tt) q) [
      | inl (_, _, same) ↦ subst (λ (x : World). Valid x.db) (sym same) v1
      | inr (is, k) ↦ Committed-Valid actor r w1 w' v1 k (
          rw (is, l)
            (record {
              lane = home.lane;
              is_in = home.is_in;
              id_is = home.id_is ∙ sym m;
              board_is = home.board_is ∙ sym b;
              fields =
                  versioned home.lane.key edit.next (card.version + 1) (deps.now w1.clock_calls)
                    (f home.fields) (omega arith);
            }))
    ]
