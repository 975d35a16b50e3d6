-- ===== src/Lifecycle/Edits.antt =====
-- packages/core/src/services/card-service.ts: the edits of `update`, one field after another.
use ai_kanban.Prelude.{
  ◌≡◌, arith, Option, some, none, refl, Bool, ◌∙◌, All, All-append, [], ◌∷◌, ◌++◌, Bool-cases, inl,
  inr, string_eq, subst, sym,
}
use ai_kanban.Domain.Entities.{Actor, Card, Lane}
use ai_kanban.Domain.Events.{CardEvent, CardEventBody, AuditedCardField, FieldValue}
use ai_kanban.Domain.Errors.{ok}
use ai_kanban.Db.State.{World, Deps}
use ai_kanban.Db.Tx.{Tx}
use ai_kanban.Services.Internal.{make_event, event_actor_id, actor_label}
use ai_kanban.Services.Card
use ai_kanban.Lifecycle.Commit.{IsAbout}
use ai_kanban.Lifecycle.Shape.{FieldsIn}

-- Nothing was written to the tables of cards, lanes and events, and nothing published.
abbrev pub SameTables : World → World → Type 0
SameTables w w' =
    (w'.db.cards ≡ w.db.cards)
    × (w'.db.lanes ≡ w.db.lanes)
    × (w'.db.events ≡ w.db.events)
    × (w'.hints ≡ w.hints)

-- The card is the same one at the same place.
abbrev pub SamePlace : Card → Card → Type 0
SamePlace c d =
    (d.id ≡ c.id) × (d.board_id ≡ c.board_id) × (d.lane_id ≡ c.lane_id) × (d.position ≡ c.position)

module _ (deps : Deps) (actor : Actor) (card : Card) (lane : Lane) where
  -- What an edit of a card in the lane keeps.
  abbrev pub Edits : World → World → Card.Edit → Card.Edit → Type 0
  Edits w w' e e' =
      SameTables w w'
      × SamePlace e.next e'.next
      × (FieldsIn lane.key e.next → FieldsIn lane.key e'.next)
      × (All (IsAbout actor card) e.events → All (IsAbout actor card) e'.events)

  pub Edits-refl : (w : World) (e : Card.Edit) → Edits w w e e
  Edits-refl w e = ((refl, refl, refl, refl), (refl, refl, refl, refl), (λ f. f), (λ a. a))

  pub Edits-trans :
      (w1 w2 w3 : World) (e1 e2 e3 : Card.Edit)
      → Edits w1 w2 e1 e2
      → Edits w2 w3 e2 e3
      → Edits w1 w3 e1 e3
  Edits-trans w1 w2 w3 e1 e2 e3 ((a, b, c, d), (p, q, r, s), f, g)
        ((a', b', c', d'), (p', q', r', s'), f', g') =
      (
        (a' ∙ a, b' ∙ b, c' ∙ c, d' ∙ d),
        (p' ∙ p, q' ∙ q, r' ∙ r, s' ∙ s),
        (λ x. f' (f x)),
        (λ x. g' (g x)),
      )

  -- An assignment that leaves the place alone, and the fields that the lane speaks of.
  abbrev pub IsEdit : (Card → Card) → Type 0
  IsEdit assign =
      (c : Card) → SamePlace c (assign c) × (FieldsIn lane.key c → FieldsIn lane.key (assign c))

  pub field_changed-Edits :
      (assign : Card → Card) (field : AuditedCardField) (from to : FieldValue) (e e' : Card.Edit)
      (w w' : World)
      → IsEdit assign
      → Card.field_changed deps actor card assign field from to e w ≡ (ok e', w')
      → Edits w w' e e'
  unfolding Card.field_changed make_event
  field_changed-Edits assign field from to e e' w w' k h = subst (Edits w w' e) (sym made) (
    (ground arith, ground arith, ground arith, ground arith),
    (k e.next).0,
    (k e.next).1,
    λ a. All-append (IsAbout actor card) e.events (stamped ∷ []) a ((refl, refl), tt),
  )
    where
      stamped : CardEvent
      stamped = record {
        id = deps.new_id w.id_calls;
        card_id = card.id;
        actor_id = event_actor_id actor;
        actor_kind = actor.kind;
        actor_label = actor_label actor;
        created_at = deps.now w.clock_calls;
        body = CardEventBody.card_field_changed field from to;
      }

      made : e' ≡ record { next = assign e.next; events = e.events ++ stamped ∷ [] }
      made = ground arith

  module _ {A : Type 0} where
    pub edit_if-Edits :
        (input : Option A) (differs : A → Bool) (change : A → Card.Edit → Tx Card.Edit)
        (e e' : Card.Edit) (w w' : World)
        → Card.edit_if input differs change e w ≡ (ok e', w')
        → ((a : A) → change a e w ≡ (ok e', w') → Edits w w' e e')
        → Edits w w' e e'
    edit_if-Edits none differs change e e' w w' h k = ground (arith, Edits-refl w e)
    edit_if-Edits (some a) differs change e e' w w' h k = elim (Bool-cases (differs a)) [
      | inl t ↦ k a (ground arith)
      | inr f ↦ ground (arith, Edits-refl w e)
    ]
