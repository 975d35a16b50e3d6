-- ===== src/Lifecycle/Fields.antt =====
-- packages/core/src/services/card-service.ts: each field that `update` edits.
use ai_kanban.Prelude.{
  ℕ, ◌≡◌, arith, Option, some, none, refl, string_eq, nat_eq, option_eq, List, [], ◌∷◌, String,
  includes, Bool-cases, inl, inr, ◌∙◌,
}
use ai_kanban.Domain.Vocabulary.{Uuid, Priority, priority_eq}
use ai_kanban.Domain.Entities.{Actor, Card, Lane, Tag}
use ai_kanban.Domain.Events.{AuditedCardField, FieldValue}
use ai_kanban.Domain.Errors.{Result, ok}
use ai_kanban.Db.State.{World, Deps}
use ai_kanban.Db.Tx.{Tx, ◌>>=◌, ◌>>◌, bind-ok, pure}
use ai_kanban.Db.Rows.{add_watcher, insert_tag}
use ai_kanban.Services.Internal.{resolve_tags_from, resolve_tag, create_tag}
use ai_kanban.Services.Card
use ai_kanban.Lifecycle.Edits.{
  SameTables, Edits, Edits-trans, IsEdit, field_changed-Edits, edit_if-Edits,
}

pub SameTables-trans : (w1 w2 w3 : World) → SameTables w1 w2 → SameTables w2 w3 → SameTables w1 w3
SameTables-trans w1 w2 w3 (a, b, c, d) (a', b', c', d') = (a' ∙ a, b' ∙ b, c' ∙ c, d' ∙ d)

resolve_tag-same :
    (deps : Deps) (name : String) (w w' : World) (r : Result Tag)
    → resolve_tag deps name w ≡ (r, w')
    → SameTables w w'
unfolding resolve_tag create_tag insert_tag
resolve_tag-same deps name w w' r h = ground arith

pub resolve_tags_from-same :
    (deps : Deps) (seen names : List String) (w w' : World) (tags : List Tag)
    → resolve_tags_from deps seen names w ≡ (ok tags, w')
    → SameTables w w'
unfolding resolve_tags_from
resolve_tags_from-same deps seen [] w w' tags h = ground arith
resolve_tags_from-same deps seen (name ∷ names) w w' tags h =
    elim (Bool-cases (includes seen (deps.to_lower_case name))) [
      | inl t ↦ resolve_tags_from-same deps seen names w w' tags (ground arith)
      | inr f ↦
          let (tag, w1, p, q) =
            bind-ok (resolve_tag deps name)
              (λ tag. resolve_tags_from deps (deps.to_lower_case name ∷ seen) names >>= λ rest.
                pure (tag ∷ rest))
              w w' tags (ground arith) in
          let (rest, w2, p2, q2) =
            bind-ok (resolve_tags_from deps (deps.to_lower_case name ∷ seen) names)
              (λ rest. pure (tag ∷ rest)) w1 w' tags q in
          SameTables-trans w w1 w' (resolve_tag-same deps name w w1 (ok tag) p) (
            SameTables-trans w1 w2 w'
              (resolve_tags_from-same deps (deps.to_lower_case name ∷ seen) names w1 w2 rest p2)
              (ground arith))
    ]

module _ (deps : Deps) (actor : Actor) (card : Card) where
  admit_assignee-same :
      (input : Option Uuid) (w w' : World) (r : Result (Unit {0}))
      → Card.admit_assignee deps actor card input w ≡ (r, w')
      → SameTables w w'
  unfolding Card.admit_assignee add_watcher
  admit_assignee-same none w w' r h = ground arith
  admit_assignee-same (some id) w w' r h = ground arith

  check_location-same :
      (input : Option Uuid) (w w' : World) (r : Result (Unit {0}))
      → Card.check_location deps actor card input w ≡ (r, w')
      → SameTables w w'
  check_location-same none w w' r h = ground arith
  check_location-same (some id) w w' r h = ground arith

module _ (deps : Deps) (actor : Actor) (card : Card) (lane : Lane) where
  -- An assignment to a field that the lanes do not speak of.
  pub plain :
      (assign : Card → Card) (field : AuditedCardField) (from to : FieldValue) (e e' : Card.Edit)
      (w w' : World)
      → IsEdit deps actor card lane assign
      → Card.field_changed deps actor card assign field from to e w ≡ (ok e', w')
      → Edits deps actor card lane w w' e e'
  plain assign field from to e e' w w' k h =
      field_changed-Edits deps actor card lane assign field from to e e' w w' k h

  -- An action that writes no card, before the assignment.
  pub after_check :
      (m : Tx (Unit {0})) (assign : Card → Card) (field : AuditedCardField) (from to : FieldValue)
      (e e' : Card.Edit) (w w' : World)
      → IsEdit deps actor card lane assign
      → ((w1 : World) → m w ≡ (ok tt, w1) → SameTables w w1)
      → (m >> Card.field_changed deps actor card assign field from to e) w ≡ (ok e', w')
      → Edits deps actor card lane w w' e e'
  after_check m assign field from to e e' w w' j k h =
      let (tt, w1, p, q) =
        bind-ok m (λ _. Card.field_changed deps actor card assign field from to e) w w' e' h in
      Edits-trans deps actor card lane w w1 w' e e e'
        (k w1 p, (refl, refl, refl, refl), (λ f. f), (λ a. a))
        (plain assign field from to e e' w1 w' j q)

module _ (deps : Deps) (actor : Actor) (card : Card) (lane : Lane) (e e' : Card.Edit)
    (w w' : World) where
  pub edit_title-Edits :
      (input : Option String)
      → Card.edit_title deps actor card input e w ≡ (ok e', w')
      → Edits deps actor card lane w w' e e'
  unfolding Card.edit_title
  edit_title-Edits input h = edit_if-Edits deps actor card lane input _ _ e e' w w' h (λ x k.
      plain deps actor card lane (λ c. record c { title = x }) _ _ _ e e' w w'
        (λ c. ((refl, refl, refl, refl), λ f. f)) k)

  pub edit_description-Edits :
      (input : Option String)
      → Card.edit_description deps actor card input e w ≡ (ok e', w')
      → Edits deps actor card lane w w' e e'
  unfolding Card.edit_description
  edit_description-Edits input h = edit_if-Edits deps actor card lane input _ _ e e' w w' h (λ x k.
      plain deps actor card lane (λ c. record c { description = x }) _ _ _ e e' w w'
        (λ c. ((refl, refl, refl, refl), λ f. f)) k)

  pub edit_priority-Edits :
      (input : Option Priority)
      → Card.edit_priority deps actor card input e w ≡ (ok e', w')
      → Edits deps actor card lane w w' e e'
  unfolding Card.edit_priority
  edit_priority-Edits input h = edit_if-Edits deps actor card lane input _ _ e e' w w' h (λ x k.
      plain deps actor card lane (λ c. record c { priority = x }) _ _ _ e e' w w'
        (λ c. ((refl, refl, refl, refl), λ f. f)) k)

  pub edit_estimate-Edits :
      (input : Option (Option ℕ))
      → Card.edit_estimate deps actor card input e w ≡ (ok e', w')
      → Edits deps actor card lane w w' e e'
  unfolding Card.edit_estimate
  edit_estimate-Edits input h = edit_if-Edits deps actor card lane input _ _ e e' w w' h (λ x k.
      plain deps actor card lane (λ c. record c { estimate_minutes = x }) _ _ _ e e' w w'
        (λ c. ((refl, refl, refl, refl), λ f. f)) k)

  pub edit_assignee-Edits :
      (input : Option (Option Uuid))
      → Card.edit_assignee deps actor card input e w ≡ (ok e', w')
      → Edits deps actor card lane w w' e e'
  unfolding Card.edit_assignee
  edit_assignee-Edits input h = edit_if-Edits deps actor card lane input _ _ e e' w w' h (λ x k.
      after_check deps actor card lane (Card.admit_assignee deps actor card x)
        (λ c. record c { assignee_id = x }) AuditedCardField.assignee_id
        (Card.nullable FieldValue.ident card.assignee_id) (Card.nullable FieldValue.ident x) e e' w
        w' (λ c. ((refl, refl, refl, refl), λ f. f))
        (λ w1 p. admit_assignee-same deps actor card x w w1 (ok tt) p) k)

  pub edit_location-Edits :
      (input : Option (Option Uuid))
      → Card.edit_location deps actor card input e w ≡ (ok e', w')
      → Edits deps actor card lane w w' e e'
  unfolding Card.edit_location
  edit_location-Edits input h = edit_if-Edits deps actor card lane input _ _ e e' w w' h (λ x k.
      after_check deps actor card lane (Card.check_location deps actor card x)
        (λ c. record c { location_id = x }) AuditedCardField.location_id
        (Card.nullable FieldValue.ident card.location_id) (Card.nullable FieldValue.ident x) e e' w
        w' (λ c. ((refl, refl, refl, refl), λ f. f))
        (λ w1 p. check_location-same deps actor card x w w1 (ok tt) p) k)
