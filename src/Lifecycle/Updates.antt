-- ===== src/Lifecycle/Updates.antt =====
-- packages/core/src/services/card-service.ts: the transaction of `update` keeps the store valid.
use ai_kanban.Prelude.{
  ◌≡◌, arith, Option, some, none, refl, true, ◌==◌, string_eq, nat_eq, option_eq, List, [], String,
  Bool-cases, inl, inr, map, sym, subst, ◌||◌, is_some, ◌∙◌,
}
use ai_kanban.Domain.Vocabulary.{Date, waiting_key}
use ai_kanban.Domain.Entities.{Actor, Card, Lane, Tag}
use ai_kanban.Domain.Commands.{UpdateCardInput}
use ai_kanban.Domain.Events.{FieldValue, AuditedCardField}
use ai_kanban.Domain.Policy.{PolicyDocument}
use ai_kanban.Domain.Errors.{ok, with_ok}
use ai_kanban.Db.State.{World, Deps, DbState}
use ai_kanban.Db.Tx.{Tx, ◌>>=◌, bind-ok, lift}
use ai_kanban.Db.Rows.{set_card_tags, list_tags, list_lanes}
use ai_kanban.Services.Access.{lane_of_card}
use ai_kanban.Services.Internal.{resolve_tags, same_tag_set}
use ai_kanban.Services.Card
use ai_kanban.Lifecycle.Edits.{Edits, Edits-refl, Edits-trans, edit_if-Edits}
use ai_kanban.Lifecycle.Fields

-- The lane of a card depends on the lanes alone.
lane_of_card-lanes :
    (card : Card) (db db' : DbState)
    → db'.lanes ≡ db.lanes
    → lane_of_card card db' ≡ lane_of_card card db
unfolding lane_of_card list_lanes
lane_of_card-lanes card db db' l = rw l refl

module _ (deps : Deps) (actor : Actor) (card : Card) (lane : Lane) (e e' : Card.Edit)
    (w w' : World) where
  replace_tags-Edits :
      (from_tags resolved : List Tag)
      → Card.replace_tags deps actor card from_tags e resolved w ≡ (ok e', w')
      → Edits deps actor card lane w w' e e'
  unfolding Card.replace_tags set_card_tags
  replace_tags-Edits from_tags resolved h =
      elim (Bool-cases (
        same_tag_set deps (Card.names_of deps actor card from_tags)
          (Card.names_of deps actor card resolved))) [
            | inl t ↦ ground (arith, Edits-refl deps actor card lane w e)
            | inr f ↦
                Fields.after_check deps actor card lane
                  (set_card_tags card.id (map (λ (tag : Tag). tag.id) resolved)) (λ next. next)
                  AuditedCardField.tags (FieldValue.names (Card.names_of deps actor card from_tags))
                  (FieldValue.names (Card.names_of deps actor card resolved)) e e' w w'
                  (λ c. ((refl, refl, refl, refl), λ f. f)) (λ w2 r. ground arith) (ground arith)
          ]

  edit_waiting_reason-Edits :
      (policy : PolicyDocument) (input : Option String)
      → (lane.key == waiting_key) ≡ true
      → Card.edit_waiting_reason deps actor card policy input e w ≡ (ok e', w')
      → Edits deps actor card lane w w' e e'
  unfolding Card.edit_waiting_reason
  edit_waiting_reason-Edits policy input here h =
      edit_if-Edits deps actor card lane input _ _ e e' w w' h (λ x k.
        Fields.after_check deps actor card lane
          (lift (Card.ensure_active_waiting_reason policy x card))
          (λ c. record c { waiting_reason = some x }) AuditedCardField.waiting_reason
          (Card.nullable FieldValue.text card.waiting_reason) (FieldValue.text x) e e' w w'
          (λ c. ((refl, refl, refl, refl), λ f. ground arith)) (λ w1 p. ground arith) k)

  edit_expected_resume-Edits :
      (input : Option Date)
      → (lane.key == waiting_key) ≡ true
      → Card.edit_expected_resume deps actor card input e w ≡ (ok e', w')
      → Edits deps actor card lane w w' e e'
  unfolding Card.edit_expected_resume
  edit_expected_resume-Edits input here h =
      edit_if-Edits deps actor card lane input _ _ e e' w w' h (λ x k.
        Fields.plain deps actor card lane
          (λ c. record c { expected_resume_at = some x; resume_alerted_at = none }) _ _ _ e e' w w'
          (λ c. ((refl, refl, refl, refl), λ f. ground arith)) k)

pub edit_tags-Edits :
    (deps : Deps) (actor : Actor) (card : Card) (lane : Lane) (e e' : Card.Edit) (w w' : World)
    (input : Option (List String))
    → Card.edit_tags deps actor card input e w ≡ (ok e', w')
    → Edits deps actor card lane w w' e e'
unfolding Card.edit_tags resolve_tags
edit_tags-Edits deps actor card lane e e' w w' none h =
    ground (arith, Edits-refl deps actor card lane w e)
edit_tags-Edits deps actor card lane e e' w w' (some names) h =
    let (resolved, w1, p, q) =
      bind-ok (resolve_tags deps names)
        (Card.replace_tags deps actor card (list_tags card.id w.db) e) w w' e' h in
    Edits-trans deps actor card lane w w1 w' e e e'
      (
        Fields.resolve_tags_from-same deps [] names w w1 resolved p,
        (refl, refl, refl, refl),
        (λ f. f),
        (λ a. a),
      )
      (replace_tags-Edits deps actor card lane e e' w1 w' (list_tags card.id w.db) resolved q)

module _ (deps : Deps) (actor : Actor) (card : Card) (lane : Lane) (w0 : World)
    (l : (x : Lane) → lane_of_card card w0.db ≡ ok x → x ≡ lane) (policy : PolicyDocument)
    (input : UpdateCardInput) where
  edit_in_lane-run :
      (e e' : Card.Edit) (w w' : World)
      → Card.edit_in_lane deps actor card policy input e lane w ≡ (ok e', w')
      → ((lane.key == waiting_key) ≡ true)
        × ((Card.edit_waiting_reason deps actor card policy input.waiting_reason e
                >>= Card.edit_expected_resume deps actor card input.expected_resume_at)
              w
            ≡ (ok e', w'))
  unfolding Card.edit_in_lane
  edit_in_lane-run e e' w w' h = ground arith

  edit_in_lane-Edits :
      (e e' : Card.Edit) (w w' : World)
      → Card.edit_in_lane deps actor card policy input e lane w ≡ (ok e', w')
      → Edits deps actor card lane w w' e e'
  edit_in_lane-Edits e e' w w' h =
      let (k, g) = edit_in_lane-run e e' w w' h in
      let (e1, w1, p, q) =
        bind-ok (Card.edit_waiting_reason deps actor card policy input.waiting_reason e)
          (Card.edit_expected_resume deps actor card input.expected_resume_at) w w' e' g in
      Edits-trans deps actor card lane w w1 w' e e1 e'
        (edit_waiting_reason-Edits deps actor card lane e e1 w w1 policy input.waiting_reason k p)
        (edit_expected_resume-Edits deps actor card lane e1 e' w1 w' input.expected_resume_at k q)

  edit_waiting-Edits :
      (e e' : Card.Edit) (w w' : World)
      → w.db.lanes ≡ w0.db.lanes
      → Card.edit_waiting deps actor card policy input e w ≡ (ok e', w')
      → Edits deps actor card lane w w' e e'
  unfolding Card.edit_waiting
  edit_waiting-Edits e e' w w' s h =
      elim (Bool-cases (is_some input.waiting_reason || is_some input.expected_resume_at)) [
        | inr f ↦ ground (arith, Edits-refl deps actor card lane w e)
        | inl t ↦
            with_ok (lane_of_card card w.db) (λ x q. ground arith)
              λ x q.
                let here : x ≡ lane = l x (sym (lane_of_card-lanes card w0.db w.db s) ∙ q) in
                edit_in_lane-Edits e e' w w' (
                  subst (λ y. Card.edit_in_lane deps actor card policy input e y w ≡ (ok e', w'))
                    here (ground arith))
      ]

  abbrev start : Card.Edit
  start = record { next = card; events = [] }

  -- The edits up to each field.
  abbrev to_title : Tx Card.Edit
  to_title = Card.edit_title deps actor card input.title start

  abbrev to_description : Tx Card.Edit
  to_description = to_title >>= Card.edit_description deps actor card input.description

  abbrev to_priority : Tx Card.Edit
  to_priority = to_description >>= Card.edit_priority deps actor card input.priority

  abbrev to_estimate : Tx Card.Edit
  to_estimate = to_priority >>= Card.edit_estimate deps actor card input.estimate_minutes

  abbrev to_assignee : Tx Card.Edit
  to_assignee = to_estimate >>= Card.edit_assignee deps actor card input.assignee_id

  abbrev to_location : Tx Card.Edit
  to_location = to_assignee >>= Card.edit_location deps actor card input.location_id

  abbrev to_tags : Tx Card.Edit
  to_tags = to_location >>= Card.edit_tags deps actor card input.tags

  step :
      (m : Tx Card.Edit) (f : Card.Edit → Tx Card.Edit) (e' : Card.Edit) (w' : World)
      → ((e1 : Card.Edit) (w1 : World)
          → m w0 ≡ (ok e1, w1)
          → Edits deps actor card lane w0 w1 start e1)
      → ((e1 : Card.Edit) (w1 : World)
          → f e1 w1 ≡ (ok e', w')
          → Edits deps actor card lane w1 w' e1 e')
      → (m >>= f) w0 ≡ (ok e', w')
      → Edits deps actor card lane w0 w' start e'
  step m f e' w' k l h =
      let (e1, w1, p, q) = bind-ok m f w0 w' e' h in
      Edits-trans deps actor card lane w0 w1 w' start e1 e' (k e1 w1 p) (l e1 w1 q)

  to_title-Edits :
      (e' : Card.Edit) (w' : World)
      → to_title w0 ≡ (ok e', w')
      → Edits deps actor card lane w0 w' start e'
  to_title-Edits e' w' h = Fields.edit_title-Edits deps actor card lane start e' w0 w' input.title h

  to_description-Edits :
      (e' : Card.Edit) (w' : World)
      → to_description w0 ≡ (ok e', w')
      → Edits deps actor card lane w0 w' start e'
  to_description-Edits e' w' h =
      step to_title (Card.edit_description deps actor card input.description) e' w' to_title-Edits
        (λ e1 w1 q.
          Fields.edit_description-Edits deps actor card lane e1 e' w1 w' input.description q)
        h

  to_priority-Edits :
      (e' : Card.Edit) (w' : World)
      → to_priority w0 ≡ (ok e', w')
      → Edits deps actor card lane w0 w' start e'
  to_priority-Edits e' w' h =
      step to_description (Card.edit_priority deps actor card input.priority) e' w'
        to_description-Edits
        (λ e1 w1 q. Fields.edit_priority-Edits deps actor card lane e1 e' w1 w' input.priority q) h

  to_estimate-Edits :
      (e' : Card.Edit) (w' : World)
      → to_estimate w0 ≡ (ok e', w')
      → Edits deps actor card lane w0 w' start e'
  to_estimate-Edits e' w' h =
      step to_priority (Card.edit_estimate deps actor card input.estimate_minutes) e' w'
        to_priority-Edits
        (λ e1 w1 q.
          Fields.edit_estimate-Edits deps actor card lane e1 e' w1 w' input.estimate_minutes q)
        h

  to_assignee-Edits :
      (e' : Card.Edit) (w' : World)
      → to_assignee w0 ≡ (ok e', w')
      → Edits deps actor card lane w0 w' start e'
  to_assignee-Edits e' w' h =
      step to_estimate (Card.edit_assignee deps actor card input.assignee_id) e' w'
        to_estimate-Edits
        (λ e1 w1 q. Fields.edit_assignee-Edits deps actor card lane e1 e' w1 w' input.assignee_id q)
        h

  to_location-Edits :
      (e' : Card.Edit) (w' : World)
      → to_location w0 ≡ (ok e', w')
      → Edits deps actor card lane w0 w' start e'
  to_location-Edits e' w' h =
      step to_assignee (Card.edit_location deps actor card input.location_id) e' w'
        to_assignee-Edits
        (λ e1 w1 q. Fields.edit_location-Edits deps actor card lane e1 e' w1 w' input.location_id q)
        h

  to_tags-Edits :
      (e' : Card.Edit) (w' : World)
      → to_tags w0 ≡ (ok e', w')
      → Edits deps actor card lane w0 w' start e'
  to_tags-Edits e' w' h =
      step to_location (Card.edit_tags deps actor card input.tags) e' w' to_location-Edits
        (λ e1 w1 q. edit_tags-Edits deps actor card lane e1 e' w1 w' input.tags q) h

  pub edit_fields-Edits :
      (e' : Card.Edit) (w' : World)
      → Card.edit_fields deps actor card policy input w0 ≡ (ok e', w')
      → Edits deps actor card lane w0 w' start e'
  unfolding Card.edit_fields
  edit_fields-Edits e' w' h =
      let (e7, w7, p7, h7) =
        bind-ok to_tags (Card.edit_waiting deps actor card policy input) w0 w' e' h in
      let d7 = to_tags-Edits e7 w7 p7 in
      Edits-trans deps actor card lane w0 w7 w' start e7 e' d7
        (edit_waiting-Edits e7 e' w7 w' (d7.0).1 h7)
