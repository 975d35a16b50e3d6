-- ===== src/Services/Card/Update.antt =====
-- packages/core/src/services/card-service.ts: `CardService.update`.
use ai_kanban.Prelude.{
  ℕ, ◌+◌, Bool, true, false, ◌||◌, not, Option, none, some, List, [], ◌∷◌, ◌++◌, map, String,
  string_eq, nat_eq, option_eq, ◌==◌, ◌!=◌, is_some,
}
use ai_kanban.Domain.Vocabulary.{Uuid, Date, Priority, priority_eq, waiting_key}
use ai_kanban.Domain.Entities.{Actor, Card, Lane, Tag}
use ai_kanban.Domain.Commands.{UpdateCardInput}
use ai_kanban.Domain.Events.{CardEvent, CardEventBody, AuditedCardField, FieldValue}
use ai_kanban.Domain.Policy.{PolicyDocument}
use ai_kanban.Domain.Errors.{conflict, require_found}
use ai_kanban.Policy.Engine.{PolicyAction, evaluate_policy, decide}
use ai_kanban.Db.State.{Deps}
use ai_kanban.Db.Tx.{Tx, ◌>>=◌, ◌>>◌, pure, lift, reads, gets, now, run, for_each, throw_if}
use ai_kanban.Db.Cards.{update_card}
use ai_kanban.Db.Rows.{find_location, add_watcher, set_card_tags, list_tags, append_event}
use ai_kanban.Services.Access.{
  accessible_card, active_policy, lane_of_card, ensure_not_archived, ensure_version,
}
use ai_kanban.Services.Internal.{make_event, publish_card_hints, resolve_tags, same_tag_set}
use ai_kanban.Services.Card.Common.{
  MutationResult, ensure_active_waiting_reason, require_assignable,
}

-- The card as edited so far, and the events of the edits.
pub record Edit : Type 0 where
  pub next : Card
  pub events : List CardEvent

-- `fieldChanged(changeOf(field, from, to))` beside the assignment to `next`.
unfoldable pub field_changed :
    Deps
    → Actor
    → Card
    → (Card → Card)
    → AuditedCardField
    → FieldValue
    → FieldValue
    → Edit
    → Tx Edit
field_changed deps actor card assign field from to edit = do
  event ← make_event deps actor card.id (CardEventBody.card_field_changed field from to)
  pure (record { next = assign edit.next; events = edit.events ++ event ∷ [] })

module _ {A : Type 0} where
  abbrev pub nullable : (A → FieldValue) → Option A → FieldValue
  nullable f none = FieldValue.null
  nullable f (some a) = f a

  -- The edit is made where the input gives a value that differs.
  abbrev pub edit_if : Option A → (A → Bool) → (A → Edit → Tx Edit) → Edit → Tx Edit
  edit_if none differs change edit = pure edit
  edit_if (some a) differs change edit = elim (differs a) [
    | true ↦ change a edit
    | false ↦ pure edit
  ]

module _ (deps : Deps) (actor : Actor) (card : Card) where
  unfoldable pub edit_title : Option String → Edit → Tx Edit
  unfolding field_changed
  edit_title input =
      edit_if input (λ x. x != card.title)
        λ x.
          field_changed deps actor card (λ next. record next { title = x }) AuditedCardField.title
            (FieldValue.text card.title) (FieldValue.text x)

  unfoldable pub edit_description : Option String → Edit → Tx Edit
  unfolding field_changed
  edit_description input =
      edit_if input (λ x. x != card.description)
        λ x.
          field_changed deps actor card (λ next. record next { description = x })
            AuditedCardField.description (FieldValue.text card.description) (FieldValue.text x)

  unfoldable pub edit_priority : Option Priority → Edit → Tx Edit
  unfolding field_changed
  edit_priority input =
      edit_if input (λ x. x != card.priority)
        λ x.
          field_changed deps actor card (λ next. record next { priority = x })
            AuditedCardField.priority (FieldValue.ranked card.priority) (FieldValue.ranked x)

  unfoldable pub edit_estimate : Option (Option ℕ) → Edit → Tx Edit
  unfolding field_changed
  edit_estimate input =
      edit_if input (λ x. x != card.estimate_minutes)
        λ x.
          field_changed deps actor card (λ next. record next { estimate_minutes = x })
            AuditedCardField.estimate_minutes (nullable FieldValue.number card.estimate_minutes)
            (nullable FieldValue.number x)

  -- A newly assigned user must be assignable, and watches the card.
  unfoldable pub admit_assignee : Option Uuid → Tx (Unit {0})
  admit_assignee none = pure tt
  admit_assignee (some id) = do
    reads (require_assignable deps id card.board_id)
    now_iso ← now deps
    add_watcher card.id id now_iso

  unfoldable pub edit_assignee : Option (Option Uuid) → Edit → Tx Edit
  unfolding field_changed admit_assignee
  edit_assignee input =
      edit_if input (λ x. x != card.assignee_id)
        λ x edit. do
          admit_assignee x
          field_changed deps actor card (λ next. record next { assignee_id = x })
              AuditedCardField.assignee_id (nullable FieldValue.ident card.assignee_id)
              (nullable FieldValue.ident x) edit

  abbrev pub check_location : Option Uuid → Tx (Unit {0})
  check_location none = pure tt
  check_location (some id) = reads (λ db. require_found (find_location id db) "location") >> pure tt

  unfoldable pub edit_location : Option (Option Uuid) → Edit → Tx Edit
  unfolding field_changed
  edit_location input =
      edit_if input (λ x. x != card.location_id)
        λ x edit. do
          check_location x
          field_changed deps actor card (λ next. record next { location_id = x })
              AuditedCardField.location_id (nullable FieldValue.ident card.location_id)
              (nullable FieldValue.ident x) edit

  abbrev pub names_of : List Tag → List String
  names_of tags = map (λ (tag : Tag). tag.name) tags

  -- The same set of names is no change.
  unfoldable pub replace_tags : List Tag → Edit → List Tag → Tx Edit
  unfolding field_changed
  replace_tags from_tags edit resolved =
      elim (same_tag_set deps (names_of from_tags) (names_of resolved)) [
        | true ↦ pure edit
        | false ↦
            set_card_tags card.id (map (λ (tag : Tag). tag.id) resolved)
            >> field_changed deps actor card (λ next. next) AuditedCardField.tags
                (FieldValue.names (names_of from_tags)) (FieldValue.names (names_of resolved)) edit
      ]

  -- Full replacement.
  unfoldable pub edit_tags : Option (List String) → Edit → Tx Edit
  unfolding replace_tags
  edit_tags none edit = pure edit
  edit_tags (some names) edit = do
    from_tags ← gets (list_tags card.id)
    resolved ← resolve_tags deps names
    replace_tags from_tags edit resolved

  unfoldable pub edit_waiting_reason : PolicyDocument → Option String → Edit → Tx Edit
  unfolding field_changed
  edit_waiting_reason policy input =
      edit_if input (λ x. some x != card.waiting_reason)
        λ x edit. do
          lift (ensure_active_waiting_reason policy x card)
          field_changed deps actor card (λ next. record next { waiting_reason = some x })
              AuditedCardField.waiting_reason (nullable FieldValue.text card.waiting_reason)
              (FieldValue.text x) edit

  -- A new resume date arms the overdue alert again.
  unfoldable pub edit_expected_resume : Option Date → Edit → Tx Edit
  unfolding field_changed
  edit_expected_resume input =
      edit_if input (λ x. some x != card.expected_resume_at)
        λ x.
          field_changed deps actor card
            (λ next. record next { expected_resume_at = some x; resume_alerted_at = none })
            AuditedCardField.expected_resume_at (nullable FieldValue.day card.expected_resume_at)
            (FieldValue.day x)

  -- The waiting fields are editable only while the card sits in the waiting lane.
  unfoldable pub edit_in_lane : PolicyDocument → UpdateCardInput → Edit → Lane → Tx Edit
  unfolding edit_waiting_reason edit_expected_resume
  edit_in_lane policy input edit lane = do
    throw_if (not (lane.key == waiting_key)) (
        conflict "waiting reason and resume date can only be edited in the waiting lane"
          (some card))
    with_reason ← edit_waiting_reason policy input.waiting_reason edit
    edit_expected_resume input.expected_resume_at with_reason

  unfoldable pub edit_waiting : PolicyDocument → UpdateCardInput → Edit → Tx Edit
  unfolding edit_in_lane
  edit_waiting policy input edit =
      elim (is_some input.waiting_reason || is_some input.expected_resume_at) [
        | false ↦ pure edit
        | true ↦ reads (lane_of_card card) >>= edit_in_lane policy input edit
      ]

  unfoldable pub edit_fields : PolicyDocument → UpdateCardInput → Tx Edit
  unfolding edit_title edit_description edit_priority edit_estimate edit_assignee edit_location
      edit_tags edit_waiting
  edit_fields policy input =
      edit_title input.title (record { next = card; events = [] })
      >>= edit_description input.description
      >>= edit_priority input.priority
      >>= edit_estimate input.estimate_minutes
      >>= edit_assignee input.assignee_id
      >>= edit_location input.location_id
      >>= edit_tags input.tags
      >>= edit_waiting policy input

  -- The edited card under its next version, and the events in the log.
  unfoldable pub write_edit : Edit → Tx MutationResult
  unfolding append_event
  write_edit edit = do
    updated_at ← now deps
    let next = record (edit.next) { version = card.version + 1; updated_at = updated_at }
    update_card next
    for_each edit.events append_event
    pure (record { card = next; events = edit.events })

  -- No event means no write.
  unfoldable pub commit_edit : Edit → Tx MutationResult
  unfolding write_edit
  commit_edit edit = elim (edit.events) [
    | [] ↦ pure (record { card = card; events = [] })
    | _ ∷ _ ↦ write_edit edit
  ]

unfoldable pub update_tx : Deps → Actor → ℕ → UpdateCardInput → Tx MutationResult
unfolding edit_fields commit_edit
update_tx deps actor card_id input = do
  card ← reads (accessible_card actor card_id)
  lift (ensure_not_archived card)
  policy ← reads (active_policy card.board_id)
  lift (decide (evaluate_policy actor PolicyAction.card_update policy))
  lift (ensure_version card input.expected_version)
  edit ← edit_fields deps actor card policy input
  commit_edit deps actor card edit

unfoldable pub update : Deps → Actor → ℕ → UpdateCardInput → Tx Card
unfolding update_tx run
update deps actor card_id input = do
  result ← run (update_tx deps actor card_id input)
  publish_card_hints result.card result.events
  pure result.card
