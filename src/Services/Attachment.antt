-- ===== src/Services/Attachment.antt =====
-- packages/core/src/services/attachment-service.ts: `AttachmentService`.
use ai_kanban.Prelude.{
  ℕ, ◌*◌, Bool, not, none, some, [], ◌∷◌, ◌++◌, is_some, ltb, leb, length, filter, if◌then◌else◌,
}
use ai_kanban.Domain.Vocabulary.{Uuid}
use ai_kanban.Domain.Entities.{Actor, Attachment, Card}
use ai_kanban.Domain.Events.{CardEvent, CardEventBody}
use ai_kanban.Domain.Commands.{AddAttachmentInput}
use ai_kanban.Domain.Errors.{Result, ok, err, limit_exceeded, not_found, unexpected, require_found}
use ai_kanban.Domain.Errors
use ai_kanban.Policy.Engine.{PolicyAction, evaluate_policy, decide}
use ai_kanban.Db.State.{DbState, Deps}
use ai_kanban.Db.Tx.{Tx, ◌>>=◌, ◌>>◌, pure, lift, reads, gets, now, new_id, run, read, throw_if}
use ai_kanban.Db.Rows.{
  find_user, find_attachment, insert_attachment, update_attachment, list_attachments,
}
use ai_kanban.Services.Access.{accessible_card, active_policy, ensure_not_archived}
use ai_kanban.Services.Internal.{record_event, publish_card_hints}
use ai_kanban.Services.Card.{delete_blob}

abbrev pub max_attachment_bytes : ℕ
max_attachment_bytes = 25 * 1024 * 1024

abbrev pub max_active_attachments_per_card : ℕ
max_active_attachments_per_card = 10

-- An attachment, its card and the event that records the change.
pub record AttachmentResult : Type 0 where
  pub attachment : Attachment
  pub card : Card
  pub event : CardEvent

abbrev pub is_active : Attachment → Bool
is_active attachment = not (is_some attachment.deleted_at)

-- How many of the card's attachments count against the cap.
unfoldable pub active_count : ℕ → DbState → ℕ
active_count card_id db = length (filter is_active (list_attachments card_id db))

-- `blobStore.put`
unfoldable pub put_blob : Deps → Uuid → Tx (Unit {0})
put_blob deps key w =
    if deps.blob_put_fails key
    then (err (unexpected "blob store"), w)
    else (ok tt, record w { blobs = w.blobs ++ key ∷ [] })

unfoldable pub insert_metadata :
    Deps → Actor → Card → AddAttachmentInput → (storage_key : Uuid) → Tx AttachmentResult
insert_metadata deps actor card input storage_key = do
  id ← new_id deps
  created_at ← now deps
  let created : Attachment = record {
    id = id;
    card_id = card.id;
    filename = input.filename;
    mime = input.mime;
    bytes = input.byte_length;
    sha256 = input.sha256;
    storage_key = storage_key;
    uploaded_by = actor.id;
    created_at = created_at;
    deleted_at = none;
  }
  insert_attachment created
  event ← record_event deps actor card.id (CardEventBody.attachment_added id input.filename)
  pure (record { attachment = created; card = card; event = event })

unfoldable pub add_tx :
    Deps → Actor → ℕ → AddAttachmentInput → (storage_key : Uuid) → Tx AttachmentResult
unfolding active_count insert_metadata
add_tx deps actor card_id input storage_key = do
  card ← reads (accessible_card actor card_id)
  lift (ensure_not_archived card)
  policy ← reads (active_policy card.board_id)
  lift (decide (evaluate_policy actor PolicyAction.attachment_add policy))
  reads (λ db. require_found (find_user actor.id db) "uploader")
  active ← gets (active_count card.id)
  throw_if (leb max_active_attachments_per_card active) (
      limit_exceeded "card already has the maximum number of active attachments"
        max_active_attachments_per_card)
  insert_metadata deps actor card input storage_key

-- `try { … } catch`: the stored blob is deleted, and the error goes on.
unfoldable pub or_delete_blob : {A : Type 0} → Deps → Uuid → Tx A → Tx A
or_delete_blob deps storage_key body w =
    let (r, w') = body w in
    elim r [ ok a ↦ (ok a, w') | err e ↦ (err e, (delete_blob deps storage_key w').1) ]

unfoldable pub add : Deps → Actor → ℕ → AddAttachmentInput → Tx Attachment
unfolding put_blob or_delete_blob add_tx run
add deps actor card_id input = do
  throw_if (ltb max_attachment_bytes input.byte_length)
      (limit_exceeded "attachment exceeds the 25 MB limit" max_attachment_bytes)
  storage_key ← new_id deps
  put_blob deps storage_key
  or_delete_blob deps storage_key do
    result ← run (add_tx deps actor card_id input storage_key)
    publish_card_hints result.card (result.event ∷ [])
    pure result.attachment

unfoldable pub require_active : Uuid → DbState → Result Attachment
require_active id db =
    Errors.◌>>=◌ (require_found (find_attachment id db) "attachment")
      λ a. if is_active a then ok a else err (not_found "attachment")

unfoldable pub get_active : Actor → Uuid → Tx Attachment
unfolding require_active read
get_active actor attachment_id = read do
  attachment ← reads (require_active attachment_id)
  reads (accessible_card actor attachment.card_id)
  pure attachment

unfoldable pub remove_tx : Deps → Actor → Uuid → Tx AttachmentResult
unfolding require_active
remove_tx deps actor attachment_id = do
  existing ← reads (require_active attachment_id)
  card ← reads (accessible_card actor existing.card_id)
  lift (ensure_not_archived card)
  policy ← reads (active_policy card.board_id)
  lift (decide (evaluate_policy actor (PolicyAction.attachment_remove existing.uploaded_by) policy))
  deleted_at ← now deps
  let updated : Attachment = record existing { deleted_at = some deleted_at }
  update_attachment updated
  event ←
      record_event deps actor card.id (CardEventBody.attachment_removed updated.id updated.filename)
  pure (record { attachment = updated; card = card; event = event })

unfoldable pub remove : Deps → Actor → Uuid → Tx Attachment
unfolding remove_tx run
remove deps actor attachment_id = do
  result ← run (remove_tx deps actor attachment_id)
  publish_card_hints result.card (result.event ∷ [])
  delete_blob deps result.attachment.storage_key
  pure result.attachment
