-- ===== src/Examples/Uploads.antt =====
-- packages/core/src/services/attachment-service.ts at the example team.
use ai_kanban.Prelude.{◌≡◌, refl, arith, [], none}
use ai_kanban.Domain.Entities.{Attachment}
use ai_kanban.Domain.Commands.{AddAttachmentInput}
use ai_kanban.Domain.Errors.{ok, err, policy_denied}
use ai_kanban.Policy.Engine.{read_scope_rule}
use ai_kanban.Services.Attachment.{
  add, add_tx, insert_metadata, put_blob, or_delete_blob, active_count,
}
use ai_kanban.Attachments.{IsWithinCaps}
use ai_kanban.Attachments.Uploads.{AttachmentCommand, perform, perform-IsWithinCaps, add-discards}
use ai_kanban.Examples.Data.{deps, member, reader, team}
use ai_kanban.Prelude.{sort_by, insert_by}
use ai_kanban.Domain.Vocabulary.{ActorKind-discrete, TokenScope-discrete, Permission-discrete}
use ai_kanban.Policy.Engine.{grant, has_permission, evaluate_policy, evaluate_action}
use ai_kanban.Db.Tx.{run}
use ai_kanban.Db.Cards.{find_card}
use ai_kanban.Db.Rows.{
  find_board, find_user, get_default_board, get_active_policy, append_event, list_attachments,
  insert_attachment,
}
use ai_kanban.Services.Access.{
  accessible_card, require_board_access, can_access_board, has_membership, global_policy,
  active_policy,
}
use ai_kanban.Services.Internal.{make_event, record_event, publish_card_hints}

abbrev photo : AddAttachmentInput
photo = record { filename = "press.png"; mime = "image/png"; byte_length = 2048; sha256 = "00" }

abbrev upload : AttachmentCommand
upload = AttachmentCommand.add_attachment 1 photo

abbrev uploaded : Attachment
uploaded = record {
  id = 501;
  card_id = 1;
  filename = "press.png";
  mime = "image/png";
  bytes = 2048;
  sha256 = "00";
  storage_key = 500;
  uploaded_by = 7;
  created_at = 1000;
  deleted_at = none;
}

uploads : perform deps member upload team ≡ (ok uploaded, (perform deps member upload team).1)
unfolding add add_tx insert_metadata put_blob or_delete_blob active_count list_attachments
    insert_attachment find_user accessible_card find_card require_board_access find_board
    can_access_board global_policy get_default_board get_active_policy sort_by insert_by
    has_permission grant has_membership ActorKind-discrete TokenScope-discrete Permission-discrete
    active_policy evaluate_policy evaluate_action make_event record_event append_event
    publish_card_hints run
uploads = refl

within : IsWithinCaps team.db
unfolding active_count list_attachments sort_by
within = (λ card_id. omega arith, tt)

-- The member uploads a photo to the first card.
perform-IsWithinCaps_example : IsWithinCaps (perform deps member upload team).1.db
perform-IsWithinCaps_example =
    perform-IsWithinCaps deps member upload team (perform deps member upload team).1 (ok uploaded)
      within uploads

refused :
    add deps reader 1 photo team
    ≡ (err (policy_denied read_scope_rule), (add deps reader 1 photo team).1)
unfolding add add_tx insert_metadata put_blob or_delete_blob active_count list_attachments
    insert_attachment find_user accessible_card find_card require_board_access find_board
    can_access_board global_policy get_default_board get_active_policy sort_by insert_by
    has_permission grant has_membership ActorKind-discrete TokenScope-discrete Permission-discrete
    active_policy evaluate_policy evaluate_action make_event record_event append_event
    publish_card_hints run
refused = refl

-- A token of scope read is refused, and its blob is gone.
add-discards_example :
    ((add deps reader 1 photo team).1.db ≡ team.db) × ((add deps reader 1 photo team).1.blobs ≡ [])
add-discards_example =
    add-discards deps reader 1 photo team (add deps reader 1 photo team).1
      (policy_denied read_scope_rule) refl refl refused
