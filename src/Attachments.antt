-- ===== src/Attachments.antt =====
-- packages/core/src/services/attachment-service.ts: the caps on attachments, and the blobs of uploads
-- that fail.
pub mod Uploads
use ai_kanban.Prelude.{
  ℕ, ◌+◌, ◌≤◌, ◌<◌, Bool, true, false, not, ◌&&◌, none, some, List, [], ◌∷◌, ◌++◌, ◌≡◌, ◌⊎◌, inl,
  inr, refl, arith, All, All-append, All-replace_first, find, find-All, filter, length,
  replace_first, is_some, leb, ltb, nat_eq, ◌==◌, Bool-cases, length-filter-sort_by,
  length-filter-append, length-filter-replace_first-le, filter-filter, find_passes, ap, sym, ◌∙◌,
}
use ai_kanban.Domain.Vocabulary.{Uuid}
use ai_kanban.Domain.Entities.{Actor, Attachment, Card}
use ai_kanban.Domain.Commands.{AddAttachmentInput}
use ai_kanban.Domain.Errors.{
  DomainError, Result, ok, err, with_ok, with_some, Result-cases, ok-cancel,
}
use ai_kanban.Db.State.{DbState, World, Deps}
use ai_kanban.Db.Tx.{Tx, run}
use ai_kanban.Db.Rows.{
  find_user, find_attachment, insert_attachment, update_attachment, list_attachments, append_event,
}
use ai_kanban.Services.Access.{accessible_card, active_policy}
use ai_kanban.Services.Internal.{record_event, make_event}
use ai_kanban.Services.Card.{delete_blob}
use ai_kanban.Services.Attachment.{
  AttachmentResult, max_attachment_bytes, max_active_attachments_per_card, is_active, active_count,
  put_blob, insert_metadata, add_tx, add, or_delete_blob, remove_tx, remove, require_active,
}
use ai_kanban.Transactions.{mutation, mutation-run, mutation-err}

-- No card has more than ten active attachments, and no attachment more than 25 MB.
abbrev pub IsWithinCaps : DbState → Type 0
IsWithinCaps db =
    ((card_id : ℕ) → active_count card_id db ≤ max_active_attachments_per_card)
    × All (λ (a : Attachment). a.bytes ≤ max_attachment_bytes) db.attachments

abbrev counts : ℕ → Attachment → Bool
counts card_id a = a.card_id == card_id && is_active a

-- The count, read off the table.
active_count-rows :
    (card_id : ℕ) (db : DbState)
    → active_count card_id db ≡ length (filter (counts card_id) db.attachments)
unfolding active_count list_attachments
active_count-rows card_id db =
    length-filter-sort_by _ is_active (filter (λ a. a.card_id == card_id) db.attachments)
    ∙ ap length (filter-filter is_active (λ (a : Attachment). a.card_id == card_id) db.attachments)

abbrev created : Deps → Actor → Card → AddAttachmentInput → Uuid → World → Attachment
created deps actor card input storage_key w = record {
  id = deps.new_id w.id_calls;
  card_id = card.id;
  filename = input.filename;
  mime = input.mime;
  bytes = input.byte_length;
  sha256 = input.sha256;
  storage_key = storage_key;
  uploaded_by = actor.id;
  created_at = deps.now w.clock_calls;
  deleted_at = none;
}

insert_metadata-run :
    (deps : Deps) (actor : Actor) (card : Card) (input : AddAttachmentInput) (key : Uuid)
    (w w' : World) (r : AttachmentResult)
    → insert_metadata deps actor card input key w ≡ (ok r, w')
    → w'.db.attachments ≡ w.db.attachments ++ created deps actor card input key w ∷ []
unfolding insert_metadata insert_attachment record_event make_event append_event
insert_metadata-run deps actor card input key w w' r h = ground arith

add_tx-run :
    (deps : Deps) (actor : Actor) (card_id : ℕ) (input : AddAttachmentInput) (key : Uuid)
    (w w' : World) (r : AttachmentResult)
    → add_tx deps actor card_id input key w ≡ (ok r, w')
    → (card : Card) × (active_count card.id w.db < max_active_attachments_per_card)
      × (w'.db.attachments ≡ w.db.attachments ++ created deps actor card input key w ∷ [])
unfolding add_tx
add_tx-run deps actor card_id input key w w' r h =
    with_ok (accessible_card actor card_id w.db) (λ e q. ground arith)
      λ card f.
        with_ok (active_policy card.board_id w.db) (λ e q. ground arith)
          λ policy p. (
            card,
            ground arith,
            insert_metadata-run deps actor card input key w w' r (ground arith),
          )

active_count-append :
    (card_id : ℕ) (a : Attachment) (db db' : DbState)
    → db'.attachments ≡ db.attachments ++ a ∷ []
    → active_count card_id db' ≡ active_count card_id db + length (filter (counts card_id) (a ∷ []))
active_count-append card_id a db db' rows =
    active_count-rows card_id db'
    ∙ ap (λ xs. length (filter (counts card_id) xs)) rows
    ∙ length-filter-append (counts card_id) db.attachments (a ∷ [])
    ∙ ap (λ n. n + length (filter (counts card_id) (a ∷ []))) (sym (active_count-rows card_id db))

appended-IsWithinCaps :
    (a : Attachment) (db db' : DbState)
    → IsWithinCaps db
    → active_count a.card_id db < max_active_attachments_per_card
    → a.bytes ≤ max_attachment_bytes
    → db'.attachments ≡ db.attachments ++ a ∷ []
    → IsWithinCaps db'
appended-IsWithinCaps a db db' (counted, sizes) room fits rows = (
  λ card_id. elim (Bool-cases (a.card_id == card_id)) [
    | inl t ↦
        let same : a.card_id ≡ card_id = (nat_eq.equal_iff a.card_id card_id).0 t in
        let space : active_count card_id db < max_active_attachments_per_card = rw⁻¹ same room in
        ground (arith, active_count-append card_id a db db' rows)
    | inr f ↦ ground (arith, active_count-append card_id a db db' rows, counted card_id)
  ],
  rw rows (All-append _ db.attachments (a ∷ []) sizes (fits, tt)),
)

replaced-IsWithinCaps :
    (existing v : Attachment) (db db' : DbState) (q : Attachment → Bool)
    → IsWithinCaps db
    → find q db.attachments ≡ some existing
    → is_active v ≡ false
    → v.bytes ≡ existing.bytes
    → db'.attachments ≡ replace_first q v db.attachments
    → IsWithinCaps db'
replaced-IsWithinCaps existing v db db' q (counted, sizes) found gone same rows = (
  λ card_id.
      let fewer =
        length-filter-replace_first-le (counts card_id) q v existing db.attachments found
          (λ p. absurd (ground arith)) in
      rw (active_count-rows card_id db', rows)
        (omega (arith, fewer, active_count-rows card_id db, counted card_id)),
  rw rows (
      All-replace_first _ q v db.attachments sizes
        (rw same ((find-All _ q db.attachments existing sizes found).0))),
)

remove_tx-run :
    (deps : Deps) (actor : Actor) (id : Uuid) (w w' : World) (r : AttachmentResult)
    → remove_tx deps actor id w ≡ (ok r, w')
    → (existing : Attachment) × (find_attachment id w.db ≡ some existing)
      × (is_active r.attachment ≡ false)
      × (r.attachment.bytes ≡ existing.bytes)
      × (r.attachment.id ≡ existing.id)
      × (w'.db.attachments
          ≡ replace_first (λ a. a.id == r.attachment.id) r.attachment w.db.attachments)
unfolding remove_tx require_active update_attachment record_event make_event append_event
remove_tx-run deps actor id w w' r h =
    with_some (find_attachment id w.db) (λ e. ground arith)
      λ existing f.
        with_ok (accessible_card actor existing.card_id w.db) (λ e q. ground arith)
          λ card g.
            with_ok (active_policy card.board_id w.db) (λ e q. ground arith)
              λ policy p. (existing, f, ground arith, ground arith, ground arith, ground arith)
