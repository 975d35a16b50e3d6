-- ===== src/Attachments/Uploads.antt =====
-- packages/core/src/services/attachment-service.ts: how uploads and removals end.
use ai_kanban.Prelude.{
  ℕ, ◌+◌, ◌≤◌, false, not, some, List, [], ◌∷◌, ◌++◌, ◌≡◌, ◌⊎◌, inl, inr, refl, arith, find, any,
  filter, ltb, nat_eq, ◌==◌, Bool-cases, find_passes, ◌∙◌,
}
use ai_kanban.Domain.Vocabulary.{Uuid}
use ai_kanban.Domain.Entities.{Actor, Attachment, Card}
use ai_kanban.Domain.Commands.{AddAttachmentInput}
use ai_kanban.Domain.Errors.{DomainError, Result, ok, err, Result-cases}
use ai_kanban.Db.State.{World, Deps}
use ai_kanban.Db.Tx.{Tx, run}
use ai_kanban.Db.Rows.{find_attachment, insert_attachment, append_event}
use ai_kanban.Services.Access.{accessible_card, active_policy}
use ai_kanban.Services.Internal.{record_event, make_event, publish_card_hints}
use ai_kanban.Services.Card.{delete_blob}
use ai_kanban.Services.Attachment.{
  max_attachment_bytes, put_blob, insert_metadata, add_tx, add, or_delete_blob, remove_tx, remove,
}
use ai_kanban.Transactions.{
  mutation, mutation-run, mutation-err, rolled_back, publish_card_hints-ok,
}
use ai_kanban.Lifecycle.Reachable.{delete_blob-db}
use ai_kanban.Attachments.{
  IsWithinCaps, created, add_tx-run, remove_tx-run, appended-IsWithinCaps, replaced-IsWithinCaps,
}

insert_metadata-blobs :
    (deps : Deps) (actor : Actor) (card : Card) (input : AddAttachmentInput) (key : Uuid)
    (w : World)
    → (insert_metadata deps actor card input key w).1.blobs ≡ w.blobs
unfolding insert_metadata insert_attachment record_event make_event append_event
insert_metadata-blobs deps actor card input key w = ground arith

-- The unit of work stores no blob.
add_tx-blobs :
    (deps : Deps) (actor : Actor) (card_id : ℕ) (input : AddAttachmentInput) (key : Uuid)
    (w : World)
    → (add_tx deps actor card_id input key w).1.blobs ≡ w.blobs
unfolding add_tx
add_tx-blobs deps actor card_id input key w =
    elim (Result-cases (accessible_card actor card_id w.db)) [
      | inl (card, f) ↦ elim (Result-cases (active_policy card.board_id w.db)) [
        | inl (policy, p) ↦ ground (arith, insert_metadata-blobs deps actor card input key w)
        | inr (e, p) ↦ ground arith
      ]
      | inr (e, f) ↦ ground arith
    ]

-- The world in which an upload's unit of work runs, once its blob is stored under `key`.
abbrev pub uploaded : Uuid → World → World
uploaded key w = record w { id_calls = w.id_calls + 1; blobs = w.blobs ++ key ∷ [] }

-- The unit of work of an upload and its hint.
abbrev stored : Deps → Actor → ℕ → AddAttachmentInput → Uuid → Tx Attachment
stored deps actor card_id input key =
    mutation (add_tx deps actor card_id input key) (λ r. r.card) (λ r. r.event ∷ [])
      (λ r. r.attachment)

-- How a call to add ends: too large or not stored, or with the unit of work's error and the blob
-- deleted again, or with the attachment of the unit of work.
add-run :
    (deps : Deps) (actor : Actor) (card_id : ℕ) (input : AddAttachmentInput) (w w' : World)
    (x : Result Attachment)
    → add deps actor card_id input w ≡ (x, w')
    → let key = deps.new_id w.id_calls in
      let run = stored deps actor card_id input key (uploaded key w) in
      ((w'.db ≡ w.db) × (w'.blobs ≡ w.blobs) × ((a : Attachment) → x ≡ ok a → ⊥))
      ⊎ ((input.byte_length ≤ max_attachment_bytes)
          × (((e : DomainError) × (x ≡ err e)
                × (run.0 ≡ err e)
                × (w' ≡ (delete_blob deps key run.1).1))
              ⊎ ((a : Attachment) × (x ≡ ok a) × (run ≡ (ok a, w')))))
unfolding add put_blob or_delete_blob
add-run deps actor card_id input w w' x h =
    let key = deps.new_id w.id_calls in
    let run = stored deps actor card_id input key (uploaded key w) in
    elim (Bool-cases (ltb max_attachment_bytes input.byte_length)) [
      | inl large ↦ inl (ground arith, ground arith, λ a p. ground arith)
      | inr small ↦ elim (Bool-cases (deps.blob_put_fails key)) [
        | inl fails ↦ inl (ground arith, ground arith, λ a p. ground arith)
        | inr put ↦ elim (Result-cases run.0) [
          | inl (a, o) ↦ inr (ground arith, inr (a, ground arith, ground arith))
          | inr (e, o) ↦ inr (ground arith, inl (e, ground arith, o, ground arith))
        ]
      ]
    ]

-- The operations that change attachments.
pub data AttachmentCommand : Type 0 where
  add_attachment : ℕ → AddAttachmentInput → AttachmentCommand
  remove_attachment : Uuid → AttachmentCommand

abbrev pub perform : Deps → Actor → AttachmentCommand → Tx Attachment
perform deps actor (AttachmentCommand.add_attachment card_id input) = add deps actor card_id input
perform deps actor (AttachmentCommand.remove_attachment id) = remove deps actor id

added-IsWithinCaps :
    (deps : Deps) (actor : Actor) (card_id : ℕ) (input : AddAttachmentInput) (w w' : World)
    (x : Result Attachment)
    → IsWithinCaps w.db
    → add deps actor card_id input w ≡ (x, w')
    → IsWithinCaps w'.db
unfolding delete_blob
added-IsWithinCaps deps actor card_id input w w' x caps h =
    let key = deps.new_id w.id_calls in
    let tx = add_tx deps actor card_id input key in
    elim (add-run deps actor card_id input w w' x h) [
      | inl (same, blobs, no_result) ↦ rw same caps
      | inr (fits, inl (e, q, o, end)) ↦
          let back =
            mutation-err tx (λ r. r.card) (λ r. r.event ∷ []) (λ r. r.attachment) (uploaded key w)
              (stored deps actor card_id input key (uploaded key w)).1 e (ground arith) in
          let same : w'.db ≡ w.db =
            ground (arith, end, back, delete_blob-db deps key (rolled_back tx (uploaded key w))) in
          rw same caps
      | inr (fits, inr (a, q, run)) ↦
          elim (mutation-run tx (λ r. r.card) (λ r. r.event ∷ []) (λ r. r.attachment)
            (uploaded key w) w' (ok a) run) [
              | inl (same, no_result) ↦ rw same caps
              | inr (r, w1, p, inner, same) ↦
                  let (card, room, rows) =
                    add_tx-run deps actor card_id input key (uploaded key w) w1 r inner in
                  rw same (
                    appended-IsWithinCaps (created deps actor card input key (uploaded key w)) w.db
                      w1.db caps room fits rows)
            ]
    ]

-- The tables after a removal are those after its unit of work and its hint.
remove-db :
    (deps : Deps) (actor : Actor) (id : Uuid) (w w' : World) (x : Result Attachment)
    → remove deps actor id w ≡ (x, w')
    → w'.db
      ≡ (mutation
          (remove_tx deps actor id)
          (λ r. r.card)
          (λ r. r.event ∷ [])
          (λ r. r.attachment)
          w).1.db
unfolding remove
remove-db deps actor id w w' x h =
    let tx = remove_tx deps actor id in
    elim (Result-cases (tx w).0) [
      | inl (r, e) ↦
          let hinted = publish_card_hints r.card (r.event ∷ []) (tx w).1 in
          let (p, q) = publish_card_hints-ok r.card (r.event ∷ []) (tx w).1 in
          ground (arith, delete_blob-db deps r.attachment.storage_key hinted.1)
      | inr (e, q) ↦ ground arith
    ]

removed-IsWithinCaps :
    (deps : Deps) (actor : Actor) (id : Uuid) (w w' : World) (x : Result Attachment)
    → IsWithinCaps w.db
    → remove deps actor id w ≡ (x, w')
    → IsWithinCaps w'.db
unfolding find_attachment
removed-IsWithinCaps deps actor id w w' x caps h =
    let tx = remove_tx deps actor id in
    let m = mutation tx (λ r. r.card) (λ r. r.event ∷ []) (λ r. r.attachment) w in
    rw (remove-db deps actor id w w' x h)
      (elim (mutation-run tx (λ r. r.card) (λ r. r.event ∷ []) (λ r. r.attachment) w m.1 m.0 refl) [
        | inl (same, no_result) ↦ rw same caps
        | inr (r, w1, p, inner, same) ↦
            let (existing, f, gone, bytes, i, rows) = remove_tx-run deps actor id w w1 r inner in
            let known : r.attachment.id ≡ id =
              i
              ∙ (nat_eq.equal_iff existing.id id).0
                  (find_passes (λ a. a.id == id) w.db.attachments existing f) in
            let at : find (λ (a : Attachment). a.id == r.attachment.id) w.db.attachments
                ≡ some existing =
              rw known f in
            rw same (
              replaced-IsWithinCaps existing r.attachment w.db w1.db (λ a. a.id == r.attachment.id)
                caps at gone bytes rows)
      ])

-- Whatever uploads and removals run, and whatever their outcome, no card has more than ten active
-- attachments and no attachment has more than 25 MB.
pub perform-IsWithinCaps :
    (deps : Deps) (actor : Actor) (command : AttachmentCommand) (w w' : World)
    (x : Result Attachment)
    → IsWithinCaps w.db
    → perform deps actor command w ≡ (x, w')
    → IsWithinCaps w'.db
perform-IsWithinCaps deps actor (AttachmentCommand.add_attachment card_id input) w w' x caps h =
    added-IsWithinCaps deps actor card_id input w w' x caps h
perform-IsWithinCaps deps actor (AttachmentCommand.remove_attachment id) w w' x caps h =
    removed-IsWithinCaps deps actor id w w' x caps h

filter-append_one :
    (key : Uuid) (blobs : List Uuid)
    → any (λ k. k == key) blobs ≡ false
    → filter (λ k. not (k == key)) (blobs ++ key ∷ []) ≡ blobs
filter-append_one key [] h = ground (arith, nat_eq.equal_iff key key)
filter-append_one key (k ∷ blobs) h = ground (arith, filter-append_one key blobs)

-- An upload that fails leaves the tables as they were, and leaves no blob where its key was free and
-- the store can delete it.
pub add-discards :
    (deps : Deps) (actor : Actor) (card_id : ℕ) (input : AddAttachmentInput) (w w' : World)
    (e : DomainError)
    → any (λ k. k == deps.new_id w.id_calls) w.blobs ≡ false
    → deps.blob_delete_fails (deps.new_id w.id_calls) ≡ false
    → add deps actor card_id input w ≡ (err e, w')
    → (w'.db ≡ w.db) × (w'.blobs ≡ w.blobs)
unfolding delete_blob
add-discards deps actor card_id input w w' e free works h =
    let key = deps.new_id w.id_calls in
    let tx = add_tx deps actor card_id input key in
    elim (add-run deps actor card_id input w w' (err e) h) [
      | inl (same, blobs, no_result) ↦ (same, blobs)
      | inr (fits, inr (a, q, run)) ↦ absurd (ground arith)
      | inr (fits, inl (d, q, o, end)) ↦
          let back =
            mutation-err tx (λ r. r.card) (λ r. r.event ∷ []) (λ r. r.attachment) (uploaded key w)
              (stored deps actor card_id input key (uploaded key w)).1 d (ground arith) in
          let same = add_tx-blobs deps actor card_id input key (uploaded key w) in
          let gone = filter-append_one key w.blobs free in
          (rw (end, back) (rw works refl), rw (end, back, works, same) gone)
    ]
