-- ===== src/Services/Card/Flags.antt =====
-- packages/core/src/services/card-service.ts: `block`, `unblock` and `delete`.
use ai_kanban.Prelude.{
  ℕ, ◌+◌, Bool, true, false, not, Option, none, some, List, String, bool_eq, nat_eq, ◌==◌, is_some,
  if◌then◌else◌, filter,
}
use ai_kanban.Domain.Vocabulary.{Uuid, Instant}
use ai_kanban.Domain.Entities.{Actor, Card}
use ai_kanban.Domain.Events.{CardEventBody}
use ai_kanban.Domain.Errors.{Result, conflict}
use ai_kanban.Policy.Engine.{PolicyAction, evaluate_policy, decide}
use ai_kanban.Db.State.{Deps}
use ai_kanban.Db.Tx.{Tx, ◌>>=◌, ◌>>◌, pure, lift, reads, now, run, throw_if, for_each}
use ai_kanban.Db.Cards.{hard_delete}
use ai_kanban.Services.Access.{
  accessible_card, active_policy, lane_of_card, first_lane, ensure_not_archived, ensure_version,
}
use ai_kanban.Services.Internal.{publish_card_hints}
use ai_kanban.Services.Card.Common.{MutationResult, commit}

unfoldable pub flagged_card : Option String → Instant → Card → Card
flagged_card reason now_iso card = record card {
  blocked = is_some reason;
  blocked_reason = reason;
  blocked_at = if is_some reason then some now_iso else none;
  version = card.version + 1;
  updated_at = now_iso;
}

abbrev pub flag_action : Bool → PolicyAction
flag_action true = PolicyAction.card_block
flag_action false = PolicyAction.card_unblock

abbrev flag_conflict : Bool → String
flag_conflict true = "card is already blocked"
flag_conflict false = "card is not blocked"

abbrev pub flag_body : Option String → CardEventBody
flag_body none = CardEventBody.card_unblocked none
flag_body (some reason) = CardEventBody.card_blocked (some reason)

unfoldable pub set_blocked_flag_tx :
    Deps → Actor → ℕ → (expected_version : ℕ) → Option String → Tx MutationResult
unfolding flagged_card commit
set_blocked_flag_tx deps actor card_id expected_version reason = do
  card ← reads (accessible_card actor card_id)
  lift (ensure_not_archived card)
  policy ← reads (active_policy card.board_id)
  lift (decide (evaluate_policy actor (flag_action (is_some reason)) policy))
  lift (ensure_version card expected_version)
  throw_if (card.blocked == is_some reason) (conflict (flag_conflict (is_some reason)) (some card))
  now_iso ← now deps
  commit deps actor (flagged_card reason now_iso card) (flag_body reason)

unfoldable pub set_blocked_flag :
    Deps → Actor → ℕ → (expected_version : ℕ) → Option String → Tx Card
unfolding set_blocked_flag_tx run
set_blocked_flag deps actor card_id expected_version reason = do
  result ← run (set_blocked_flag_tx deps actor card_id expected_version reason)
  publish_card_hints result.card result.events
  pure result.card

unfoldable pub block : Deps → Actor → ℕ → (expected_version : ℕ) → (reason : String) → Tx Card
unfolding set_blocked_flag
block deps actor card_id expected_version reason =
    set_blocked_flag deps actor card_id expected_version (some reason)

unfoldable pub unblock : Deps → Actor → ℕ → (expected_version : ℕ) → Tx Card
unfolding set_blocked_flag
unblock deps actor card_id expected_version =
    set_blocked_flag deps actor card_id expected_version none

-- `blobStore.delete`, whose failure is swallowed.
unfoldable pub delete_blob : Deps → Uuid → Tx (Unit {0})
delete_blob deps key w = (
  Result.ok tt,
  if deps.blob_delete_fails key
      then w
      else record w { blobs = filter (λ k. not (k == key)) w.blobs },
)

unfoldable pub delete_tx : Deps → Actor → ℕ → (expected_version : ℕ) → Tx (List Uuid)
delete_tx deps actor card_id expected_version = do
  card ← reads (accessible_card actor card_id)
  policy ← reads (active_policy card.board_id)
  lift (decide (evaluate_policy actor (PolicyAction.card_delete card.reporter_id) policy))
  lift (ensure_version card expected_version)
  lane ← reads (lane_of_card card)
  entry ← reads (first_lane card.board_id)
  throw_if (not (lane.id == entry.id))
      (conflict "only a card still in the first column can be discarded" (some card))
  hard_delete card_id

-- `CardService.delete`: the rows go in one transaction, and the blobs after it.
unfoldable pub delete : Deps → Actor → ℕ → (expected_version : ℕ) → Tx (Unit {0})
unfolding delete_tx run delete_blob
delete deps actor card_id expected_version = do
  storage_keys ← run (delete_tx deps actor card_id expected_version)
  for_each storage_keys (delete_blob deps)
