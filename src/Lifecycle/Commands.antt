-- ===== src/Lifecycle/Commands.antt =====
-- packages/core/src/services/card-service.ts: the operations that change one card, as one sum.
use ai_kanban.Prelude.{ℕ, String}
use ai_kanban.Domain.Entities.{Actor, Card}
use ai_kanban.Domain.Commands.{UpdateCardInput, MoveCardInput, CancelCardInput}
use ai_kanban.Db.State.{Deps}
use ai_kanban.Db.Tx.{Tx}
use ai_kanban.Services.Card

-- The operations that change one card.
pub data CardCommand : Type 0 where
  update : UpdateCardInput → CardCommand
  move : MoveCardInput → CardCommand
  cancel : CancelCardInput → CardCommand
  reopen archive unblock : (expected_version : ℕ) → CardCommand
  block : (expected_version : ℕ) → (reason : String) → CardCommand

abbrev pub execute : Deps → Actor → ℕ → CardCommand → Tx Card
execute deps actor card_id (CardCommand.update input) = Card.update deps actor card_id input
execute deps actor card_id (CardCommand.move input) = Card.move deps actor card_id input
execute deps actor card_id (CardCommand.cancel input) = Card.cancel deps actor card_id input
execute deps actor card_id (CardCommand.reopen v) = Card.reopen deps actor card_id v
execute deps actor card_id (CardCommand.archive v) = Card.archive deps actor card_id v
execute deps actor card_id (CardCommand.unblock v) = Card.unblock deps actor card_id v
execute deps actor card_id (CardCommand.block v reason) = Card.block deps actor card_id v reason
