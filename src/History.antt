-- ===== src/History.antt =====
-- packages/web/src/undo/action-history.ts: undoing and redoing board actions.
use ai_kanban.Prelude.{none, some, List, [], ◌∷◌, ◌≡◌, arith}
use ai_kanban.Web.ActionHistory.{
  UndoableAction, ActionHistory, Outcome, push_action, undo_last, redo_last,
}

-- A keystroke of the global handler.
pub data Key : Type 0 where
  undo_key redo_key : Key

module _ {S : Type 0} where
  -- Undoing the action that was just done, and redoing it, runs its two callbacks in turn and leaves
  -- the stacks as they were after it was done.
  pub redo_last-undo_last :
      (action : UndoableAction S) (history : ActionHistory S) (board before after : S)
      → action.undo board ≡ some before
      → action.redo before ≡ some after
      → let done = push_action S action history in
        let (u, (undone, b)) = undo_last S done board in
        (u ≡ Outcome.done action)
        × (b ≡ before)
        × (redo_last S undone b ≡ (Outcome.done action, (done, after)))
  unfolding push_action undo_last redo_last
  redo_last-undo_last action history board before after p q =
      (ground arith, ground arith, ground arith)

  -- A callback that fails leaves the stacks and the board as they were, so it can be tried again.
  pub undo_last-failed :
      (action : UndoableAction S) (history : ActionHistory S) (board : S)
      → action.undo board ≡ none
      → undo_last S (push_action S action history) board
        ≡ (Outcome.failed, (push_action S action history, board))
  unfolding push_action undo_last
  undo_last-failed action history board p = ground arith

  -- Each action leads back from the board, and its redo forth again.
  abbrev UndoPath : List (UndoableAction S) → S → Type 0
  UndoPath [] board = Unit
  UndoPath (a ∷ rest) board =
      (before : S) × (a.undo board ≡ some before)
      × (a.redo before ≡ some board)
      × UndoPath rest before

  -- Each action leads on from the board, and its undo back again.
  abbrev RedoPath : List (UndoableAction S) → S → Type 0
  RedoPath [] board = Unit
  RedoPath (a ∷ rest) board =
      (next : S) × (a.redo board ≡ some next) × (a.undo next ≡ some board) × RedoPath rest next

  -- The stacks hold what led to the board, and what leads on from it.
  abbrev pub IsTimeline : ActionHistory S → S → Type 0
  IsTimeline history board = UndoPath history.undo_stack board × RedoPath history.redo_stack board

  abbrev pub press : Key → ActionHistory S → S → Outcome S × (ActionHistory S × S)
  press Key.undo_key history board = undo_last S history board
  press Key.redo_key history board = redo_last S history board

  abbrev pub outcomes : List Key → ActionHistory S → S → List (Outcome S)
  outcomes [] history board = []
  outcomes (k ∷ keys) history board =
      let (u, (next, b)) = press k history board in u ∷ outcomes keys next b

  abbrev pub press_all : List Key → ActionHistory S → S → ActionHistory S × S
  press_all [] history board = (history, board)
  press_all (k ∷ keys) history board =
      let (u, (next, b)) = press k history board in press_all keys next b
