-- ===== src/Web/ActionHistory.antt =====
-- packages/web/src/undo/action-history.ts: the stacks of undone and redone board actions. An action's
-- callbacks change the board `S`, or fail.
use ai_kanban.Prelude.{Option, none, some, List, [], ◌∷◌, String}

module _ (S : Type 0) where
  pub record UndoableAction : Type 0 where
    pub undo : S → Option S
    pub redo : S → Option S
    pub label : String

  -- The stacks, their newest entries first.
  pub record ActionHistory : Type 0 where
    pub undo_stack : List UndoableAction
    pub redo_stack : List UndoableAction

  -- What a call returns: nothing to do, the failure of the callback, or the action that it ran.
  pub data Outcome : Type 0 where
    nothing : Outcome
    failed : Outcome
    done : UndoableAction → Outcome

  unfoldable pub push_action : UndoableAction → ActionHistory → ActionHistory
  push_action action history = record { undo_stack = action ∷ history.undo_stack; redo_stack = [] }

  abbrev undone :
      UndoableAction
      → List UndoableAction
      → List UndoableAction
      → S
      → Option S
      → Outcome × (ActionHistory × S)
  undone action rest redos board none =
      (failed, (record { undo_stack = action ∷ rest; redo_stack = redos }, board))
  undone action rest redos board (some next) =
      (done action, (record { undo_stack = rest; redo_stack = action ∷ redos }, next))

  abbrev redone :
      UndoableAction
      → List UndoableAction
      → List UndoableAction
      → S
      → Option S
      → Outcome × (ActionHistory × S)
  redone action rest undos board none =
      (failed, (record { undo_stack = undos; redo_stack = action ∷ rest }, board))
  redone action rest undos board (some next) =
      (done action, (record { undo_stack = action ∷ undos; redo_stack = rest }, next))

  unfoldable pub undo_last : ActionHistory → S → Outcome × (ActionHistory × S)
  undo_last history board = elim (history.undo_stack) [
    | [] ↦ (nothing, (history, board))
    | action ∷ rest ↦ undone action rest history.redo_stack board (action.undo board)
  ]

  unfoldable pub redo_last : ActionHistory → S → Outcome × (ActionHistory × S)
  redo_last history board = elim (history.redo_stack) [
    | [] ↦ (nothing, (history, board))
    | action ∷ rest ↦ redone action rest history.undo_stack board (action.redo board)
  ]
