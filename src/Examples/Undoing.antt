-- ===== src/Examples/Undoing.antt =====
-- packages/web/src/undo/action-history.ts over a board that is a number.
use ai_kanban.Prelude.{ℕ, ◌+◌, ◌-◌, ◌∷◌, [], some, List}
use ai_kanban.Web.ActionHistory.{UndoableAction, ActionHistory}
use ai_kanban.History.{Key}

abbrev move : UndoableAction ℕ
move = record { undo = λ n. some (n - 2); redo = λ n. some (n + 2); label = "Move" }

abbrev history : ActionHistory ℕ
history = record { undo_stack = move ∷ move ∷ []; redo_stack = [] }

abbrev keys : List Key
keys = Key.undo_key ∷ Key.undo_key ∷ Key.undo_key ∷ Key.redo_key ∷ []
