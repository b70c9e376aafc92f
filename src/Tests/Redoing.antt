-- ===== src/Tests/Redoing.antt =====
-- Undo and redo of an insertion behind a step back.
use vjft.Prelude.{◌≡◌, refl, [], ◌∷◌, ok, some, ◌>>=◌, arith}
use vjft.Tests.Sessions.{start, press}
use vjft.Tests.Editing.{ab, ab_node, ab_done, ab-ShowsAfter, back_action}
use vjft.World.{CmdFunc, World}
use vjft.Undo.{cmd_undo, cmd_redo}
use vjft.Undo.Redo.{redo_undo_insertion}

abbrev behind_step : World
behind_step = record start { undo_stack = some ab_done ∷ some back_action ∷ [] }

redo_undo_insertion_example :
    (cmd_undo behind_step ab_node (press CmdFunc.cmd_undo) >>= λ (world', node', act).
    cmd_redo world' node' (press CmdFunc.cmd_redo))
    ≡ ok (behind_step, ab_node, some ab_done)
redo_undo_insertion_example =
    redo_undo_insertion behind_step ab_node (press CmdFunc.cmd_undo) (press CmdFunc.cmd_redo) [] ab
      [] back_action [] (omega arith) ab-ShowsAfter refl refl
