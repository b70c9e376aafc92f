-- ===== src/Undo/Loss.antt =====
-- What undoing loses: the complementary command is called through `mngAct`, which takes an action of
-- that command off the undo stack.
use vjft.Prelude.{ℕ, ◌-◌, ◌≡◌, ◌≢◌, refl}
use vjft.Prelude.{List, ◌∷◌, length, Option, none, some}
use vjft.Prelude.{arith, All}
use vjft.Utf8.Chars.{IsChar, encode}
use vjft.Msg.{MsgNode}
use vjft.World.{CmdFunc, EventType, InputEvent, Action, World}
use vjft.Action.{recorded}
use vjft.Edit.Shows.{Shows}
use vjft.Edit.Insert.{splice, inserted}
use vjft.Edit.Motion.{at_cursor}
use vjft.Command.{join_insert}
use vjft.Command.Insertion.{cmd_insert-Shows}
use vjft.Command.Moves.{char_motions, get_back_without_position}
use vjft.Undo.{cmd_undo, call, get_comp_cmd}
use vjft.Undo.Restore.{done, undone}

-- On well-formed text cmd_undo of a deletion, done once, that stands on an insertion, done once,
-- inserts the deleted text again and drops that insertion from the undo stack, and moves only the
-- deletion to the redo stack.
pub undo_deletion_loses :
    (world : World) (node : MsgNode) (event : InputEvent) (cs new : List (List ℕ)) (k : ℕ)
    (old : List ℕ) (stack : List (Option Action))
    → Shows node cs k
    → All IsChar new
    → world.undo_stack
      ≡ some (done CmdFunc.cmd_backspace (some (encode new)))
        ∷ some (done CmdFunc.cmd_insert (some old))
        ∷ stack
    → cmd_undo world node event
      ≡ undone world stack
          (done CmdFunc.cmd_backspace (some (encode new)))
          (inserted node (splice k new cs) k (length new))
unfolding cmd_undo get_comp_cmd call recorded join_insert
undo_deletion_loses world node event cs new k old stack h n top = ground (
  arith,
  top,
  cmd_insert-Shows (record world { undo_stack = some (done CmdFunc.cmd_insert (some old)) ∷ stack })
      node
      (record { type = EventType.cmd; cmd_fn = some CmdFunc.cmd_insert; seq = some (encode new) })
      cs new k h n refl,
)

-- On well-formed text cmd_undo of a step forward, done once, with the cursor not at the start,
-- that stands on a step back moves the cursor back and drops the step back from the undo stack.
pub undo_forward_loses :
    (world : World) (node : MsgNode) (event : InputEvent) (cs : List (List ℕ)) (k : ℕ)
    (back : Action) (stack : List (Option Action))
    → Shows node cs k
    → k ≢ 0
    → back.cmd_fn ≡ some CmdFunc.cmd_backward_char
    → world.undo_stack ≡ some (done CmdFunc.cmd_forward_char none) ∷ some back ∷ stack
    → cmd_undo world node event
      ≡ undone world stack (done CmdFunc.cmd_forward_char none) (at_cursor node (k - 1))
unfolding cmd_undo get_comp_cmd call recorded
undo_forward_loses world node event cs k back stack h ne b top = ground (
  arith,
  top,
  (char_motions (record world { undo_stack = some back ∷ stack }) node
      (record { type = EventType.cmd; cmd_fn = some CmdFunc.cmd_backward_char; seq = none }) cs k
      h).0,
)

-- cmd_undo of a motion by a word forward, done once, takes the cursor to the start of the text.
pub undo_forward_word_to_start :
    (world : World) (node : MsgNode) (event : InputEvent) (cs : List (List ℕ)) (k : ℕ)
    (stack : List (Option Action))
    → Shows node cs k
    → world.undo_stack ≡ some (done CmdFunc.cmd_forward_word none) ∷ stack
    → cmd_undo world node event
      ≡ undone world stack (done CmdFunc.cmd_forward_word none) (at_cursor node 0)
unfolding cmd_undo get_comp_cmd call
undo_forward_word_to_start world node event cs k stack h top = ground (
  arith,
  top,
  get_back_without_position (record world { undo_stack = stack }) node
      (record { type = EventType.cmd; cmd_fn = some CmdFunc.cmd_get_back_to_line_pos; seq = none })
      cs k h refl,
)
