-- ===== src/Undo/Restore.antt =====
-- What `cmd_undo` restores.
use vjft.Prelude.{ℕ, ◌^◌, ◌<◌, ◌≡◌, refl}
use vjft.Prelude.{List, ◌∷◌, ◌++◌, length, Option, some}
use vjft.Prelude.{pos, arith, Run, ok, exit, All}
use vjft.Hex.{int_to_hex}
use vjft.Utf8.Chars.{IsChar, encode, offset}
use vjft.Msg.{MsgNode}
use vjft.World.{CmdFunc, EventType, InputEvent, Action, World, Step}
use vjft.Edit.Shows.{Shows}
use vjft.Edit.Motion.{at_cursor}
use vjft.Command.{no_action}
use vjft.Command.Insertion.{ShowsAfter, cmd_uninsert_removes, cmd_uninsert_exits}
use vjft.Command.Moves.{get_back_restores}
use vjft.Undo.{cmd_undo, call, get_comp_cmd}

-- The step of an undo that does nothing else to the undo stack: the action moves to the redo stack.
abbrev pub undone : World → List (Option Action) → Action → MsgNode → Run Step
undone world stack act node =
    ok (
      record world { undo_stack = stack; redo_stack = some act ∷ world.redo_stack },
      node,
      some act,
    )

-- One call of a complementary command that changes the node alone.
undo_once :
    (world : World) (node node' : MsgNode) (event : InputEvent) (f g : CmdFunc)
    (seq : Option (List ℕ)) (stack : List (Option Action))
    → world.undo_stack ≡ some (record { cmd_fn = some f; seq = seq; cnt = 1 }) ∷ stack
    → get_comp_cmd (some f) ≡ some g
    → call g
        (record world { undo_stack = stack })
        node
        (record { type = EventType.cmd; cmd_fn = some g; seq = seq })
      ≡ no_action (record world { undo_stack = stack }) node'
    → cmd_undo world node event
      ≡ undone world stack (record { cmd_fn = some f; seq = seq; cnt = 1 }) node'
unfolding cmd_undo
undo_once world node node' event f g seq stack top comp calls = ground (arith, top, comp, calls)

-- An action that was done once, with its text or its position.
abbrev pub done : CmdFunc → Option (List ℕ) → Action
done f seq = record { cmd_fn = some f; seq = seq; cnt = 1 }

-- cmd_undo of an insertion, done once, whose well-formed characters stand before the cursor, with
-- fewer bytes of text behind it than they have, removes them, puts the cursor back, leaves the
-- stack below and moves the action to the redo stack.
pub undo_insertion :
    (world : World) (node : MsgNode) (event : InputEvent) (front new back : List (List ℕ))
    (stack : List (Option Action))
    → length (encode back) < length (encode new)
    → ShowsAfter node front new back
    → world.undo_stack ≡ some (done CmdFunc.cmd_insert (some (encode new))) ∷ stack
    → cmd_undo world node event
      ≡ undone world stack
          (done CmdFunc.cmd_insert (some (encode new)))
          (record node { text = encode (front ++ back); cursor_pos = pos (length front) })
unfolding get_comp_cmd call
undo_insertion world node event front new back stack short h top =
    undo_once world node _ event CmdFunc.cmd_insert CmdFunc.cmd_uninsert (some (encode new)) stack
      top refl
      (cmd_uninsert_removes (record world { undo_stack = stack }) node _ front new back short h
        refl)

-- cmd_undo of a motion, done once, that kept the position of the cursor gives back the node from
-- before the motion, for positions below 2^31.
pub undo_motion :
    (world : World) (node : MsgNode) (event : InputEvent) (f : CmdFunc) (cs : List (List ℕ))
    (k m : ℕ) (stack : List (Option Action))
    → Shows node cs k
    → k < 2 ^ 31
    → get_comp_cmd (some f) ≡ some CmdFunc.cmd_get_back_to_line_pos
    → world.undo_stack ≡ some (done f (some (int_to_hex (pos k)))) ∷ stack
    → cmd_undo world (at_cursor node m) event
      ≡ undone world stack (done f (some (int_to_hex (pos k)))) node
unfolding call
undo_motion world node event f cs k m stack h small comp top =
    undo_once world (at_cursor node m) node event f CmdFunc.cmd_get_back_to_line_pos _ stack top
      comp (get_back_restores (record world { undo_stack = stack }) node _ cs k h m small refl)

-- On well-formed text cmd_undo of an insertion, done once, ends the program where fewer bytes
-- stand before the cursor than were inserted.
pub undo_insertion_exits :
    (world : World) (node : MsgNode) (event : InputEvent) (cs new : List (List ℕ)) (k : ℕ)
    (stack : List (Option Action))
    → Shows node cs k
    → All IsChar new
    → offset k cs < length (encode new)
    → world.undo_stack ≡ some (done CmdFunc.cmd_insert (some (encode new))) ∷ stack
    → cmd_undo world node event ≡ exit
unfolding cmd_undo get_comp_cmd call
undo_insertion_exits world node event cs new k stack h n lt top = ground (
  arith,
  top,
  cmd_uninsert_exits (record world { undo_stack = stack }) node
      (record { type = EventType.cmd; cmd_fn = some CmdFunc.cmd_uninsert; seq = some (encode new) })
      cs new k h n refl lt,
)
