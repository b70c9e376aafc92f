-- ===== src/Undo/Redo.antt =====
-- What `cmd_redo` brings back.
use vjft.Prelude.{ℕ, ◌<◌, ◌≡◌, refl, List, ◌∷◌, ◌++◌, length, Option, some, pos, arith, ok, All}
use vjft.Prelude.{
  false, leb_ℤ, ◌+ℤ◌, if◌then◌else◌, ◌>>=◌, All-append, take-append_length, drop-append_length,
  length-append,
}
use vjft.Utf8.Chars.{IsChar, encode}
use vjft.Msg.{MsgNode}
use vjft.World.{CmdFunc, EventType, InputEvent, Action, World, eq_cmd?}
use vjft.Action.{recorded}
use vjft.Edit.Shows.{Shows}
use vjft.Edit.Insert.{splice, inserted}
use vjft.Command.{join_insert}
use vjft.Command.Insertion.{ShowsAfter, cmd_insert-Shows}
use vjft.Undo.{cmd_undo, cmd_redo, call}
use vjft.Undo.Restore.{done, undo_insertion}

-- Redoing an insertion makes it again, and moves the action back to the undo stack, if the action on
-- top there is of another command.
pub redo_insertion :
    (world : World) (node : MsgNode) (event : InputEvent) (cs new : List (List ℕ)) (k : ℕ)
    (prev : Action) (below stack : List (Option Action))
    → Shows node cs k
    → All IsChar new
    → world.undo_stack ≡ some prev ∷ below
    → eq_cmd? prev.cmd_fn CmdFunc.cmd_insert ≡ false
    → world.redo_stack ≡ some (done CmdFunc.cmd_insert (some (encode new))) ∷ stack
    → cmd_redo world node event
      ≡ ok (
        record world {
          undo_stack = some (done CmdFunc.cmd_insert (some (encode new))) ∷ world.undo_stack;
          redo_stack = stack;
        },
        inserted node (splice k new cs) k (length new),
        some (done CmdFunc.cmd_insert (some (encode new))),
      )
unfolding cmd_redo call recorded join_insert
redo_insertion world node event cs new k prev below stack h n below_top other top = ground (
  arith,
  top,
  below_top,
  other,
  cmd_insert-Shows (record world { redo_stack = stack }) node
      (record { type = EventType.cmd; cmd_fn = some CmdFunc.cmd_insert; seq = some (encode new) })
      cs new k h n refl,
)

splice-front :
    (front new back : List (List ℕ))
    → splice (length front) new (front ++ back) ≡ front ++ (new ++ back)
splice-front front new back = rw (take-append_length front back, drop-append_length front back) refl

-- Undo and then redo of an insertion, done once, of well-formed text with fewer bytes behind the
-- cursor than it has, over an action of another command, give back text, cursor and both stacks; a
-- marker that is not before the cursor moves on by the inserted characters once more.
pub redo_undo_insertion :
    (world : World) (node : MsgNode) (undo redo : InputEvent) (front new back : List (List ℕ))
    (prev : Action) (below : List (Option Action))
    → length (encode back) < length (encode new)
    → ShowsAfter node front new back
    → eq_cmd? prev.cmd_fn CmdFunc.cmd_insert ≡ false
    → world.undo_stack ≡ some (done CmdFunc.cmd_insert (some (encode new))) ∷ some prev ∷ below
    → (cmd_undo world node undo >>= λ (world', node', act). cmd_redo world' node' redo)
      ≡ ok (
        world,
        record node {
          marker_pos =
              if leb_ℤ node.cursor_pos node.marker_pos
              then node.marker_pos +ℤ pos (length new)
              else node.marker_pos;
        },
        some (done CmdFunc.cmd_insert (some (encode new))),
      )
redo_undo_insertion world node undo redo front new back prev below short h other top =
    let undone_node : MsgNode = record node {
      text = encode (front ++ back);
      cursor_pos = pos (length front);
    } in
    let act = done CmdFunc.cmd_insert (some (encode new)) in
    let world₁ : World = record world {
      undo_stack = some prev ∷ below;
      redo_stack = some act ∷ world.redo_stack;
    } in
    let shows : Shows undone_node (front ++ back) (length front) = record {
      valid = All-append IsChar front back h.front_valid h.back_valid;
      text = refl;
      cursor = refl;
      within = omega (arith, length-append {0} front back);
    } in
    let again =
      redo_insertion world₁ undone_node redo (front ++ back) new (length front) prev below
        world.redo_stack shows h.new_valid refl other refl in
    rw (undo_insertion world node undo front new back (some prev ∷ below) short h top, ◌>>=◌, again)
      (rw (splice-front front new back, ← h.text_after, h.cursor_after, ← top) refl)
