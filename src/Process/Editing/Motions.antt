-- ===== src/Process/Editing/Motions.antt =====
-- The motions of a session, against the abstract editor.
use vjft.Prelude.{ℕ, ◌+◌, ◌-◌, ◌≤◌, ◌≡◌, refl, Bool, true, false}
use vjft.Prelude.{length, if◌then◌else◌, none, some, ◌==◌}
use vjft.Prelude.{arith, Run, ok, All, min}
use vjft.Msg.{MsgNode}
use vjft.World.{CmdFunc, Action, World, Step}
use vjft.Action.{recorded}
use vjft.Undo.{run_cmd}
use vjft.Process.Editing.{Buffer, Edit, apply, event_of}
use vjft.Process.Editing.{IsActionOk, is_deletion, deletion_on_top}
use vjft.World.{eq_cmd}
use vjft.Edit.Shows.{Shows}
use vjft.Edit.Motion.{at_cursor}
use vjft.Command.{no_action, cmd_forward_char}
use vjft.Command.Moves.{char_motions, forward_word_motion, backward_word_motion, line_motions}
use vjft.Edit.Words.{word_end, word_start, word_end-le, word_end_at_end}
use vjft.Edit.Lines.{line_end, line_end-le, line_end_all}
use vjft.Process.Editing.Recorded.{
  Leaves, Does, recorded-IsActionOk, recorded_motion, recorded_command, is_deletion-other,
  leaves_deletion,
}

-- What a motion comes to: nothing at its end of the text, and else a cursor at `j`.
module _ (world : World) (node : MsgNode) (b : Buffer) (j : ℕ) (h : Shows node b.chars b.cursor)
    (a : All IsActionOk world.undo_stack) (inside : j ≤ length b.chars) (deletes : Bool)
    (top : deletes ≡ false → deletion_on_top world.undo_stack ≡ false) where
  moved :
      (w : World) (act : Action) (at_end : Bool) (run : Run Step)
      → run ≡ (if at_end then no_action world node else ok (w, at_cursor node j, some act))
      → All IsActionOk w.undo_stack
      → IsActionOk (some act)
      → is_deletion (some act) ≡ false
      → (at_end ≡ true → j ≡ b.cursor)
      → (step : Step) × (run ≡ ok step)
        × Leaves step (record b { cursor = j })
        × (deletes ≡ false → leaves_deletion step ≡ false)
  moved w act true run e aw good other stays = (
    (world, node, none),
    e,
    record { shows = rw (stays refl) h; actions = a; result = refl },
    top,
  )
  moved w act false run e aw good other stays = (
    (w, at_cursor node j, some act),
    e,
    record {
      shows = record { valid = h.valid; text = h.text; cursor = refl; within = inside };
      actions = aw;
      result = good;
    },
    λ still. other,
  )

module _ (world : World) (node : MsgNode) (b : Buffer) (h : Shows node b.chars b.cursor)
    (a : All IsActionOk world.undo_stack) (deletes : Bool)
    (top : deletes ≡ false → deletion_on_top world.undo_stack ≡ false) where
  -- The action of a motion is no deletion.
  no_deletion :
      (e : Edit) (f : CmdFunc)
      → (event_of e).cmd_fn ≡ some f
      → eq_cmd f f ≡ true
      → eq_cmd f CmdFunc.cmd_backspace ≡ false
      → is_deletion (some (recorded world (event_of e) f).1) ≡ false
  no_deletion e f c same other =
      is_deletion-other f (recorded world (event_of e) f).1
        (recorded_command world (event_of e) f a c same) other

  stack_left :
      (e : Edit) (f : CmdFunc) → All IsActionOk (recorded world (event_of e) f).0.undo_stack
  stack_left e f = recorded-IsActionOk world (event_of e) f a

  pub backward_char-Does : Does world node b Edit.backward_char CmdFunc.cmd_backward_char deletes
  unfolding apply run_cmd
  backward_char-Does =
      moved world node b (b.cursor - 1) h a (omega (arith, h.within)) deletes top _ _
        (b.cursor == 0) _
        (char_motions world node (event_of Edit.backward_char) b.chars b.cursor h).0
        (stack_left Edit.backward_char CmdFunc.cmd_backward_char)
        (recorded_motion world (event_of Edit.backward_char) CmdFunc.cmd_backward_char a refl refl)
        (no_deletion Edit.backward_char CmdFunc.cmd_backward_char refl refl refl)
        (λ e. ground arith)

  pub forward_char-Does : Does world node b Edit.forward_char CmdFunc.cmd_forward_char deletes
  unfolding apply run_cmd
  forward_char-Does =
      let (w, act) = recorded world (event_of Edit.forward_char) CmdFunc.cmd_forward_char in
      moved world node b (min (b.cursor + 1) (length b.chars)) h a (omega arith) deletes top w act
        (b.cursor == length b.chars) (cmd_forward_char world node (event_of Edit.forward_char))
        (ground (
          arith,
          h.within,
          (char_motions world node (event_of Edit.forward_char) b.chars b.cursor h).1,
        ))
        (stack_left Edit.forward_char CmdFunc.cmd_forward_char)
        (recorded_motion world (event_of Edit.forward_char) CmdFunc.cmd_forward_char a refl refl)
        (no_deletion Edit.forward_char CmdFunc.cmd_forward_char refl refl refl)
        (λ e. ground (arith, h.within))

  pub forward_word-Does : Does world node b Edit.forward_word CmdFunc.cmd_forward_word deletes
  unfolding apply run_cmd
  forward_word-Does =
      moved world node b (word_end b.chars b.cursor) h a (word_end-le b.chars b.cursor h.within)
        deletes top _ _ (b.cursor == length b.chars) _
        (forward_word_motion world node (event_of Edit.forward_word) b.chars b.cursor h)
        (stack_left Edit.forward_word CmdFunc.cmd_forward_word)
        (recorded_motion world (event_of Edit.forward_word) CmdFunc.cmd_forward_word a refl refl)
        (no_deletion Edit.forward_word CmdFunc.cmd_forward_word refl refl refl)
        (λ e. word_end_at_end b.chars b.cursor (ground arith))

  pub backward_word-Does : Does world node b Edit.backward_word CmdFunc.cmd_backward_word deletes
  unfolding apply run_cmd
  backward_word-Does =
      moved world node b (word_start b.chars b.cursor) h a (omega (arith, h.within)) deletes top _ _
        (b.cursor == 0) _
        (backward_word_motion world node (event_of Edit.backward_word) b.chars b.cursor h)
        (stack_left Edit.backward_word CmdFunc.cmd_backward_word)
        (ground (
          arith,
          recorded_motion world (event_of Edit.backward_word) CmdFunc.cmd_backward_word a refl refl,
        ))
        (ground (arith, no_deletion Edit.backward_word CmdFunc.cmd_backward_word refl refl refl))
        (λ e. ground arith)

  pub to_end-Does : Does world node b Edit.to_end_of_line CmdFunc.cmd_to_end_of_line deletes
  unfolding apply run_cmd
  to_end-Does =
      moved world node b (line_end b.chars b.cursor) h a (line_end-le b.chars b.cursor h.within)
        deletes top _ _ (b.cursor == length b.chars) _
        (line_motions world node (event_of Edit.to_end_of_line) b.chars b.cursor h).1
        (stack_left Edit.to_end_of_line CmdFunc.cmd_to_end_of_line) (ground arith)
        (no_deletion Edit.to_end_of_line CmdFunc.cmd_to_end_of_line refl refl refl)
        (λ e. ground (arith, line_end_all b.cursor b.chars))
