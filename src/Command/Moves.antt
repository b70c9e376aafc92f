-- ===== src/Command/Moves.antt =====
-- The motion commands, on a node that shows well-formed text.
use vjft.Prelude.{ℕ, ◌+◌, ◌-◌, ◌^◌, ◌<◌, ◌≡◌, refl, ap}
use vjft.Prelude.{List, length, if◌then◌else◌, none, some, ◌==◌}
use vjft.Prelude.{pos, arith, Run, ok}
use vjft.Hex.{int_to_hex, hex_to_int}
use vjft.Hex.RoundTrip.{hex_to_int-int_to_hex}
use vjft.Msg.{MsgNode}
use vjft.World.{CmdFunc, InputEvent, World, Step}
use vjft.Action.{recorded, mng_act}
use vjft.Edit.Shows.{Shows, strlen-Shows}
use vjft.Edit.Motion.{at_cursor, upd_backward_char-Shows, upd_forward_char-Shows}
use vjft.Edit.Words.{word_end, word_start, upd_forward_word-Shows, upd_backward_word-Shows}
use vjft.Edit.Lines.{line_start, line_end, upd_to_beginning_of_line-Shows, upd_to_end_of_line-Shows}
use vjft.Command.{no_action, cmd_backward_char, cmd_forward_char, cmd_forward_word}
use vjft.Command.{cmd_backward_word, cmd_to_beginning_of_line, cmd_to_end_of_line}
use vjft.Command.{cmd_get_back_to_line_pos}

-- The step of a command that is recorded: its action is the one that `mngAct` chose.
abbrev pub records : World → InputEvent → CmdFunc → MsgNode → Run Step
records world event action node =
    ok ((recorded world event action).0, node, some (recorded world event action).1)

module _ (world : World) (node : MsgNode) (event : InputEvent) (cs : List (List ℕ)) (k : ℕ)
    (h : Shows node cs k) where
  -- On well-formed text the character motions step over one character, and do nothing at the ends
  -- of the text.
  pub char_motions :
      (cmd_backward_char world node event ≡ (
        if k == 0
        then no_action world node
        else records world event CmdFunc.cmd_backward_char (at_cursor node (k - 1))))
      × (cmd_forward_char world node event ≡ (
          if k == length cs
          then no_action world node
          else records world event CmdFunc.cmd_forward_char (at_cursor node (k + 1))))
  unfolding cmd_backward_char cmd_forward_char mng_act
  char_motions = (
    ground (arith, h.cursor, upd_backward_char-Shows node event cs k h),
    ground (arith, h.cursor, h.within, strlen-Shows h, upd_forward_char-Shows node event cs k h),
  )

  -- On well-formed text cmd_forward_word does nothing at the end, and else moves the cursor over
  -- spaces and then over what is no space.
  pub forward_word_motion : cmd_forward_word world node event ≡ (
      if k == length cs
      then no_action world node
      else records world event CmdFunc.cmd_forward_word (at_cursor node (word_end cs k)))
  unfolding cmd_forward_word mng_act
  forward_word_motion =
      ground (arith, h.cursor, h.within, strlen-Shows h, upd_forward_word-Shows node event cs k h)

  -- On well-formed text cmd_backward_word does nothing at the start, and else moves the cursor
  -- back over spaces and then over what is no space; a new action keeps the old position.
  pub backward_word_motion : cmd_backward_word world node event ≡ (
      if k == 0
      then no_action world node
      else (let (world', act) = recorded world event CmdFunc.cmd_backward_word in
          ok (
            world',
            at_cursor node (word_start cs k),
            some (if act.cnt == 1 then record act { seq = some (int_to_hex (pos k)) } else act),
          )))
  unfolding cmd_backward_word mng_act
  backward_word_motion =
      ground (arith, h.cursor, h.within, upd_backward_word-Shows node event cs k h)

  -- On well-formed text cmd_to_beginning_of_line does nothing at position 0, and else goes to the
  -- start of the text, or to its end if a line break stands before the cursor; cmd_to_end_of_line
  -- does nothing at the end, and else goes to the next line break or to the end; both keep the old
  -- position in the action.
  pub line_motions :
      (cmd_to_beginning_of_line world node event ≡ (
        if k == 0
        then no_action world node
        else (let (world', act) = recorded world event CmdFunc.cmd_to_beginning_of_line in
            ok (
              world',
              at_cursor node (line_start cs k),
              some (record act { seq = some (int_to_hex (pos k)) }),
            ))))
      × (cmd_to_end_of_line world node event ≡ (
          if k == length cs
          then no_action world node
          else (let (world', act) = recorded world event CmdFunc.cmd_to_end_of_line in
              ok (
                world',
                at_cursor node (line_end cs k),
                some (record act { seq = some (int_to_hex (pos k)) }),
              ))))
  unfolding cmd_to_beginning_of_line cmd_to_end_of_line mng_act
  line_motions = (
    ground (arith, h.cursor, h.within, upd_to_beginning_of_line-Shows node event cs k h),
    ground (arith, h.cursor, h.within, strlen-Shows h, upd_to_end_of_line-Shows node event cs k h),
  )

  -- From wherever a motion took the cursor, `cmd_get_back_to_line_pos` with the position that was
  -- kept gives back the node.
  pub get_back_restores :
      (m : ℕ)
      → k < 2 ^ 31
      → event.seq ≡ some (int_to_hex (pos k))
      → cmd_get_back_to_line_pos world (at_cursor node m) event ≡ no_action world node
  unfolding cmd_get_back_to_line_pos
  get_back_restores m small e =
      ground
        (arith, h.cursor, h.within, strlen-Shows h, ap hex_to_int e, hex_to_int-int_to_hex (pos k))

  -- With no position in the action, it goes to the start of the text.
  pub get_back_without_position :
      event.seq ≡ none
      → cmd_get_back_to_line_pos world node event ≡ no_action world (at_cursor node 0)
  unfolding cmd_get_back_to_line_pos
  get_back_without_position e =
      ground (arith, h.cursor, h.within, strlen-Shows h, ap hex_to_int e, zero_position)
    where
      zero_position : hex_to_int none ≡ pos 0
      zero_position = unfold hex_to_int in refl
