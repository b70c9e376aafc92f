-- ===== src/Command.antt =====
-- term/event.c: the commands that edit the current node (`cmd_*`), each with its guards.
pub mod Moves
pub mod Insertion
pub mod Deletion
use vjft.Prelude.{ℕ, zero, suc, ◌+◌, ◌-◌, List, [], ◌∷◌, ◌++◌, Bool, true, false, ◌&&◌, ◌||◌, not}
use vjft.Prelude.{
  ℤ, pos, negsuc, pos_part, ◌+ℤ◌, ◌-ℤ◌, ltb_ℤ, leb_ℤ, eqb_ℤ, to_size_t, ltb, leb, ◌==◌,
}
use vjft.Prelude.{
  if◌then◌else◌, Run, ok, fault, exit, ◌>>=◌, deref, Option, none, some, length, take, drop,
}
use vjft.Utf8.{utf8_strlen, utf8_byte_offset}
use vjft.Hex.{int_to_hex, hex_to_int}
use vjft.Msg.{MsgNode}
use vjft.World.{CmdFunc, InputEvent, Action, World, Step, Command}
use vjft.Action.{mng_act, no_update}
use vjft.Edit.{upd_backward_char, upd_forward_char, upd_forward_word, upd_backward_word}
use vjft.Edit.{upd_to_beginning_of_line, upd_to_end_of_line, upd_insert}
use vjft.Edit.{upd_set_marker, upd_unset_marker, upd_toggle_cursor}

-- `return NULL`, with nothing changed
abbrev pub no_action : World → MsgNode → Run Step
no_action world node = ok (world, node, none)

abbrev pub with_action : World × MsgNode × Action → Run Step
with_action (world, node, act) = ok (world, node, some act)

unfoldable pub cmd_backward_char : Command
cmd_backward_char world node event = elim (eqb_ℤ node.cursor_pos (pos 0)) [
  | true ↦ no_action world node
  | false ↦ mng_act world node event CmdFunc.cmd_backward_char upd_backward_char >>= with_action
]

unfoldable pub cmd_forward_char : Command
cmd_forward_char world node event = utf8_strlen node.text >>= λ len.
    elim (leb len (to_size_t node.cursor_pos)) [
      | true ↦ no_action world node
      | false ↦ mng_act world node event CmdFunc.cmd_forward_char upd_forward_char >>= with_action
    ]

unfoldable pub cmd_forward_word : Command
cmd_forward_word world node event = utf8_strlen node.text >>= λ len.
    elim (to_size_t node.cursor_pos == len) [
      | true ↦ no_action world node
      | false ↦ mng_act world node event CmdFunc.cmd_forward_word upd_forward_word >>= with_action
    ]

-- A new action keeps the old position.
unfoldable pub cmd_backward_word : Command
cmd_backward_word world node event = elim (eqb_ℤ node.cursor_pos (pos 0)) [
  | true ↦ no_action world node
  | false ↦
      mng_act world node event CmdFunc.cmd_backward_word upd_backward_word
      >>= λ (world', node', act). with_action (
        world',
        node',
        if act.cnt == 1 then record act { seq = some (int_to_hex node.cursor_pos) } else act,
      )
]

unfoldable pub cmd_to_beginning_of_line : Command
cmd_to_beginning_of_line world node event = elim (eqb_ℤ node.cursor_pos (pos 0)) [
  | true ↦ no_action world node
  | false ↦
      mng_act world node event CmdFunc.cmd_to_beginning_of_line upd_to_beginning_of_line
      >>= λ (world', node', act).
          with_action (world', node', record act { seq = some (int_to_hex node.cursor_pos) })
]

unfoldable pub cmd_get_back_to_line_pos : Command
cmd_get_back_to_line_pos world node event = utf8_strlen node.text >>= λ len.
    let old_cursor_pos = hex_to_int event.seq in
    no_action world (
      if ltb_ℤ old_cursor_pos (pos 0) || ltb len (to_size_t old_cursor_pos)
      then node
      else record node { cursor_pos = old_cursor_pos })

unfoldable pub cmd_to_end_of_line : Command
cmd_to_end_of_line world node event = utf8_strlen node.text >>= λ len.
    elim (leb len (to_size_t node.cursor_pos)) [
      | true ↦ no_action world node
      | false ↦
          mng_act world node event CmdFunc.cmd_to_end_of_line upd_to_end_of_line
          >>= λ (world', node', act).
              with_action (world', node', record act { seq = some (int_to_hex node.cursor_pos) })
    ]

-- An action that was taken off the stack gets the inserted bytes behind its own.
unfoldable pub join_insert : InputEvent → Action → Run Action
join_insert event act = elim (ltb 1 act.cnt) [
  | false ↦ ok act
  | true ↦ deref act.seq >>= λ inserted.
      deref event.seq >>= λ seq. ok (record act { seq = some (inserted ++ seq); cnt = 1 })
]

unfoldable pub cmd_insert : Command
cmd_insert world node event =
    mng_act world node event CmdFunc.cmd_insert upd_insert >>= λ (world', node', act).
    join_insert event act >>= λ act'. with_action (world', node', act')

-- `strcpy` inside one text, from `src` to `dest`: where the bytes that it reads, with the zero, and
-- those that it writes overlap, its behaviour is undefined.
unfoldable pub strcpy_within : List ℕ → ℕ → ℕ → Run (List ℕ)
strcpy_within text dest src =
    if ltb (length text - src) (src - dest) then ok (take dest text ++ drop src text) else fault

-- The program ends if the text before the cursor is shorter than what is to be removed.
unfoldable pub cmd_uninsert : Command
unfolding strcpy_within
cmd_uninsert world node event = deref event.seq >>= λ seq. utf8_strlen seq >>= λ cnt_del.
    utf8_byte_offset node.text node.cursor_pos >>= λ byte_offset.
    elim (ltb byte_offset (length seq)) [
      | true ↦ exit
      | false ↦ strcpy_within node.text (byte_offset - length seq) byte_offset >>= λ text.
          no_action world (record node { text = text; cursor_pos = node.cursor_pos -ℤ pos cnt_del })
    ]

-- How many characters `cmd_backspace` deletes: those of `seq`, if it is called by `cmd_redo`.
unfoldable pub backspace_count : InputEvent → Run ℕ
backspace_count event = elim event.seq [ none ↦ ok 1 | some seq ↦ utf8_strlen seq ]

-- An action that was taken off the stack should get the deleted bytes before its own; but `strncpy`
-- moves them through the pointer that `realloc` was given, which is undefined.
unfoldable pub join_deleted : List ℕ → Action → Run Action
join_deleted deleted act = elim (ltb 1 act.cnt) [
  | false ↦ ok (record act { seq = some deleted })
  | true ↦ fault
]

-- The string at an offset, for `strcpy` to read. The offset of a cursor behind a character that is cut
-- short may lie behind the zero.
unfoldable pub string_at : List ℕ → ℕ → Run (List ℕ)
string_at text byte_offset =
    if leb byte_offset (length text) then ok (drop byte_offset text) else fault

-- `cmd_backspace` once `cnt_del` is known. The offset of the new position is at most that of the
-- old, so `-` does not stop at 0.
unfoldable pub delete_back : World → MsgNode → InputEvent → ℕ → Run Step
unfolding string_at
delete_back world node event cnt_del = utf8_byte_offset node.text node.cursor_pos >>= λ byte_offset.
    let moved = node.cursor_pos -ℤ pos cnt_del in
    let new_cursor_pos = if ltb_ℤ moved (pos 0) then pos 0 else moved in
    let new_marker_pos =
      if ltb_ℤ node.marker_pos node.marker_pos
      then node.marker_pos -ℤ pos cnt_del
      else node.marker_pos in
    utf8_byte_offset node.text new_cursor_pos >>= λ byte_offset_prev.
    string_at node.text byte_offset >>= λ rest.
    mng_act world node event CmdFunc.cmd_backspace no_update >>= λ (world', node', act).
    let deleted = take (byte_offset - byte_offset_prev) (drop byte_offset_prev node.text) in
    join_deleted deleted act >>= λ act'. with_action (
      world',
      record {
        text = take byte_offset_prev node.text ++ rest;
        cursor_pos = new_cursor_pos;
        marker_pos = new_marker_pos;
      },
      act',
    )

unfoldable pub cmd_backspace : Command
cmd_backspace world node event = elim (eqb_ℤ node.cursor_pos (pos 0)) [
  | true ↦ no_action world node
  | false ↦ backspace_count event >>= λ cnt_del. delete_back world node event cnt_del
]

-- With `seq` in the event the marker gets that position: `cmd_undo` calls it so.
unfoldable pub cmd_set_marker : Command
cmd_set_marker world node event = elim (eqb_ℤ node.marker_pos (negsuc 0)) [
  | false ↦ no_action world node
  | true ↦
      mng_act world node event CmdFunc.cmd_set_marker upd_set_marker >>= λ (world', node', act).
      let placed : MsgNode = elim event.seq [
        | none ↦ node'
        | some seq ↦ record node' { marker_pos = hex_to_int (some seq) }
      ] in
      with_action (world', placed, record act { seq = some (int_to_hex node'.cursor_pos) })
]

unfoldable pub cmd_unset_marker : Command
cmd_unset_marker world node event = elim (eqb_ℤ node.marker_pos (negsuc 0)) [
  | true ↦ no_action world node
  | false ↦
      mng_act world node event CmdFunc.cmd_unset_marker upd_unset_marker >>= λ (world', node', act).
      with_action (world', node', record act { seq = some (int_to_hex node.marker_pos) })
]

unfoldable pub cmd_toggle_cursor : Command
cmd_toggle_cursor world node event =
    mng_act world node event CmdFunc.cmd_toggle_cursor upd_toggle_cursor >>= with_action
