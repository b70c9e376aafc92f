-- ===== src/Tests/Sessions.antt =====
-- A session with the editor: type, move, delete, undo.
use vjft.Prelude.{
  fault, ℕ, ◌≡◌, refl, List, [], ◌∷◌, Bool, false, Run, ok, exit, Option, none, some,
}
use vjft.Prelude.{pos, negsuc, ◌>>=◌, codes}
use vjft.Msg.{MsgList, new_node}
use vjft.World.{CmdFunc, EventType, InputEvent, World}
use vjft.Utf8.{
  byte_at, utf8_char_length, utf8_strlen_from, utf8_strlen, utf8_next_char, is_continuation,
}
use vjft.Utf8.{
  prev_from, utf8_prev_char, byte_offset_loop, utf8_byte_offset, char_index_loop, utf8_char_index,
}
use vjft.Hex.{to_unsigned, to_int, hex_digit, hex_loop, int_to_hex, digit_value}
use vjft.Hex.{hex_to_int_loop, hex_to_int}
use vjft.Msg.{
  init_msg_list, push_message, clear_msg_list, move_to_next_message, move_to_previous_message,
}
use vjft.Action.{create_action, push_action, pop_action, clear_stack, choose_action, recorded}
use vjft.Action.{mng_act}
use vjft.Edit.{
  isspace, upd_backward_char, upd_forward_char, skip_forward, upd_forward_word, byte_before,
}
use vjft.Edit.{
  skip_backward, upd_backward_word, beginning_loop, upd_to_beginning_of_line, end_loop,
  upd_to_end_of_line,
}
use vjft.Edit.{upd_insert, upd_set_marker, upd_unset_marker, upd_toggle_cursor}
use vjft.Command.{string_at}
use vjft.Edit.{insert_bytes}
use vjft.Command.{
  cmd_backward_char, cmd_forward_char, cmd_forward_word, cmd_backward_word,
  cmd_to_beginning_of_line, cmd_get_back_to_line_pos,
}
use vjft.Command.{
  cmd_to_end_of_line, join_insert, cmd_insert, cmd_uninsert, backspace_count, join_deleted,
}
use vjft.Command.{
  strcpy_within, delete_back, cmd_backspace, cmd_set_marker, cmd_unset_marker, cmd_toggle_cursor,
}
use vjft.Undo.{client_send, cmd_enter, connect_to_server, cmd_connect, get_comp_cmd, descr_cmd_fn}
use vjft.Undo.{call, call_times, undo_action, cmd_undo, cmd_redo, run_cmd}
use vjft.Key.{same_bytes, identify_from, key_unknown, identify_key, key_to_str}
use vjft.Process.{
  enqueue_event, ascii_codes_loop, convert_to_ascii_codes, debug_event, take_result, keep_result,
}
use vjft.Process.{command_event, handle_event, process_events}
use vjft.Prelude.{decimal}
use vjft.Utf8.Chars.{is_char, all_continuation}
use vjft.Process.Editing.{apply, apply_all}

-- What a run of a session computes with.
unfoldable pub runs : Unit {0}
unfolding byte_at utf8_char_length utf8_strlen_from utf8_strlen utf8_next_char is_continuation
    prev_from utf8_prev_char byte_offset_loop utf8_byte_offset char_index_loop utf8_char_index
    to_unsigned to_int hex_digit hex_loop int_to_hex digit_value hex_to_int_loop hex_to_int
    init_msg_list push_message clear_msg_list move_to_next_message move_to_previous_message
    create_action push_action pop_action clear_stack choose_action recorded mng_act isspace
    upd_backward_char upd_forward_char skip_forward upd_forward_word byte_before skip_backward
    upd_backward_word beginning_loop upd_to_beginning_of_line end_loop upd_to_end_of_line upd_insert
    upd_set_marker upd_unset_marker upd_toggle_cursor cmd_backward_char cmd_forward_char
    cmd_forward_word cmd_backward_word cmd_to_beginning_of_line cmd_get_back_to_line_pos
    cmd_to_end_of_line join_insert cmd_insert cmd_uninsert backspace_count join_deleted
    strcpy_within string_at insert_bytes delete_back cmd_backspace cmd_set_marker cmd_unset_marker
    cmd_toggle_cursor client_send cmd_enter connect_to_server cmd_connect get_comp_cmd descr_cmd_fn
    call call_times undo_action cmd_undo cmd_redo run_cmd same_bytes identify_from key_unknown
    identify_key key_to_str enqueue_event ascii_codes_loop convert_to_ascii_codes debug_event
    take_result keep_result command_event handle_event process_events decimal is_char
    all_continuation apply apply_all
runs = tt

abbrev pub start_list : MsgList
start_list = record { newer = []; curr = some (new_node []); older = []; size = 1 }

abbrev pub start : World
start = record {
  msg_list = start_list;
  undo_stack = [];
  redo_stack = [];
  history = [];
  sockfd = negsuc 0;
  outgoing_queue = [];
  net = record { socket_result = pos 3; connect_result = pos 0 };
}

abbrev pub press : CmdFunc → InputEvent
press f = record { type = EventType.cmd; cmd_fn = some f; seq = none }

abbrev pub type : List ℕ → InputEvent
type seq = record { type = EventType.cmd; cmd_fn = some CmdFunc.cmd_insert; seq = some seq }

abbrev input_text : World × Bool → Option (List ℕ)
input_text (world, updated) = elim world.msg_list.curr [ none ↦ none | some node ↦ some node.text ]

abbrev shown : List InputEvent → Run (Option (List ℕ))
shown events = process_events [] events start false >>= λ r. ok (input_text r)

typed :
    shown (
      type (codes "a")
      ∷ type (codes "b")
      ∷ press CmdFunc.cmd_backspace
      ∷ press CmdFunc.cmd_undo
      ∷ [])
    ≡ ok (some (codes "ab"))
unfolding runs
typed = refl

-- Undo twice after typing and a deletion: the insertion is not undone.
lost_insertion :
    shown (
      type (codes "ab")
      ∷ press CmdFunc.cmd_backspace
      ∷ press CmdFunc.cmd_undo
      ∷ press CmdFunc.cmd_undo
      ∷ [])
    ≡ ok (some (codes "ab"))
unfolding runs
lost_insertion = refl

-- Undo after Enter ends the program.
undo_after_enter :
    shown (type (codes "a") ∷ press CmdFunc.cmd_enter ∷ press CmdFunc.cmd_undo ∷ []) ≡ exit
unfolding runs
undo_after_enter = refl

-- A second deletion moves the bytes of its action through a pointer that was reallocated.
deleted_twice :
    shown (
      type (codes "ab")
      ∷ press CmdFunc.cmd_backspace
      ∷ press CmdFunc.cmd_backspace
      ∷ press CmdFunc.cmd_undo
      ∷ [])
    ≡ fault
unfolding runs
deleted_twice = refl

undo_redo :
    shown (type (codes "ab") ∷ press CmdFunc.cmd_undo ∷ press CmdFunc.cmd_redo ∷ [])
    ≡ ok (some (codes "ab"))
unfolding runs
undo_redo = refl
