-- ===== src/World.antt =====
-- term/event.h: events, actions and commands, and the globals that the commands share
-- (term/event.c, term/main.c).
use vjft.Prelude.{ℕ, List, ℤ, Option, none, some, Bool, false, ◌==◌}
use vjft.Prelude.{Run}
use vjft.Msg.{MsgNode, MsgList}

pub data EventType : Type 0 where
  dbg cmd : EventType

-- The functions that a `CmdFunc` may point to.
pub data CmdFunc : Type 0 where
  cmd_insert cmd_uninsert cmd_backspace cmd_backward_char cmd_forward_char : CmdFunc
  cmd_undo cmd_redo cmd_to_beginning_of_line cmd_to_end_of_line : CmdFunc
  cmd_get_back_to_line_pos cmd_backward_word cmd_forward_word cmd_toggle_cursor : CmdFunc
  cmd_set_marker cmd_unset_marker cmd_enter cmd_alt_enter cmd_connect : CmdFunc
  cmd_prev_msg cmd_next_msg cmd_copy cmd_cut cmd_paste cmd_stub : CmdFunc

-- An address for each function, so that pointers compare.
abbrev address : CmdFunc → ℕ
address cmd_insert = 0
address cmd_uninsert = 1
address cmd_backspace = 2
address cmd_backward_char = 3
address cmd_forward_char = 4
address cmd_undo = 5
address cmd_redo = 6
address cmd_to_beginning_of_line = 7
address cmd_to_end_of_line = 8
address cmd_get_back_to_line_pos = 9
address cmd_backward_word = 10
address cmd_forward_word = 11
address cmd_toggle_cursor = 12
address cmd_set_marker = 13
address cmd_unset_marker = 14
address cmd_enter = 15
address cmd_alt_enter = 16
address cmd_connect = 17
address cmd_prev_msg = 18
address cmd_next_msg = 19
address cmd_copy = 20
address cmd_cut = 21
address cmd_paste = 22
address cmd_stub = 23

abbrev pub eq_cmd : CmdFunc → CmdFunc → Bool
eq_cmd f g = address f == address g

abbrev pub eq_cmd? : Option CmdFunc → CmdFunc → Bool
eq_cmd? none g = false
eq_cmd? (some f) g = eq_cmd f g

pub record InputEvent : Type 0 where
  pub type : EventType
  pub cmd_fn : Option CmdFunc
  pub seq : Option (List ℕ)

pub record Action : Type 0 where
  pub cmd_fn : Option CmdFunc
  pub seq : Option (List ℕ)
  pub cnt : ℕ

-- What the calls of `socket` and `connect` return.
pub record Net : Type 0 where
  pub socket_result : ℤ
  pub connect_result : ℤ

-- A stack element holds a pointer, which may be null.
pub record World : Type 0 where
  pub msg_list : MsgList
  pub undo_stack : List (Option Action)
  pub redo_stack : List (Option Action)
  pub history : List InputEvent
  pub sockfd : ℤ
  pub outgoing_queue : List (List ℕ)
  pub net : Net

-- What a command leaves: the globals, the node that it was given, and its result.
abbrev pub Step : Type 0
Step = World × MsgNode × Option Action

abbrev pub Command : Type 0
Command = World → MsgNode → InputEvent → Run Step
