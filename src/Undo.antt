-- ===== src/Undo.antt =====
-- term/event.c: the commands that use more of the globals than the undo stack (`cmd_enter`,
-- `cmd_connect`, `cmd_undo`, `cmd_redo`), the table of complementary commands, and the call of a
-- command through its pointer. `client_send` is that of term/client.c.
pub mod Restore
pub mod Loss
pub mod Redo
use vjft.Prelude.{
  ℕ, zero, suc, List, [], ◌∷◌, ◌++◌, Bool, true, false, ltb, if◌then◌else◌, ◌==◌, take,
}
use vjft.Prelude.{
  ℤ, pos, negsuc, eqb_ℤ, ltb_ℤ, Run, ok, fault, exit, ◌>>=◌, Option, none, some, codes, decimal,
}
use vjft.Utf8.{utf8_strlen}
use vjft.Msg.{MsgNode, push_message}
use vjft.World.{CmdFunc, EventType, InputEvent, Action, World, Step, Command, eq_cmd}
use vjft.Action.{pop_action, push_action}
use vjft.Command.{no_action, with_action, cmd_insert, cmd_uninsert, cmd_backspace}
use vjft.Command.{cmd_backward_char, cmd_forward_char, cmd_to_beginning_of_line, cmd_to_end_of_line}
use vjft.Command.{cmd_get_back_to_line_pos, cmd_backward_word, cmd_forward_word, cmd_toggle_cursor}
use vjft.Command.{cmd_set_marker, cmd_unset_marker}

-- `pushMessage(&msgList, text)`
abbrev pub post : World → List ℕ → World
post world text = record world { msg_list = push_message world.msg_list text }

-- The message goes into the outgoing queue; the result is 0.
unfoldable pub client_send : World → List ℕ → World × ℕ
client_send world text = (record world { outgoing_queue = world.outgoing_queue ++ (text ∷ []) }, 0)

abbrev cleared : MsgNode → MsgNode
cleared node = record { text = []; cursor_pos = pos 0; marker_pos = negsuc 0 }

unfoldable pub cmd_enter : Command
unfolding client_send
cmd_enter world node event = elim node.text [
  | [] ↦ no_action world node
  | c ∷ s ↦ elim (eqb_ℤ world.sockfd (negsuc 0)) [
    | false ↦
        let (sent, result) = client_send world (c ∷ s) in
        if result == 0 then no_action (post sent (c ∷ s)) (cleared node) else exit
    | true ↦ no_action (post (post world (codes "Not connected to server")) (c ∷ s)) (cleared node)
  ]
]

-- `socket` and `connect` return what the world holds for them.
unfoldable pub connect_to_server : World → World
connect_to_server world =
    let opened = record world { sockfd = world.net.socket_result } in
    let told =
      if ltb_ℤ world.net.socket_result (pos 0)
      then post opened (codes "connect_to_server_err: Cannot create socket")
      else opened in
    if ltb_ℤ world.net.connect_result (pos 0)
    then (let failed = post told (codes "connect_to_server_err: Connect failed") in
        record failed { sockfd = negsuc 0 })
    else told

unfoldable pub cmd_connect : Command
unfolding connect_to_server
cmd_connect world node event = no_action (connect_to_server world) node

-- The table `comp_cmds`, searched from the top.
unfoldable pub get_comp_cmd : Option CmdFunc → Option CmdFunc
get_comp_cmd (some CmdFunc.cmd_insert) = some CmdFunc.cmd_uninsert
get_comp_cmd (some CmdFunc.cmd_backspace) = some CmdFunc.cmd_insert
get_comp_cmd (some CmdFunc.cmd_forward_char) = some CmdFunc.cmd_backward_char
get_comp_cmd (some CmdFunc.cmd_backward_char) = some CmdFunc.cmd_forward_char
get_comp_cmd (some CmdFunc.cmd_to_beginning_of_line) = some CmdFunc.cmd_get_back_to_line_pos
get_comp_cmd (some CmdFunc.cmd_to_end_of_line) = some CmdFunc.cmd_get_back_to_line_pos
get_comp_cmd (some CmdFunc.cmd_backward_word) = some CmdFunc.cmd_get_back_to_line_pos
get_comp_cmd (some CmdFunc.cmd_forward_word) = some CmdFunc.cmd_get_back_to_line_pos
get_comp_cmd (some CmdFunc.cmd_toggle_cursor) = some CmdFunc.cmd_toggle_cursor
get_comp_cmd (some CmdFunc.cmd_set_marker) = some CmdFunc.cmd_unset_marker
get_comp_cmd (some CmdFunc.cmd_unset_marker) = some CmdFunc.cmd_set_marker
get_comp_cmd _ = none

-- The names in `cmd_func_table`.
unfoldable pub descr_cmd_fn : Option CmdFunc → List ℕ
descr_cmd_fn (some CmdFunc.cmd_insert) = codes "cmd_insert"
descr_cmd_fn (some CmdFunc.cmd_backspace) = codes "cmd_backspace"
descr_cmd_fn (some CmdFunc.cmd_backward_char) = codes "cmd_backward_char"
descr_cmd_fn (some CmdFunc.cmd_forward_char) = codes "cmd_forward_char"
descr_cmd_fn (some CmdFunc.cmd_undo) = codes "cmd_undo"
descr_cmd_fn (some CmdFunc.cmd_redo) = codes "cmd_redo"
descr_cmd_fn (some CmdFunc.cmd_to_beginning_of_line) = codes "cmd_to_beginning_of_line"
descr_cmd_fn (some CmdFunc.cmd_to_end_of_line) = codes "cmd_to_end_of_line"
descr_cmd_fn (some CmdFunc.cmd_backward_word) = codes "cmd_backward_word"
descr_cmd_fn (some CmdFunc.cmd_forward_word) = codes "cmd_forward_word"
descr_cmd_fn (some CmdFunc.cmd_toggle_cursor) = codes "cmd_toggle_cursor"
descr_cmd_fn (some CmdFunc.cmd_set_marker) = codes "cmd_set_marker"
descr_cmd_fn (some CmdFunc.cmd_unset_marker) = codes "cmd_unset_marker"
descr_cmd_fn (some CmdFunc.cmd_enter) = codes "cmd_enter"
descr_cmd_fn _ = codes "cmd_notfound"

-- A call of a command through a pointer. No action holds `cmd_undo` or `cmd_redo`, so a call from
-- within them never comes back to them.
unfoldable pub call : CmdFunc → Command
unfolding cmd_enter cmd_connect
call CmdFunc.cmd_insert = cmd_insert
call CmdFunc.cmd_uninsert = cmd_uninsert
call CmdFunc.cmd_backspace = cmd_backspace
call CmdFunc.cmd_backward_char = cmd_backward_char
call CmdFunc.cmd_forward_char = cmd_forward_char
call CmdFunc.cmd_to_beginning_of_line = cmd_to_beginning_of_line
call CmdFunc.cmd_to_end_of_line = cmd_to_end_of_line
call CmdFunc.cmd_get_back_to_line_pos = cmd_get_back_to_line_pos
call CmdFunc.cmd_backward_word = cmd_backward_word
call CmdFunc.cmd_forward_word = cmd_forward_word
call CmdFunc.cmd_toggle_cursor = cmd_toggle_cursor
call CmdFunc.cmd_set_marker = cmd_set_marker
call CmdFunc.cmd_unset_marker = cmd_unset_marker
call CmdFunc.cmd_enter = cmd_enter
call CmdFunc.cmd_connect = cmd_connect
call CmdFunc.cmd_undo = λ world node event. fault
call CmdFunc.cmd_redo = λ world node event. fault
call _ = λ world node event. no_action world node

call? : Option CmdFunc → Command
call? none = λ world node event. fault
call? (some f) = call f

-- The `for` loop of `cmd_undo` and `cmd_redo`; the results of the calls are dropped.
unfoldable pub call_times :
    ℕ → Option CmdFunc → World → MsgNode → InputEvent → Run (World × MsgNode)
unfolding call?
call_times zero f world node event = ok (world, node)
call_times (suc cnt) f world node event =
    call? f world node event >>= λ (world', node', act). call_times cnt f world' node' event

abbrev event_of : Option CmdFunc → Action → InputEvent
event_of f act = record { type = EventType.cmd; cmd_fn = f; seq = act.seq }

-- What `snprintf` with a buffer of DBG_LOG_MSG_SIZE (255) bytes writes.
abbrev pub dbg_log_msg : List ℕ → List ℕ
dbg_log_msg text = take 254 text

-- `%s` of a pointer that may be null
abbrev pub or_null : Option (List ℕ) → List ℕ
or_null none = codes "(null)"
or_null (some seq) = seq

seq_length : Option (List ℕ) → Run ℕ
seq_length none = ok 0
seq_length (some seq) = utf8_strlen seq

unfoldable pub undo_action : World → MsgNode → Action → Run Step
unfolding get_comp_cmd seq_length descr_cmd_fn call_times push_action
undo_action world node act = elim (get_comp_cmd act.cmd_fn) [
  | none ↦ seq_length act.seq >>= λ len.
      let text =
        codes "Undo: No complementary found for "
        ++ (descr_cmd_fn act.cmd_fn
            ++ (codes " <"
                ++ (or_null act.seq
                    ++ (codes ">("
                        ++ (decimal len ++ (codes ") [" ++ (decimal act.cnt ++ codes "]"))))))) in
      let told = post world (dbg_log_msg text) in
      no_action (record told { undo_stack = push_action told.undo_stack (some act) }) node
  | some undo_cmd ↦
      call_times act.cnt (some undo_cmd) world node (event_of (some undo_cmd) act)
      >>= λ (world', node').
          ok (
            record world' { redo_stack = push_action world'.redo_stack (some act) },
            node',
            some act,
          )
]

unfoldable pub cmd_undo : Command
unfolding undo_action pop_action
cmd_undo world node event = elim world.undo_stack [
  | [] ↦ no_action (post world (codes "No more actions to undo")) node
  | none ∷ stack ↦
      no_action
        (post (record world { undo_stack = stack }) (codes "Failed to pop Action from undoStack"))
        node
  | some act ∷ stack ↦ undo_action (record world { undo_stack = stack }) node act
]

unfoldable pub cmd_redo : Command
unfolding call_times push_action
cmd_redo world node event = elim world.redo_stack [
  | [] ↦ no_action (post world (codes "No more actions to redo")) node
  | none ∷ stack ↦
      no_action
        (post (record world { redo_stack = stack }) (codes "Failed to pop Action from redoStack"))
        node
  | some act ∷ stack ↦
      call_times act.cnt act.cmd_fn (record world { redo_stack = stack }) node
        (event_of act.cmd_fn act)
      >>= λ (world', node').
          ok (
            record world' { undo_stack = push_action world'.undo_stack (some act) },
            node',
            some act,
          )
]

-- `event->cmdFn(node, event)` of `processEvents`
unfoldable pub run_cmd : CmdFunc → Command
unfolding cmd_undo cmd_redo call
run_cmd CmdFunc.cmd_undo = cmd_undo
run_cmd CmdFunc.cmd_redo = cmd_redo
run_cmd f = call f
