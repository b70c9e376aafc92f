-- ===== src/Process.antt =====
-- term/event.c, `processEvents` and the queues of events. The table of keys, which the build
-- generates from term/key_map.m4, is an argument. The mutexes are held throughout, so a run is one
-- sequence of steps.
pub mod Editing
use vjft.Prelude.{
  ℕ, zero, suc, ◌+◌, ◌-◌, ◌/◌, ◌%◌, List, [], ◌∷◌, ◌++◌, Bool, true, false, ltb, leb,
}
use vjft.Prelude.{
  if◌then◌else◌, ◌||◌, ◌==◌, take, length, Run, ok, fault, ◌>>=◌, deref, Option, none, some, codes,
}
use vjft.Msg.{MsgNode, push_message}
use vjft.World.{CmdFunc, EventType, InputEvent, Action, World, Step, eq_cmd}
use vjft.Action.{push_action, clear_stack}
use vjft.Undo.{run_cmd, post, dbg_log_msg, or_null}
use vjft.Key.{KeyEntry, identify_key, key_to_str}

-- `enqueueEvent`: the new event becomes the last one.
unfoldable pub enqueue_event :
    List InputEvent → EventType → Option CmdFunc → Option (List ℕ) → List InputEvent
enqueue_event [] type cmd_fn seq = record { type = type; cmd_fn = cmd_fn; seq = seq } ∷ []
enqueue_event (event ∷ queue) type cmd_fn seq = event ∷ enqueue_event queue type cmd_fn seq

-- `%x` of a byte
hex_byte : ℕ → List ℕ
hex_byte b = if ltb b 16 then low (b % 16) ∷ [] else low (b / 16) ∷ low (b % 16) ∷ []
  where
    low : ℕ → ℕ
    low d = if ltb d 10 then b'0' + d else b'a' + d - 10

-- The loop of `convertToAsciiCodes`; `room` is `outputSize - offset`, and `cut` what `snprintf` leaves
-- where the text does not fit, which the terminator at `offset` then hides.
unfoldable pub ascii_codes_loop : List ℕ → ℕ → List ℕ
unfolding hex_byte
ascii_codes_loop [] room = []
ascii_codes_loop (b ∷ input) room =
    let written = hex_byte b in
    let left = room - length written in
    let rest = ascii_codes_loop input (left - 1) in
    if leb room (length written) then [] else elim input [
      | [] ↦ written
      | _ ∷ _ ↦ if ltb 1 left then written ++ (b' ' ∷ rest) else written
    ]

unfoldable pub convert_to_ascii_codes : List ℕ → ℕ → List ℕ
unfolding ascii_codes_loop
convert_to_ascii_codes input output_size = ascii_codes_loop input output_size

-- A `DBG` event reports the key behind its bytes.
unfoldable pub debug_event : List KeyEntry → World → InputEvent → World × Bool
debug_event key_map world event = elim event.seq [
  | none ↦ (world, false)
  | some seq ↦
      let text =
        codes "[DBG]: "
        ++ (key_to_str key_map (identify_key key_map seq)
            ++ (codes ", [" ++ (convert_to_ascii_codes seq 127 ++ codes "]\n"))) in
      (post world (dbg_log_msg text), true)
]

-- The node that a command left goes back under `curr`.
abbrev store : World → MsgNode → World
store world node = record world { msg_list = record world.msg_list { curr = some node } }

-- What `processEvents` does with the result of a command other than `cmd_undo` and `cmd_redo`: an
-- action goes onto the undo stack, and the redo stack is cleared.
unfoldable pub take_result : Step → World × Bool
unfolding push_action clear_stack
take_result (world, node, none) = (store world node, false)
take_result (world, node, some act) = (
  store
      (record world {
        undo_stack = push_action world.undo_stack (some act);
        redo_stack = clear_stack world.redo_stack;
      })
      node,
  true,
)

-- `cmd_undo` and `cmd_redo` have moved their actions themselves.
unfoldable pub keep_result : Step → World × Bool
keep_result (world, node, none) = (store world node, false)
keep_result (world, node, some act) = (store world node, true)

-- A command gets the current node; there is one from the first message on.
unfoldable pub command_event : World → InputEvent → Run (World × Bool)
command_event world event = elim event.cmd_fn [
  | none ↦
      let text = codes "case CMD: No command found for: " ++ (or_null event.seq ++ codes "\n") in
      ok (post world (dbg_log_msg text), false)
  | some f ↦ deref world.msg_list.curr >>= λ node. run_cmd f world node event >>= λ step. ok (
      if eq_cmd f CmdFunc.cmd_undo || eq_cmd f CmdFunc.cmd_redo
      then keep_result step
      else take_result step)
]

unfoldable pub handle_event : List KeyEntry → World → InputEvent → Run (World × Bool)
handle_event key_map world event = elim event.type [
  | EventType.dbg ↦ ok (debug_event key_map world event)
  | EventType.cmd ↦ command_event world event
]

-- The loop; every event that was handled goes to the end of the history.
unfoldable pub process_events : List KeyEntry → List InputEvent → World → Bool → Run (World × Bool)
process_events key_map [] world updated = ok (world, updated)
process_events key_map (event ∷ queue) world updated =
    handle_event key_map world event >>= λ (world', now).
    process_events key_map queue
      (record world' { history = enqueue_event world'.history event.type event.cmd_fn event.seq })
      (updated || now)
