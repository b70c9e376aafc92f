-- ===== src/Tests/Input.antt =====
-- The theorems on keys and on buffers at concrete inputs.
use vjft.Prelude.{◌≡◌, ◌≢◌, ◌↔◌, refl, List, [], ◌∷◌, true, false, none, some}
use vjft.Prelude.{ok, codes, arith}
use vjft.World.{CmdFunc, EventType, InputEvent}
use vjft.Buffer.{holds, DynamicBuffer, append_to_dynamic_buffer}
use vjft.Buffer.Holding.{Holds, append_to_dynamic_buffer-Holds}
use vjft.Key.{KeyEntry, same_bytes, identify_from, identify_key, key_unknown}
use vjft.Keyboard.{is_ctrl_stack_empty, matches_from, matches_combo, KeyMap}
use vjft.Keyboard.{Keyboard, handle_key}
use vjft.Keyboard.Combos.{pushed, matches_combo_iff}
use vjft.Keyboard.Stack.{handle_key-stack, is_found}
use vjft.Keyboard.{is_ctrl_stack_empty, named, find_command_by_key}
use vjft.Key.{key_unknown}
use vjft.Prelude.{ltb, ◌&&◌, ◌||◌, ◌==◌, if◌then◌else◌}
use vjft.Tests.Sessions.{start_list}

abbrev greeting : DynamicBuffer
greeting = record { buffer = holds (codes "hi"); size = 2; capacity = 4 }

greeting-Holds : Holds greeting (codes "hi")
greeting-Holds = record { here = refl; sized = refl; room = omega arith }

append_to_dynamic_buffer-Holds_example :
    (db' : DynamicBuffer) × (append_to_dynamic_buffer greeting (some (codes " there")) ≡ ok db')
    × Holds db' (codes "hi there")
append_to_dynamic_buffer-Holds_example =
    append_to_dynamic_buffer-Holds greeting (codes "hi") (codes " there") greeting-Holds

abbrev undo_event : InputEvent
undo_event = record { type = EventType.cmd; cmd_fn = some CmdFunc.cmd_undo; seq = none }

abbrev connect_keys : KeyMap
connect_keys = record {
  combo = 5 ∷ (6 ∷ []);
  cmd_name = some (codes "CMD_CONNECT");
  cmd_func = CmdFunc.cmd_connect;
  param = none;
}

abbrev enter_key : KeyMap
enter_key = record {
  combo = 7 ∷ [];
  cmd_name = some (codes "CMD_ENTER");
  cmd_func = CmdFunc.cmd_enter;
  param = none;
}

matches_combo_iff_example :
    (matches_combo (6 ∷ (5 ∷ [])) (5 ∷ (6 ∷ [])) ≡ true)
    ↔ ((6 ∷ (5 ∷ [])) ≡ pushed (5 ∷ (6 ∷ [])) [])
matches_combo_iff_example = matches_combo_iff (5 ∷ (6 ∷ [])) (6 ∷ (5 ∷ []))

enter_key_differs : matches_combo (pushed (5 ∷ (6 ∷ [])) []) (7 ∷ []) ≡ false
unfolding matches_combo matches_from is_ctrl_stack_empty pushed
enter_key_differs = refl

abbrev keys : List KeyEntry
keys =
    record { val = codes "KEY_A"; len = 1; str = codes "a"; is_printable = true }
    ∷ (record { val = codes "KEY_UNKNOWN"; len = 0; str = []; is_printable = false }
        ∷ (record { val = codes "KEY_CTRL_X"; len = 1; str = 0x18 ∷ []; is_printable = false }
            ∷ []))

abbrev idle : Keyboard
idle = record { ctrl_stack = []; input_events = []; msg_list = start_list }

ctrl_x_identified : identify_key keys (0x18 ∷ []) ≢ 0
unfolding identify_key identify_from same_bytes key_unknown
ctrl_x_identified = λ e. absurd (omega arith)

handle_key-stack_example : (handle_key keys 9 (connect_keys ∷ []) idle (0x18 ∷ [])).ctrl_stack ≡ (
    let key = identify_key keys (0x18 ∷ []) in
    if (ltb key (key_unknown keys) && is_ctrl_stack_empty [])
      || (key == 9 || is_found (named (find_command_by_key (connect_keys ∷ []) (key ∷ []))))
    then []
    else key ∷ [])
handle_key-stack_example =
    handle_key-stack keys 9 (connect_keys ∷ []) idle (0x18 ∷ []) tt ctrl_x_identified
