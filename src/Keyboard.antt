-- ===== src/Keyboard.antt =====
-- term/ctrlstk.c and term/main.c, `keyb`: from keys to events. A key is its index in KEY_MAP, as in
-- Key; the tables are arguments. `read_utf8_char_or_esc_seq` gives the bytes that it read, and none
-- on an error.
pub mod Combos
pub mod Stack
use vjft.Prelude.{ℕ, zero, suc, List, [], ◌∷◌, Bool, true, false, not, ◌&&◌, ltb, ◌==◌}
use vjft.Prelude.{if◌then◌else◌, Option, none, some, get_elem?, length, codes}
use vjft.Msg.{MsgList, push_message}
use vjft.World.{CmdFunc, EventType, InputEvent}
use vjft.Key.{KeyEntry, identify_key, key_unknown}
use vjft.Process.{enqueue_event}

unfoldable pub push_ctrl_stack : List ℕ → ℕ → List ℕ
push_ctrl_stack ctrl_stack key = key ∷ ctrl_stack

-- The key and the stack that is left; the empty stack gives `'\0'`, which is the key 0.
unfoldable pub pop_ctrl_stack : List ℕ → ℕ × List ℕ
pop_ctrl_stack [] = (0, [])
pop_ctrl_stack (key ∷ ctrl_stack) = (key, ctrl_stack)

unfoldable pub is_ctrl_stack_empty : List ℕ → Bool
is_ctrl_stack_empty [] = true
is_ctrl_stack_empty (key ∷ ctrl_stack) = false

unfoldable pub is_ctrl_stack_active : List ℕ → ℕ → Bool
is_ctrl_stack_active [] key = false
is_ctrl_stack_active (top ∷ ctrl_stack) key = top == key

-- `while (popCtrlStack());`
unfoldable pub clear_ctrl_stack : List ℕ → List ℕ
clear_ctrl_stack [] = []
clear_ctrl_stack (key ∷ ctrl_stack) =
    let rest = clear_ctrl_stack ctrl_stack in if key == 0 then ctrl_stack else rest

pub record KeyMap : Type 0 where
  pub combo : List ℕ
  pub cmd_name : Option (List ℕ)
  pub cmd_func : CmdFunc
  pub param : Option (List ℕ)

-- The loop of `matchesCombo`, with `i + 1` rounds left.
unfoldable pub matches_from : List ℕ → ℕ → List ℕ → Bool
matches_from combo zero current = is_ctrl_stack_empty current
matches_from combo (suc i) [] = false
matches_from combo (suc i) (key ∷ current) = elim (get_elem? combo i) [
  | none ↦ false
  | some wanted ↦ key == wanted && matches_from combo i current
]

unfoldable pub matches_combo : List ℕ → List ℕ → Bool
unfolding matches_from is_ctrl_stack_empty
matches_combo ctrl_stack combo = matches_from combo (length combo) ctrl_stack

unfoldable pub find_command_by_key : List KeyMap → List ℕ → Option KeyMap
find_command_by_key [] ctrl_stack = none
find_command_by_key (entry ∷ key_commands) ctrl_stack =
    if matches_combo ctrl_stack entry.combo
    then some entry
    else find_command_by_key key_commands ctrl_stack

-- The globals that `keyb` changes.
pub record Keyboard : Type 0 where
  pub ctrl_stack : List ℕ
  pub input_events : List InputEvent
  pub msg_list : MsgList

-- The bytes up to the first zero: what `strdup` copies.
unfoldable pub c_string : List ℕ → List ℕ
c_string [] = []
c_string (b ∷ s) = if b == 0 then [] else b ∷ c_string s

abbrev pub queue : Keyboard → EventType → Option CmdFunc → Option (List ℕ) → Keyboard
queue kb type cmd_fn seq = record kb {
  input_events = enqueue_event kb.input_events type cmd_fn seq;
}

-- `cmd && cmd->cmdName`, with the entry
unfoldable pub named : Option KeyMap → Option KeyMap
named none = none
named (some entry) = elim entry.cmd_name [ none ↦ none | some name ↦ some entry ]

-- A key that is not typed text: it goes onto the stack, and the stack may be a command.
unfoldable pub press : List KeyMap → Keyboard → ℕ → List ℕ → Keyboard
press key_commands kb key input_buffer =
    let ctrl_stack = push_ctrl_stack kb.ctrl_stack key in
    elim (named (find_command_by_key key_commands ctrl_stack)) [
      | some cmd ↦
          let kb' = queue kb EventType.cmd (some cmd.cmd_func) cmd.param in
          record kb' { ctrl_stack = clear_ctrl_stack ctrl_stack }
      | none ↦
          let told = push_message kb.msg_list (codes "keyb: cmd not found") in
          let kb' = queue kb EventType.dbg none (some (c_string input_buffer)) in
          record kb' { ctrl_stack = ctrl_stack; msg_list = told }
    ]

-- What `keyb` does with the bytes read.
unfoldable pub handle_key : List KeyEntry → ℕ → List KeyMap → Keyboard → List ℕ → Keyboard
handle_key key_map key_ctrl_g key_commands kb input_buffer =
    let key = identify_key key_map input_buffer in
    if ltb key (key_unknown key_map) && is_ctrl_stack_empty kb.ctrl_stack
    then queue kb EventType.cmd (some CmdFunc.cmd_insert) (some (c_string input_buffer))
    else if key == key_ctrl_g
    then record kb { ctrl_stack = clear_ctrl_stack kb.ctrl_stack }
    else press key_commands kb key input_buffer

-- `keyb`, with whether the program is to end: after Ctrl-D.
unfoldable pub keyb : List KeyEntry → ℕ → List KeyMap → Keyboard → Option (List ℕ) → Keyboard × Bool
keyb key_map key_ctrl_g key_commands kb none = (kb, false)
keyb key_map key_ctrl_g key_commands kb (some []) = (kb, false)
keyb key_map key_ctrl_g key_commands kb (some (b ∷ [])) =
    (handle_key key_map key_ctrl_g key_commands kb (b ∷ []), b == 0x04)
keyb key_map key_ctrl_g key_commands kb (some (b ∷ (c ∷ s))) =
    (handle_key key_map key_ctrl_g key_commands kb (b ∷ (c ∷ s)), false)
