-- ===== src/Keyboard/Stack.antt =====
-- term/ctrlstk.c: the stack of keys, and what `keyb` leaves on it.
use vjft.Prelude.{ℕ, ◌≡◌, ◌≢◌, refl, List, [], ◌∷◌, ◌++◌, true, false, ◌==◌, inl, inr, All, arith}
use vjft.Prelude.{Option, none, some, Bool, ◌||◌, if◌then◌else◌}
use vjft.Prelude.{ltb, ◌&&◌, Bool-cases, Option-cases}
use vjft.Key.{KeyEntry, identify_key, key_unknown}
use vjft.Keyboard.{clear_ctrl_stack, push_ctrl_stack, is_ctrl_stack_empty, KeyMap, Keyboard, named}
use vjft.Keyboard.{find_command_by_key, press, handle_key}

-- clearCtrlStack stops behind the first key 0 of the stack, and empties a stack without one.
pub clear_ctrl_stack_lem :
    (above : List ℕ)
    → All (λ key. key ≢ 0) above
    → ((below : List ℕ) → clear_ctrl_stack (above ++ (0 ∷ below)) ≡ below)
      × (clear_ctrl_stack above ≡ [])
unfolding clear_ctrl_stack
clear_ctrl_stack_lem [] keys = (λ below. refl, refl)
clear_ctrl_stack_lem (key ∷ above) (other, keys) =
    let (stops, empties) = clear_ctrl_stack_lem above keys in
    let unequal : (key == 0) ≡ false = ground arith in
    (λ below. rw unequal (stops below), rw unequal empties)

empties : (stack : List ℕ) → is_ctrl_stack_empty stack ≡ true → stack ≡ []
unfolding is_ctrl_stack_empty
empties [] h = refl
empties (key ∷ stack) h = absurd (ground arith)

-- Whether a command is found.
unfoldable pub is_found : Option KeyMap → Bool
is_found none = false
is_found (some cmd) = true

press-stack :
    (key_commands : List KeyMap) (kb : Keyboard) (key : ℕ) (input : List ℕ)
    → All (λ k. k ≢ 0) kb.ctrl_stack
    → key ≢ 0
    → (press key_commands kb key input).ctrl_stack ≡ (
        if is_found (named (find_command_by_key key_commands (key ∷ kb.ctrl_stack)))
        then []
        else key ∷ kb.ctrl_stack)
unfolding press push_ctrl_stack is_found
press-stack key_commands kb key input keys other =
    elim (Option-cases (named (find_command_by_key key_commands (key ∷ kb.ctrl_stack)))) [
      | inl no_command ↦ rw (press, push_ctrl_stack, no_command) refl
      | inr (cmd, found) ↦
          rw (press, push_ctrl_stack, found)
            (clear_ctrl_stack_lem (key ∷ kb.ctrl_stack) (other, keys)).1
    ]

-- For a key other than the key 0, on a stack without it: the stack is empty behind the key if it
-- was typed text on the empty stack, or Ctrl-G, or completed the keys of a command; else the key
-- is on top of the stack, for the next one.
pub handle_key-stack :
    (key_map : List KeyEntry) (key_ctrl_g : ℕ) (key_commands : List KeyMap) (kb : Keyboard)
    (input : List ℕ)
    → All (λ k. k ≢ 0) kb.ctrl_stack
    → identify_key key_map input ≢ 0
    → (handle_key key_map key_ctrl_g key_commands kb input).ctrl_stack ≡ (
        let key = identify_key key_map input in
        if (ltb key (key_unknown key_map) && is_ctrl_stack_empty kb.ctrl_stack)
          || (key == key_ctrl_g
              || is_found (named (find_command_by_key key_commands (key ∷ kb.ctrl_stack))))
        then []
        else key ∷ kb.ctrl_stack)
unfolding handle_key
handle_key-stack key_map key_ctrl_g key_commands kb input keys other =
    let key = identify_key key_map input in
    elim (Bool-cases (ltb key (key_unknown key_map) && is_ctrl_stack_empty kb.ctrl_stack)) [
      | inl typed ↦
          let empty : is_ctrl_stack_empty kb.ctrl_stack ≡ true = ground arith in
          rw typed (empties kb.ctrl_stack empty)
      | inr control ↦ elim (Bool-cases (key == key_ctrl_g)) [
        | inl quit ↦ rw (control, quit) (clear_ctrl_stack_lem kb.ctrl_stack keys).1
        | inr other_key ↦ rw (control, other_key) (press-stack key_commands kb key input keys other)
      ]
    ]
