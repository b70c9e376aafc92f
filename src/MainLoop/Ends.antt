-- ===== src/MainLoop/Ends.antt =====
-- term/main.c: why the main loop ends, and with which code.
use vjft.Prelude.{ℕ, ◌≡◌, List, Bool}
use vjft.Prelude.{false, Option, some}
use vjft.Prelude.{get_elem?}
use vjft.Key.{KeyEntry}
use vjft.Keyboard.{KeyMap, Keyboard}
use vjft.Outgoing.{Send, Wire}
use vjft.MainLoop.{Calls, After, next, ended, goto_exit, unfinished}
use vjft.MainLoop.Reasons.{EndsBy}

-- A round that the loop goes on from leaves `terminate` unset, and one that ends it has a reason.
pub HasReason : Send → Bool → Calls → After → Type 0
HasReason send winch calls (next main) = main.terminate ≡ false
HasReason send winch calls (ended main) = EndsBy send winch calls (some main.wire) 0
HasReason send winch calls (goto_exit code main) = EndsBy send winch calls (some main.wire) code
HasReason send winch calls unfinished = Unit

module _ (key_map : List KeyEntry) (key_ctrl_g : ℕ) (key_commands : List KeyMap) where
  module _ (send : Send) where
    -- A round of `rounds` that had a reason to end with the code.
    EndsIn : List (Bool × Calls) → Option Wire → ℕ → Type 0
    EndsIn rounds wire code =
        (i : ℕ) × (winch : Bool) × (calls : Calls) × (get_elem? rounds i ≡ some (winch, calls))
        × EndsBy send winch calls wire code
