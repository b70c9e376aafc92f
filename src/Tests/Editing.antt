-- ===== src/Tests/Editing.antt =====
-- The theorems on editing at concrete inputs: the text is "aа b", with a character of two bytes.
use vjft.Prelude.{ℕ, ◌≡◌, refl, List, [], ◌∷◌, Bool, false, arith, map}
use vjft.Prelude.{ok, exit, none, some, pos, negsuc, All, codes}
use vjft.Tests.Sessions.{runs, start, press}
use vjft.Utf8.Chars.{IsChar, encode}
use vjft.Msg.{MsgNode, new_node}
use vjft.World.{CmdFunc, Action, World}
use vjft.Edit.Shows.{Shows}
use vjft.Edit.Insert.{splice, inserted}
use vjft.Process.{process_events}
use vjft.Process.Editing.{Edit, event_of, Represents, apply_all, IsValidEdit, IsDefinedFrom}
use vjft.Process.Editing.Session.{process_events-Represents}
use vjft.Undo.{cmd_undo}
use vjft.Undo.Restore.{undo_insertion, undo_insertion_exits, done, undone}
use vjft.Undo.Loss.{undo_deletion_loses}
use vjft.Command.Insertion.{ShowsAfter}
use vjft.Hex.{int_to_hex}

abbrev pub text : List (List ℕ)
text = (b'a' ∷ []) ∷ (0xD0 ∷ 0xB0 ∷ []) ∷ (b' ' ∷ []) ∷ (b'b' ∷ []) ∷ []

abbrev pub node : MsgNode
node = record { text = encode text; cursor_pos = pos 2; marker_pos = negsuc 0 }

pub node-Shows : Shows node text 2
unfolding runs
node-Shows = record {
  valid = (refl, (refl, (refl, (refl, tt))));
  text = refl;
  cursor = refl;
  within = omega arith;
}

start-Represents : Represents start (record { chars = []; cursor = 0 })
start-Represents = record {
  node = new_node [];
  current = refl;
  shows = record { valid = tt; text = refl; cursor = refl; within = omega arith };
  actions = tt;
}

abbrev pub ab : List (List ℕ)
ab = (b'a' ∷ []) ∷ (b'b' ∷ []) ∷ []

pub ab-IsChar : All IsChar ab
unfolding runs
ab-IsChar = (refl, (refl, tt))

abbrev session : List Edit
session =
    Edit.insert text
    ∷ Edit.backward_word
    ∷ Edit.backspace
    ∷ Edit.insert ab
    ∷ Edit.backward_char
    ∷ Edit.backspace
    ∷ Edit.to_end_of_line
    ∷ []

session-IsValid : All IsValidEdit session
unfolding runs
session-IsValid =
    ((refl, (refl, (refl, (refl, tt)))), (tt, (tt, (ab-IsChar, (tt, (tt, (tt, tt)))))))

session-IsDefined : IsDefinedFrom false session
unfolding IsDefinedFrom
session-IsDefined = (refl, (refl, tt))

process_events-Represents_example :
    (r : World × Bool) × (process_events [] (map event_of session) start false ≡ ok r)
    × Represents r.0 (apply_all session (record { chars = []; cursor = 0 }))
process_events-Represents_example =
    process_events-Represents [] session start false (record { chars = []; cursor = 0 })
      start-Represents session-IsValid session-IsDefined

abbrev pub ab_done : Action
ab_done = done CmdFunc.cmd_insert (some (codes "ab"))

abbrev typed_world : World
typed_world = record start { undo_stack = some ab_done ∷ none ∷ [] }

abbrev pub ab_node : MsgNode
ab_node = record { text = codes "ab"; cursor_pos = pos 2; marker_pos = negsuc 0 }

pub ab-ShowsAfter : ShowsAfter ab_node [] ab []
ab-ShowsAfter = record {
  front_valid = tt;
  new_valid = ab-IsChar;
  back_valid = tt;
  text_after = refl;
  cursor_after = refl;
}

undo_insertion_example :
    cmd_undo typed_world ab_node (press CmdFunc.cmd_undo)
    ≡ undone typed_world (none ∷ []) ab_done (record ab_node { text = []; cursor_pos = pos 0 })
undo_insertion_example =
    undo_insertion typed_world ab_node (press CmdFunc.cmd_undo) [] ab [] (none ∷ []) (omega arith)
      ab-ShowsAfter refl

abbrev moved_world : World
moved_world = record start {
  undo_stack = some (done CmdFunc.cmd_to_end_of_line (some (int_to_hex (pos 2)))) ∷ [];
}

undo_insertion_exits_example : cmd_undo typed_world (new_node []) (press CmdFunc.cmd_undo) ≡ exit
undo_insertion_exits_example =
    undo_insertion_exits typed_world (new_node []) (press CmdFunc.cmd_undo) [] ab 0 (none ∷ [])
      (record { valid = tt; text = refl; cursor = refl; within = omega arith }) ab-IsChar
      (omega arith) refl

abbrev deleted_world : World
deleted_world = record start {
  undo_stack =
      some (done CmdFunc.cmd_backspace (some (encode ab)))
      ∷ some (done CmdFunc.cmd_insert (some (codes "xab")))
      ∷ none
      ∷ [];
}

undo_deletion_loses_example :
    cmd_undo deleted_world node (press CmdFunc.cmd_undo)
    ≡ undone deleted_world
        (none ∷ [])
        (done CmdFunc.cmd_backspace (some (encode ab)))
        (inserted node (splice 2 ab text) 2 2)
undo_deletion_loses_example =
    undo_deletion_loses deleted_world node (press CmdFunc.cmd_undo) text ab 2 (codes "xab")
      (none ∷ []) node-Shows ab-IsChar refl

abbrev pub back_action : Action
back_action = done CmdFunc.cmd_backward_char none

abbrev forward_world : World
forward_world = record start {
  undo_stack = some (done CmdFunc.cmd_forward_char none) ∷ some back_action ∷ [];
}

abbrev word_world : World
word_world = record start { undo_stack = some (done CmdFunc.cmd_forward_word none) ∷ [] }
