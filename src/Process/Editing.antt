-- ===== src/Process/Editing.antt =====
-- Editing sessions without markers, undo or network: `processEvents` against an abstract editor,
-- which is a list of characters with a cursor.
mod Recorded
mod Motions
mod TextEdits
pub mod Session
use vjft.Prelude.{
  ℕ, ◌+◌, ◌-◌, ◌==◌, List, [], ◌∷◌, ◌++◌, take, drop, length, min, if◌then◌else◌, Option, none,
  some,
}
use vjft.Prelude.{All, ◌≡◌, true, Bool, ◌||◌, not, ◌≤◌}
use vjft.Utf8.Chars.{IsChar, encode}
use vjft.Msg.{MsgNode}
use vjft.World.{CmdFunc, EventType, InputEvent, Action, World, eq_cmd?}
use vjft.Edit.Shows.{Shows}
use vjft.Edit.Insert.{splice}
use vjft.Edit.Words.{word_end, word_start}
use vjft.Edit.Lines.{line_start, line_end}

-- The abstract editor.
pub record Buffer : Type 0 where
  pub chars : List (List ℕ)
  pub cursor : ℕ

pub data Edit : Type 0 where
  insert : List (List ℕ) → Edit
  backspace backward_char forward_char backward_word forward_word : Edit
  to_end_of_line : Edit

abbrev pub go_to : Buffer → ℕ → Buffer
go_to b k = record b { cursor = k }

-- At the ends of the text a motion does nothing.
unfoldable pub apply : Edit → Buffer → Buffer
apply (insert new) b = record {
  chars = splice b.cursor new b.chars;
  cursor = b.cursor + length new;
}
apply backspace b = record {
  chars = take (b.cursor - 1) b.chars ++ drop b.cursor b.chars;
  cursor = b.cursor - 1;
}
apply backward_char b = go_to b (b.cursor - 1)
apply forward_char b = go_to b (min (b.cursor + 1) (length b.chars))
apply backward_word b = go_to b (word_start b.chars b.cursor)
apply forward_word b = go_to b (word_end b.chars b.cursor)
apply to_end_of_line b = go_to b (line_end b.chars b.cursor)

unfoldable pub apply_all : List Edit → Buffer → Buffer
apply_all [] b = b
apply_all (e ∷ es) b = apply_all es (apply e b)

abbrev press : CmdFunc → Option (List ℕ) → InputEvent
press f seq = record { type = EventType.cmd; cmd_fn = some f; seq = seq }

-- The event that asks for an edit.
abbrev pub event_of : Edit → InputEvent
event_of (insert new) = press CmdFunc.cmd_insert (some (encode new))
event_of backspace = press CmdFunc.cmd_backspace none
event_of backward_char = press CmdFunc.cmd_backward_char none
event_of forward_char = press CmdFunc.cmd_forward_char none
event_of backward_word = press CmdFunc.cmd_backward_word none
event_of forward_word = press CmdFunc.cmd_forward_word none
event_of to_end_of_line = press CmdFunc.cmd_to_end_of_line none

-- An edit inserts characters.
abbrev pub IsValidEdit : Edit → Type 0
IsValidEdit (insert new) = All IsChar new
IsValidEdit _ = Unit {0}

-- An action of `cmd_insert` or `cmd_backspace` holds its text.
abbrev pub needs_text : Option CmdFunc → Bool
needs_text f = eq_cmd? f CmdFunc.cmd_insert || eq_cmd? f CmdFunc.cmd_backspace

abbrev pub has_text : Option (List ℕ) → Bool
has_text none = Bool.false
has_text (some seq) = true

abbrev pub action_ok : Option Action → Bool
action_ok none = true
action_ok (some act) = not (needs_text act.cmd_fn) || has_text act.seq

abbrev pub IsActionOk : Option Action → Type 0
IsActionOk act = action_ok act ≡ true

-- An action of `cmd_backspace`, and whether such an action is on top of a stack.
abbrev pub is_deletion : Option Action → Bool
is_deletion none = Bool.false
is_deletion (some act) = eq_cmd? act.cmd_fn CmdFunc.cmd_backspace

abbrev pub deletion_on_top : List (Option Action) → Bool
deletion_on_top [] = Bool.false
deletion_on_top (act ∷ stack) = is_deletion act

-- Where a deletion may be on top of the undo stack, there must be an insertion before the next one.
unfoldable pub IsDefinedFrom : Bool → List Edit → Type 0
IsDefinedFrom last_deletes [] = Unit {0}
IsDefinedFrom last_deletes (insert new ∷ es) = IsDefinedFrom Bool.false es
IsDefinedFrom last_deletes (backspace ∷ es) = (last_deletes ≡ Bool.false) × IsDefinedFrom true es
IsDefinedFrom last_deletes (backward_char ∷ es) = IsDefinedFrom last_deletes es
IsDefinedFrom last_deletes (forward_char ∷ es) = IsDefinedFrom last_deletes es
IsDefinedFrom last_deletes (backward_word ∷ es) = IsDefinedFrom last_deletes es
IsDefinedFrom last_deletes (forward_word ∷ es) = IsDefinedFrom last_deletes es
IsDefinedFrom last_deletes (to_end_of_line ∷ es) = IsDefinedFrom last_deletes es

-- The globals stand for the abstract editor.
pub record Represents (world : World) (b : Buffer) : Type 0 where
  pub node : MsgNode
  pub current : world.msg_list.curr ≡ some node
  pub shows : Shows node b.chars b.cursor
  pub actions : All IsActionOk world.undo_stack
