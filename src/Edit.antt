-- ===== src/Edit.antt =====
-- term/event.c: the updates of a node (`upd_*`).
pub mod Shows
pub mod Motion
pub mod Words
pub mod Lines
pub mod Insert
use vjft.Prelude.{ℕ, zero, suc, ◌+◌, ◌-◌, List, [], ◌∷◌, ◌++◌, Bool, true, false, ◌&&◌, ◌||◌, not}
use vjft.Prelude.{ℤ, pos, negsuc, pos_part, ◌+ℤ◌, ◌-ℤ◌, ltb_ℤ, leb_ℤ, to_size_t, ltb, leb, ◌==◌}
use vjft.Prelude.{
  if◌then◌else◌, Run, ok, fault, exit, ◌>>=◌, deref, Option, none, some, length, take, drop,
}
use vjft.Utf8.{
  byte_at, utf8_strlen, utf8_byte_offset, utf8_next_char, utf8_prev_char, utf8_char_index,
}
use vjft.Msg.{MsgNode}
use vjft.World.{InputEvent}

-- `isspace` of the C locale, which the program never leaves.
unfoldable pub isspace : ℕ → Bool
isspace c = c == 0x20 || (leb 0x09 c && leb c 0x0D)

unfoldable pub upd_backward_char : MsgNode → InputEvent → Run MsgNode
upd_backward_char node event = ok (
    if ltb_ℤ (pos 0) node.cursor_pos
    then record node { cursor_pos = node.cursor_pos -ℤ pos 1 }
    else node)

unfoldable pub upd_forward_char : MsgNode → InputEvent → Run MsgNode
upd_forward_char node event = utf8_strlen node.text >>= λ len.
    let cursor_pos = node.cursor_pos +ℤ pos 1 in
    ok (record node { cursor_pos = if leb_ℤ (pos len) cursor_pos then pos len else cursor_pos })

-- One of the two loops of `upd_forward_word`: it goes on while `isspace` of the byte under the
-- position is `space`. `rounds` is `text_length - current_pos`. The result is the rounds left, the
-- byte offset and the position.
unfoldable pub skip_forward : Bool → List ℕ → ℕ → ℕ → ℤ → Run (ℕ × ℕ × ℤ)
skip_forward space text zero byte_offset current_pos = ok (zero, byte_offset, current_pos)
skip_forward space text (suc rounds) byte_offset current_pos = byte_at text byte_offset >>= λ b.
    elim (if space then isspace b else not (isspace b)) [
      | false ↦ ok (suc rounds, byte_offset, current_pos)
      | true ↦ utf8_next_char text byte_offset >>= λ next.
          skip_forward space text rounds next (current_pos +ℤ pos 1)
    ]

unfoldable pub upd_forward_word : MsgNode → InputEvent → Run MsgNode
unfolding skip_forward isspace
upd_forward_word node event = utf8_strlen node.text >>= λ text_length.
    utf8_byte_offset node.text node.cursor_pos >>= λ byte_offset.
    skip_forward true node.text (pos_part (pos text_length -ℤ node.cursor_pos)) byte_offset
      node.cursor_pos
    >>= λ (rounds, byte_offset, current_pos).
        skip_forward false node.text rounds byte_offset current_pos
        >>= λ (rounds, byte_offset, current_pos). ok (record node { cursor_pos = current_pos })

-- `text[byte_offset - 1]`
unfoldable pub byte_before : List ℕ → ℕ → Run ℕ
byte_before text zero = fault
byte_before text (suc i) = byte_at text i

-- One of the two loops of `upd_backward_word`, on a position that is `current_pos > 0` rounds away
-- from the start. The result is the position and the byte offset.
unfoldable pub skip_backward : Bool → List ℕ → ℕ → ℕ → Run (ℕ × ℕ)
skip_backward space text zero byte_offset = ok (zero, byte_offset)
skip_backward space text (suc current_pos) byte_offset = byte_before text byte_offset >>= λ b.
    elim (if space then isspace b else not (isspace b)) [
      | false ↦ ok (suc current_pos, byte_offset)
      | true ↦ utf8_prev_char text byte_offset >>= λ prev. skip_backward space text current_pos prev
    ]

-- With a position below zero neither loop runs.
unfoldable pub upd_backward_word : MsgNode → InputEvent → Run MsgNode
unfolding skip_backward byte_before isspace
upd_backward_word node event = utf8_byte_offset node.text node.cursor_pos >>= λ byte_offset.
    elim node.cursor_pos [
      | negsuc n ↦ ok node
      | pos current_pos ↦
          skip_backward true node.text current_pos byte_offset >>= λ (current_pos, byte_offset).
          skip_backward false node.text current_pos byte_offset >>= λ (current_pos, byte_offset).
          ok (record node { cursor_pos = pos current_pos })
    ]

-- The loop of `upd_to_beginning_of_line`. A round moves back by a byte at least, so `byte_offset`
-- rounds are enough.
unfoldable pub beginning_loop : ℕ → MsgNode → ℕ → Run MsgNode
beginning_loop rounds node zero = ok (record node { cursor_pos = pos 0 })
beginning_loop zero node (suc i) = fault
beginning_loop (suc rounds) node (suc i) = utf8_prev_char node.text (suc i) >>= λ prev_offset.
    byte_at node.text prev_offset >>= λ b. elim (b == 0x0A) [
      | true ↦ utf8_next_char node.text prev_offset >>= λ byte_offset.
          utf8_strlen node.text >>= λ len. ok (record node { cursor_pos = pos len })
      | false ↦
          beginning_loop rounds (record node { cursor_pos = node.cursor_pos -ℤ pos 1 }) prev_offset
    ]

unfoldable pub upd_to_beginning_of_line : MsgNode → InputEvent → Run MsgNode
unfolding beginning_loop
upd_to_beginning_of_line node event = utf8_byte_offset node.text node.cursor_pos >>= λ byte_offset.
    beginning_loop byte_offset node byte_offset

-- The loop of `upd_to_end_of_line`, with the bytes that `byte_offset < len` leaves as rounds. Its
-- increments of `cursor_pos` are dead: both ways out set it anew.
unfoldable pub end_loop : ℕ → MsgNode → ℕ → ℕ → Run MsgNode
end_loop zero node len byte_offset =
    utf8_char_index node.text len >>= λ k. ok (record node { cursor_pos = pos k })
end_loop (suc rounds) node len byte_offset = elim (ltb byte_offset len) [
  | false ↦ utf8_char_index node.text len >>= λ k. ok (record node { cursor_pos = pos k })
  | true ↦ byte_at node.text byte_offset >>= λ b. elim (b == 0x0A) [
    | true ↦ utf8_char_index node.text byte_offset >>= λ k. ok (record node { cursor_pos = pos k })
    | false ↦ utf8_next_char node.text byte_offset >>= λ next.
        end_loop rounds (record node { cursor_pos = node.cursor_pos +ℤ pos 1 }) len next
  ]
]

unfoldable pub upd_to_end_of_line : MsgNode → InputEvent → Run MsgNode
unfolding end_loop
upd_to_end_of_line node event =
    let len = length node.text in
    utf8_byte_offset node.text node.cursor_pos >>= λ byte_offset. end_loop len node len byte_offset

-- `memmove` and `memcpy` in the text that was made longer. The offset of a cursor behind a character
-- that is cut short may lie behind the zero: then the bytes stand behind it, or out of bounds.
unfoldable pub insert_bytes : List ℕ → ℕ → List ℕ → Run (List ℕ)
insert_bytes text byte_offset seq =
    if leb byte_offset (length text)
    then ok (take byte_offset text ++ (seq ++ drop byte_offset text))
    else if byte_offset == suc (length text)
    then ok text
    else fault

-- The marker is compared with the cursor that has already moved.
unfoldable pub upd_insert : MsgNode → InputEvent → Run MsgNode
unfolding insert_bytes
upd_insert node event = utf8_byte_offset node.text node.cursor_pos >>= λ byte_offset.
    deref event.seq >>= λ seq. utf8_strlen seq >>= λ cursor_offset.
    insert_bytes node.text byte_offset seq >>= λ text.
    let cursor_pos = node.cursor_pos +ℤ pos cursor_offset in
    ok (record {
      text = text;
      cursor_pos = cursor_pos;
      marker_pos =
          if leb_ℤ cursor_pos node.marker_pos
          then node.marker_pos +ℤ pos cursor_offset
          else node.marker_pos;
    })

unfoldable pub upd_set_marker : MsgNode → InputEvent → Run MsgNode
upd_set_marker node event = ok (record node { marker_pos = node.cursor_pos })

unfoldable pub upd_unset_marker : MsgNode → InputEvent → Run MsgNode
upd_unset_marker node event = ok (record node { marker_pos = negsuc 0 })

unfoldable pub upd_toggle_cursor : MsgNode → InputEvent → Run MsgNode
upd_toggle_cursor node event =
    ok (record node { cursor_pos = node.marker_pos; marker_pos = node.cursor_pos })
