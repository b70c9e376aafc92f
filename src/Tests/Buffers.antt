-- ===== src/Tests/Buffers.antt =====
-- The theorems on the buffers of the screen at concrete inputs.
use vjft.Prelude.{◌≡◌, refl, List, [], ◌∷◌, pos, negsuc, ok, map, false, true}
use vjft.Screen.{ScreenBuffer, Cell, create_screen_buffer}
use vjft.Screen.{render_screen}
use vjft.Screen.Sizes.{IsScreen, IsDrawn, create_screen_buffer-IsScreen}
use vjft.Screen.Rendering.{print_lines, updated, render_screen-prints}
use vjft.Utf8.Chars.{encode}
use vjft.Tests.Editing.{text, node-Shows}
use vjft.Wrapped.{TextWindow, display_wrapped}
use vjft.Wrapped.Text.{display_wrapped-IsDrawn}
use vjft.Prelude.{some, ◌<◌, arith}
use vjft.Screen.Cells.{look_at}
use vjft.Screen.Lines.{in_range}
use vjft.Wrapped.Frames.{draw_frame}
use vjft.Wrapped.Borders.{frame_at, draw_frame-frame_at}

-- Two rows of three cells.
abbrev small : ScreenBuffer
small = create_screen_buffer 2 3

-- Three columns, with the cursor at the second character and the mark in front of the text.
abbrev window : TextWindow
window = record {
  abs_x = pos 0;
  abs_y = negsuc 0;
  rel_max_width = pos 3;
  rel_max_rows = pos 2;
  from_row = pos 0;
  cursor_pos = pos 1;
  marker_pos = pos 0;
}

-- The character `x` is in the second row of the back buffer.
abbrev drawn_cells : List (List Cell)
drawn_cells = (plain ∷ (plain ∷ (plain ∷ []))) ∷ ((plain ∷ (letter ∷ (plain ∷ []))) ∷ [])
  where
    plain : Cell
    plain = record { sym = b' '; fg_color = 32; bg_color = 40; needs_update = false }

    letter : Cell
    letter = record { sym = b'x'; fg_color = 31; bg_color = 40; needs_update = true }

abbrev drawn : ScreenBuffer
drawn = record { rows = 2; cols = 3; cells = drawn_cells }

drawn-IsScreen : IsScreen drawn
drawn-IsScreen = record { height = refl; widths = (refl, (refl, tt)) }

render_screen-prints_example :
    render_screen (λ i j. false) drawn small
    ≡ ok (
      print_lines 0 drawn_cells,
      record drawn { cells = map (map updated) drawn_cells },
      record small { cells = drawn_cells },
    )
unfolding create_screen_buffer
render_screen-prints_example =
    render_screen-prints drawn small drawn-IsScreen (create_screen_buffer-IsScreen 2 3) refl refl

display_wrapped-IsDrawn_example :
    (buffer : ScreenBuffer) × (display_wrapped (encode text) window small ≡ ok buffer)
    × IsDrawn small buffer
display_wrapped-IsDrawn_example =
    display_wrapped-IsDrawn text window small node-Shows.valid (create_screen_buffer-IsScreen 2 3)

two : 1 < small.rows
unfolding create_screen_buffer
two = omega arith

three : 2 < small.cols
unfolding create_screen_buffer
three = omega arith

draw_frame-frame_at_example :
    (drawn : ScreenBuffer) × (draw_frame (pos 0) (pos 0) 3 0 small ≡ ok drawn)
    × IsDrawn small drawn
    × (look_at drawn.cells 1 2 ≡ some (0x2518, 32, 40))
unfolding frame_at in_range
draw_frame-frame_at_example =
    draw_frame-frame_at small (pos 0) (pos 0) 3 0 1 2 (create_screen_buffer-IsScreen 2 3) two three
