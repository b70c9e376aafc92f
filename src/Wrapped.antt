-- ===== src/Wrapped.antt =====
-- term/iface.c: a text in a window of the screen, in rows of the width of the window. The sizes are
-- small enough that no `int` overflows. What `is_highlighted` guards never runs: it stays false.
pub mod Drawing
pub mod Frames
pub mod Borders
pub mod Text
pub mod Messages
use vjft.Prelude.{
  ℕ, zero, suc, ◌+◌, ◌-◌, List, [], ◌∷◌, Bool, true, false, not, ◌&&◌, ◌==◌, if◌then◌else◌,
}
use vjft.Prelude.{
  ℤ, pos, negsuc, ◌+ℤ◌, ◌-ℤ◌, leb_ℤ, ltb_ℤ, eqb_ℤ, pos_part, Run, ok, exit, fault, ◌>>=◌,
}
use vjft.Msg.{MsgNode}
use vjft.Utf8.{byte_at, utf8_char_length, utf8_strlen}
use vjft.Display.{utf8_decode, codepoint_of, advance, DisplaySize, calc_display_size}
use vjft.Screen.{ScreenBuffer, buffered_putchar, default_fg_color, default_bg_color}
use vjft.Screen.{draw_horizontal_line, draw_vertical_line}

abbrev pub filler : ℕ
filler = b' '

abbrev pub highlight_fg_color : ℕ
highlight_fg_color = 92

abbrev pub highlight_bg_color : ℕ
highlight_bg_color = 100

abbrev pub green_bg_color : ℕ
green_bg_color = 42

abbrev pub bright_white_fg_color : ℕ
bright_white_fg_color = 97

unfoldable pub min_ℤ : ℤ → ℤ → ℤ
min_ℤ a b = if ltb_ℤ a b then a else b

unfoldable pub max_ℤ : ℤ → ℤ → ℤ
max_ℤ a b = if ltb_ℤ b a then a else b

-- The arguments of `display_wrapped` behind the text.
pub record TextWindow : Type 0 where
  pub abs_x : ℤ
  pub abs_y : ℤ
  pub rel_max_width : ℤ
  pub rel_max_rows : ℤ
  pub from_row : ℤ
  pub cursor_pos : ℤ
  pub marker_pos : ℤ

-- The variables of the function that change, with the back buffer.
pub record Pen : Type 0 where
  pub back_buffer : ScreenBuffer
  pub rel_row : ℕ
  pub rel_col : ℕ
  pub scr_row : ℤ
  pub scr_col : ℤ

unfoldable pub is_not_skipped_row : TextWindow → Pen → Bool
is_not_skipped_row window pen = ltb_ℤ window.from_row (pos pen.rel_row)

-- A character at the place of the pen, which stays there.
unfoldable pub put_sym : ℕ → ℕ → ℕ → Pen → Run Pen
unfolding buffered_putchar
put_sym sym fg_color bg_color pen =
    buffered_putchar pen.back_buffer pen.scr_row pen.scr_col sym fg_color bg_color >>= λ buffer.
    ok (record pen { back_buffer = buffer })

-- The loop of `fullfiller`, with the columns that are left: `scr_col` does not change.
unfoldable pub fill : ℕ → Pen → Run Pen
unfolding put_sym
fill zero pen = ok pen
fill (suc cols) pen = put_sym filler default_fg_color default_bg_color pen >>= λ pen'.
    fill cols (record pen' { rel_col = pen'.rel_col + 1 })

-- The columns from `rel_col` to the width, which is one of them.
unfoldable pub cols_left : ℤ → ℕ → ℕ
cols_left (pos width) rel_col = width + 1 - rel_col
cols_left (negsuc width) rel_col = 0

unfoldable pub fullfiller : TextWindow → Pen → Run Pen
unfolding is_not_skipped_row fill cols_left
fullfiller window pen =
    if is_not_skipped_row window pen
    then fill (cols_left window.rel_max_width pen.rel_col) pen
    else ok pen

unfoldable pub inc_rel_row : TextWindow → Pen → Pen
unfolding is_not_skipped_row
inc_rel_row window pen =
    let pen' = record pen { rel_row = pen.rel_row + 1; rel_col = 0 } in
    if is_not_skipped_row window pen'
    then record pen' {
      scr_col = window.abs_x;
      scr_row = window.abs_y +ℤ pos pen'.rel_row -ℤ window.from_row;
    }
    else pen'

unfoldable pub is_on_screen : Pen → Bool
is_on_screen pen =
    leb_ℤ (pos 0) pen.scr_row
    && (ltb_ℤ pen.scr_row (pos pen.back_buffer.rows)
        && (leb_ℤ (pos 0) pen.scr_col && ltb_ℤ pen.scr_col (pos pen.back_buffer.cols)))

-- The colours of the character at a position: those of the cursor, of the marked text, or others.
unfoldable pub colors_at : TextWindow → ℕ → ℕ × ℕ
unfolding min_ℤ max_ℤ
colors_at window cur_pos =
    if eqb_ℤ (pos cur_pos) window.cursor_pos
    then (bright_white_fg_color, green_bg_color)
    else if not (eqb_ℤ window.marker_pos (negsuc 0))
        && (leb_ℤ (min_ℤ window.cursor_pos window.marker_pos) (pos cur_pos)
            && ltb_ℤ (pos cur_pos) (max_ℤ window.cursor_pos window.marker_pos))
    then (highlight_fg_color, highlight_bg_color)
    else (default_fg_color, default_bg_color)

unfoldable pub put_colored : ℕ → ℕ × ℕ → Pen → Run Pen
unfolding put_sym
put_colored sym (fg_color, bg_color) pen = put_sym sym fg_color bg_color pen

unfoldable pub put_visible : TextWindow → ℕ → ℕ → Pen → Run Pen
unfolding colors_at is_not_skipped_row put_colored
put_visible window cur_pos sym pen =
    if is_not_skipped_row window pen
    then (put_colored sym (colors_at window cur_pos) pen >>= λ pen'.
        ok (record pen' { scr_col = pen'.scr_col +ℤ pos 1 }))
    else ok pen

-- What a round does with `byte_pos`.
pub data Turn : Type 0 where
  stays : Turn
  moves : Turn
  breaks : Turn

-- A character where `rel_col` is inside the width.
unfoldable pub wrap_sym : TextWindow → ℕ → ℕ → Pen → Run (Pen × Turn)
unfolding fullfiller inc_rel_row put_visible
wrap_sym window cur_pos codepoint pen =
    if ltb_ℤ (window.rel_max_rows +ℤ window.from_row) (pos pen.rel_row)
    then ok (pen, breaks)
    else if codepoint == 0x0A
    then (fullfiller window pen >>= λ pen'. ok (inc_rel_row window pen', moves))
    else if codepoint == 0
    then (put_visible window cur_pos 0x237F pen >>= λ pen'. ok (pen', breaks))
    else put_visible window cur_pos codepoint pen >>= λ pen'.
        ok (record pen' { rel_col = pen'.rel_col + 1 }, moves)

unfoldable pub wrap_char : TextWindow → ℕ → ℕ → Pen → Run (Pen × Turn)
unfolding is_on_screen inc_rel_row wrap_sym
wrap_char window cur_pos codepoint pen =
    if is_on_screen pen
    then wrap_sym window cur_pos codepoint
        (if leb_ℤ window.rel_max_width (pos pen.rel_col) then inc_rel_row window pen else pen)
    else ok (pen, stays)

-- The loop, with the rounds that `cur_pos <= utf8_strlen(text)` leaves.
unfoldable pub wrap_loop : TextWindow → ℕ → ℕ → List ℕ → Pen → Run Pen
unfolding utf8_decode codepoint_of advance wrap_char
wrap_loop window zero cur_pos byte_pos pen = ok pen
wrap_loop window (suc rounds) cur_pos byte_pos pen = byte_at byte_pos 0 >>= λ b.
    utf8_decode byte_pos (utf8_char_length b) >>= λ decoded.
    wrap_char window cur_pos (codepoint_of decoded) pen >>= λ (pen', turn). elim turn [
      | breaks ↦ ok pen'
      | stays ↦ wrap_loop window rounds (suc cur_pos) byte_pos pen'
      | moves ↦ advance (utf8_char_length b) byte_pos >>= λ rest.
          wrap_loop window rounds (suc cur_pos) rest pen'
    ]

-- The rest of the last row is filled.
unfoldable pub fill_last : TextWindow → Pen → Run Pen
unfolding fullfiller
fill_last window pen = if pen.rel_col == 0 then ok pen else fullfiller window pen

abbrev pub first_pen : ScreenBuffer → Pen
first_pen buffer = record {
  back_buffer = buffer;
  rel_row = 0;
  rel_col = 0;
  scr_row = pos 0;
  scr_col = pos 0;
}

-- With the back buffer, which the function changes.
unfoldable pub display_wrapped : List ℕ → TextWindow → ScreenBuffer → Run ScreenBuffer
unfolding inc_rel_row wrap_loop fill_last
display_wrapped text window buffer = utf8_strlen text >>= λ len.
    (wrap_loop window (suc len) 0 text (inc_rel_row window (first_pen buffer)) >>= λ pen.
    fill_last window pen >>= λ pen'. ok pen'.back_buffer)
