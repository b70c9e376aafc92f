-- ===== src/Screen/Sizes.antt =====
-- term/iface.c: drawing stays inside the cells and keeps their number.
use vjft.Prelude.{ℕ, zero, suc, ◌<◌, ◌≡◌, refl, sym, ap, ◌∙◌, inl, inr, List, [], ◌∷◌, Bool}
use vjft.Prelude.{true, ltb, ◌&&◌, ℤ, pos, negsuc, ◌+ℤ◌, ok, ◌>>=◌, replicate}
use vjft.Prelude.{length, length-replicate, All, arith, Bool-cases}
use vjft.Screen.{Cell, ScreenBuffer, default_cell, create_screen_buffer, put, change_at, put_at}
use vjft.Screen.{buffered_putchar, draw_horizontal_line, draw_vertical_line}
use vjft.Screen.{default_fg_color, default_bg_color}

-- The cells are as many as the size says.
pub record IsScreen (buffer : ScreenBuffer) : Type 0 where
  pub height : length buffer.cells ≡ buffer.rows
  pub widths : All (λ line. length line ≡ buffer.cols) buffer.cells

-- The same size, and cells for it.
pub record IsDrawn (buffer buffer' : ScreenBuffer) : Type 0 where
  pub rows : buffer'.rows ≡ buffer.rows
  pub cols : buffer'.cols ≡ buffer.cols
  pub screen : IsScreen buffer'

All-replicate :
    (n width : ℕ) → All (λ line. length line ≡ width) (replicate n (replicate width default_cell))
All-replicate zero width = tt
All-replicate (suc n) width =
    (length-replicate {A = Cell} width default_cell, All-replicate n width)

pub create_screen_buffer-IsScreen : (rows cols : ℕ) → IsScreen (create_screen_buffer rows cols)
unfolding create_screen_buffer
create_screen_buffer-IsScreen rows cols = record {
  height = length-replicate {A = List Cell} rows (replicate cols default_cell);
  widths = All-replicate rows cols;
}

change_cell :
    (n : ℕ) (f : Cell → Cell) (line : List Cell)
    → n < length line
    → (line' : List Cell) × (change_at n (λ cell. ok (f cell)) line ≡ ok line')
      × (length line' ≡ length line)
unfolding change_at
change_cell n f [] inside = absurd (omega arith)
change_cell zero f (cell ∷ line) inside = (f cell ∷ line, refl, refl)
change_cell (suc n) f (cell ∷ line) inside =
    let (line', changed, same) = change_cell n f line (omega arith) in
    (cell ∷ line', rw changed refl, ap suc same)

change_line :
    (n col width : ℕ) (f : Cell → Cell) (lines : List (List Cell))
    → n < length lines
    → col < width
    → All (λ line. length line ≡ width) lines
    → (lines' : List (List Cell)) × (change_at n (change_at col (λ cell. ok (f cell))) lines
        ≡ ok lines')
      × (length lines' ≡ length lines)
      × All (λ line. length line ≡ width) lines'
unfolding change_at
change_line n col width f [] inside within sizes = absurd (omega arith)
change_line zero col width f (line ∷ lines) inside within (size, sizes) =
    let (line', changed, same) = change_cell col f line (omega arith) in
    (line' ∷ lines, rw changed refl, refl, (same ∙ size, sizes))
change_line (suc n) col width f (line ∷ lines) inside within (size, sizes) =
    let (lines', changed, same, sizes') =
      change_line n col width f lines (omega arith) within sizes in
    (line ∷ lines', rw changed refl, ap suc same, (size, sizes'))

-- Whatever the row and the column, below zero and beyond the screen included, buffered_putchar reaches
-- for no cell that is not there, and keeps the size.
pub buffered_putchar-IsDrawn :
    (buffer : ScreenBuffer) (row col : ℤ) (sym fg bg : ℕ)
    → IsScreen buffer
    → (buffer' : ScreenBuffer) × (buffered_putchar buffer row col sym fg bg ≡ ok buffer')
      × IsDrawn buffer buffer'
unfolding buffered_putchar put_at
buffered_putchar-IsDrawn buffer (negsuc row) col sym fg bg is =
    (buffer, refl, record { rows = refl; cols = refl; screen = is })
buffered_putchar-IsDrawn buffer (pos row) (negsuc col) sym fg bg is =
    (buffer, refl, record { rows = refl; cols = refl; screen = is })
buffered_putchar-IsDrawn buffer (pos row) (pos col) sym fg bg is =
    elim (Bool-cases (ltb row buffer.rows && ltb col buffer.cols)) [
      | inr outside ↦ (
        buffer,
        rw (buffered_putchar, outside) refl,
        record { rows = refl; cols = refl; screen = is },
      )
      | inl inside ↦
          let low : row < length buffer.cells = below row buffer.rows _ inside is.height in
          let (cells, changed, same, sizes) =
            change_line row col buffer.cols (put sym fg bg) buffer.cells low
              (within row col buffer.rows buffer.cols inside) is.widths in
          (
            record buffer { cells = cells },
            rw (buffered_putchar, inside, put_at, changed, ◌>>=◌) refl,
            record {
              rows = refl;
              cols = refl;
              screen = record { height = same ∙ is.height; widths = sizes };
            },
          )
    ]
  where
    below : (row rows : ℕ) {n : ℕ} (b : Bool) → (ltb row rows && b) ≡ true → n ≡ rows → row < n
    below row rows b h e = ground arith

    within : (row col rows cols : ℕ) → (ltb row rows && ltb col cols) ≡ true → col < cols
    within row col rows cols h = ground arith

pub IsDrawn-trans :
    (buffer buffer' buffer'' : ScreenBuffer)
    → IsDrawn buffer buffer'
    → IsDrawn buffer' buffer''
    → IsDrawn buffer buffer''
IsDrawn-trans buffer buffer' buffer'' first second = record {
  rows = second.rows ∙ first.rows;
  cols = second.cols ∙ first.cols;
  screen = second.screen;
}

-- Lines that start and end anywhere, below zero and beyond the screen included, are drawn without
-- reaching for a cell that is not there, and the buffer keeps as many rows and columns of cells as
-- its size says.
pub draw_lines-IsDrawn :
    (buffer : ScreenBuffer) (x y : ℤ) (count sym : ℕ)
    → IsScreen buffer
    → ((buffer' : ScreenBuffer) × (draw_horizontal_line buffer x y count sym ≡ ok buffer')
        × IsDrawn buffer buffer')
      × ((buffer' : ScreenBuffer) × (draw_vertical_line buffer x y count sym ≡ ok buffer')
          × IsDrawn buffer buffer')
unfolding draw_horizontal_line draw_vertical_line
draw_lines-IsDrawn buffer x y zero sym is =
    let same : IsDrawn buffer buffer = record { rows = refl; cols = refl; screen = is } in
    ((buffer, refl, same), (buffer, refl, same))
draw_lines-IsDrawn buffer x y (suc count) sym is =
    let (across, put_across, h) =
      buffered_putchar-IsDrawn buffer y x sym default_fg_color default_bg_color is in
    let ((row, drawn_row, h'), rest) =
      draw_lines-IsDrawn across (x +ℤ pos 1) y count sym h.screen in
    let (rest', (col, drawn_col, k')) =
      draw_lines-IsDrawn across x (y +ℤ pos 1) count sym h.screen in
    (
      (row, rw (put_across, ◌>>=◌) drawn_row, IsDrawn-trans buffer across row h h'),
      (col, rw (put_across, ◌>>=◌) drawn_col, IsDrawn-trans buffer across col h k'),
    )
