-- ===== src/Screen.antt =====
-- term/iface.c: the two buffers of the screen, what is drawn into them, and how they come to the
-- terminal. Memory is not exhausted. A size is not negative, a coordinate may be.
pub mod Sizes
pub mod Rendering
pub mod Clearing
pub mod Cells
pub mod Lines
use vjft.Prelude.{
  ℕ, zero, suc, ◌+◌, ◌-◌, ◌*◌, ◌/◌, List, [], ◌∷◌, ◌++◌, Bool, true, false, not, ltb, leb,
}
use vjft.Prelude.{◌==◌, ◌&&◌, ◌||◌, if◌then◌else◌, ℤ, pos, negsuc, ◌+ℤ◌, Option, none, some}
use vjft.Prelude.{Run, ok, exit, fault, ◌>>=◌, bit_and, bit_or, replicate, length}

pub record Cell : Type 0 where
  pub sym : ℕ
  pub fg_color : ℕ
  pub bg_color : ℕ
  pub needs_update : Bool

pub record ScreenBuffer : Type 0 where
  pub rows : ℕ
  pub cols : ℕ
  pub cells : List (List Cell)

abbrev pub default_symbol : ℕ
default_symbol = b' '

abbrev pub default_fg_color : ℕ
default_fg_color = 32

abbrev pub default_bg_color : ℕ
default_bg_color = 40

abbrev pub default_cell : Cell
default_cell = record {
  sym = default_symbol;
  fg_color = default_fg_color;
  bg_color = default_bg_color;
  needs_update = true;
}

unfoldable pub create_screen_buffer : ℕ → ℕ → ScreenBuffer
create_screen_buffer rows cols = record {
  rows = rows;
  cols = cols;
  cells = replicate rows (replicate cols default_cell);
}

-- The first `cols` cells of a row, and of the first `rows` rows.
unfoldable pub clear_cells : ℕ → List Cell → Run (List Cell)
clear_cells zero cells = ok cells
clear_cells (suc cols) [] = fault
clear_cells (suc cols) (cell ∷ cells) =
    clear_cells cols cells >>= λ cleared. ok (default_cell ∷ cleared)

unfoldable pub clear_rows : ℕ → ℕ → List (List Cell) → Run (List (List Cell))
unfolding clear_cells
clear_rows zero cols lines = ok lines
clear_rows (suc rows) cols [] = fault
clear_rows (suc rows) cols (line ∷ lines) =
    clear_cells cols line >>= λ cleared. clear_rows rows cols lines >>= λ rest. ok (cleared ∷ rest)

unfoldable pub clear_screen_buffer : ScreenBuffer → Run ScreenBuffer
unfolding clear_rows
clear_screen_buffer buffer = clear_rows buffer.rows buffer.cols buffer.cells >>= λ cells.
    ok (record buffer { cells = cells })

-- `front_buffer` and `back_buffer`
unfoldable pub init_buffers : ℕ → ℕ → ScreenBuffer × ScreenBuffer
unfolding create_screen_buffer
init_buffers rows cols = (create_screen_buffer rows cols, create_screen_buffer rows cols)

-- The buffers before are freed.
unfoldable pub resize_buffers : ScreenBuffer × ScreenBuffer → ℕ → ℕ → ScreenBuffer × ScreenBuffer
unfolding init_buffers
resize_buffers buffers new_rows new_cols = init_buffers new_rows new_cols

unfoldable pub put : ℕ → ℕ → ℕ → Cell → Cell
put sym fg_color bg_color cell =
    if not (cell.sym == sym) || (not (cell.fg_color == fg_color) || not (cell.bg_color == bg_color))
    then record { sym = sym; fg_color = fg_color; bg_color = bg_color; needs_update = true }
    else cell

-- `cells[n]`, changed by `f`
unfoldable pub change_at {ℓ} : {A : Type ℓ} → ℕ → (A → Run A) → List A → Run (List A)
change_at n f [] = fault
change_at zero f (a ∷ rest) = f a >>= λ b. ok (b ∷ rest)
change_at (suc n) f (a ∷ rest) = change_at n f rest >>= λ bs. ok (a ∷ bs)

unfoldable pub put_at : ScreenBuffer → ℕ → ℕ → ℕ → ℕ → ℕ → Run ScreenBuffer
unfolding change_at put
put_at buffer row col sym fg_color bg_color =
    change_at row (change_at col (λ cell. ok (put sym fg_color bg_color cell))) buffer.cells
    >>= λ cells. ok (record buffer { cells = cells })

unfoldable pub buffered_putchar : ScreenBuffer → ℤ → ℤ → ℕ → ℕ → ℕ → Run ScreenBuffer
unfolding put_at
buffered_putchar buffer (negsuc row) col sym fg_color bg_color = ok buffer
buffered_putchar buffer (pos row) (negsuc col) sym fg_color bg_color = ok buffer
buffered_putchar buffer (pos row) (pos col) sym fg_color bg_color =
    elim (ltb row buffer.rows && ltb col buffer.cols) [
      | false ↦ ok buffer
      | true ↦ put_at buffer row col sym fg_color bg_color
    ]

-- `drawHorizontalLine` into the back buffer, with the columns that are left; a negative number of them is none.
unfoldable pub draw_horizontal_line : ScreenBuffer → ℤ → ℤ → ℕ → ℕ → Run ScreenBuffer
unfolding buffered_putchar
draw_horizontal_line buffer x y zero sym = ok buffer
draw_horizontal_line buffer x y (suc cols) sym =
    buffered_putchar buffer y x sym default_fg_color default_bg_color >>= λ buffer'.
    draw_horizontal_line buffer' (x +ℤ pos 1) y cols sym

unfoldable pub draw_vertical_line : ScreenBuffer → ℤ → ℤ → ℕ → ℕ → Run ScreenBuffer
unfolding buffered_putchar
draw_vertical_line buffer x y zero sym = ok buffer
draw_vertical_line buffer x y (suc rows) sym =
    buffered_putchar buffer y x sym default_fg_color default_bg_color >>= λ buffer'.
    draw_vertical_line buffer' x (y +ℤ pos 1) rows sym

-- The bytes, and none for a number that is no code point. Shifts to the right are quotients.
unfoldable pub char32_to_utf8 : ℕ → List ℕ
char32_to_utf8 c =
    if leb c 0x7F
    then c ∷ []
    else if leb c 0x7FF
    then bit_or 0xC0 (bit_and (c / 0x40) 0x1F) ∷ (bit_or 0x80 (bit_and c 0x3F) ∷ [])
    else if leb c 0xFFFF
    then bit_or 0xE0 (bit_and (c / 0x1000) 0x0F)
      ∷ (bit_or 0x80 (bit_and (c / 0x40) 0x3F) ∷ (bit_or 0x80 (bit_and c 0x3F) ∷ []))
    else if leb c 0x10FFFF
    then bit_or 0xF0 (bit_and (c / 0x40000) 0x07)
      ∷ (bit_or 0x80 (bit_and (c / 0x1000) 0x3F)
          ∷ (bit_or 0x80 (bit_and (c / 0x40) 0x3F) ∷ (bit_or 0x80 (bit_and c 0x3F) ∷ [])))
    else []

-- What is printed for a cell: the place, the colours, and the bytes of the character.
pub record Printed : Type 0 where
  pub row : ℕ
  pub col : ℕ
  pub fg_color : ℕ
  pub bg_color : ℕ
  pub bytes : List ℕ

unfoldable pub print_cell : ℕ → ℕ → Cell → Printed
unfolding char32_to_utf8
print_cell i j cell = record {
  row = i + 1;
  col = j + 1;
  fg_color = cell.fg_color;
  bg_color = cell.bg_color;
  bytes = char32_to_utf8 cell.sym;
}

-- Whether the `write` for the cell in row `i` and column `j` fails decides if the program ends there. A
-- character without bytes is not written.
abbrev pub fails_at : (ℕ → ℕ → Bool) → ℕ → ℕ → Cell → Bool
unfolding char32_to_utf8
fails_at fails i j cell = elim (char32_to_utf8 cell.sym) [ [] ↦ false | _ ∷ _ ↦ fails i j ]

-- The loop over a row, with the columns that are left: what is printed, the row of the back buffer,
-- and that of the front buffer. The condition of the code holds of every cell.
unfoldable pub render_cells :
    (ℕ → ℕ → Bool) → ℕ → ℕ → ℕ → List Cell → List Cell → Run (List Printed × List Cell × List Cell)
unfolding print_cell
render_cells fails zero i j back front = ok ([], back, front)
render_cells fails (suc cols) i j [] front = fault
render_cells fails (suc cols) i j (cell ∷ back) [] = fault
render_cells fails (suc cols) i j (cell ∷ back) (old ∷ front) = elim (fails_at fails i j cell) [
  | true ↦ exit
  | false ↦ render_cells fails cols i (suc j) back front >>= λ (printed, back', front').
      ok
        (print_cell i j cell ∷ printed, record cell { needs_update = false } ∷ back', cell ∷ front')
]

unfoldable pub render_rows :
    (ℕ → ℕ → Bool)
    → ℕ
    → ℕ
    → ℕ
    → List (List Cell)
    → List (List Cell)
    → Run (List Printed × List (List Cell) × List (List Cell))
unfolding render_cells
render_rows fails zero cols i back front = ok ([], back, front)
render_rows fails (suc rows) cols i [] front = fault
render_rows fails (suc rows) cols i (line ∷ back) [] = fault
render_rows fails (suc rows) cols i (line ∷ back) (old ∷ front) =
    render_cells fails cols i 0 line old >>= λ (printed, line', shown).
    render_rows fails rows cols (suc i) back front >>= λ (rest, back', front').
    ok (printed ++ rest, line' ∷ back', shown ∷ front')

unfoldable pub render_screen :
    (ℕ → ℕ → Bool) → ScreenBuffer → ScreenBuffer → Run (List Printed × ScreenBuffer × ScreenBuffer)
unfolding render_rows
render_screen fails back front =
    render_rows fails back.rows back.cols 0 back.cells front.cells >>= λ (printed, cells, shown).
    ok (printed, record back { cells = cells }, record front { cells = shown })
