-- ===== src/Screen/Clearing.antt =====
-- term/iface.c: clearing the buffer, and giving it a new size.
use vjft.Prelude.{ℕ, zero, suc, ◌≡◌, refl, List, [], ◌∷◌, ok, ◌>>=◌, replicate, length, All, arith}
use vjft.Screen.{Cell, ScreenBuffer, default_cell, create_screen_buffer, clear_cells, clear_rows}
use vjft.Screen.{clear_screen_buffer}
use vjft.Screen.Sizes.{IsScreen}

clear_cells-replicate :
    (cols : ℕ) (line : List Cell)
    → length line ≡ cols
    → clear_cells cols line ≡ ok (replicate cols default_cell)
unfolding clear_cells
clear_cells-replicate zero [] size = refl
clear_cells-replicate zero (cell ∷ line) size = absurd (omega arith)
clear_cells-replicate (suc cols) [] size = absurd (omega arith)
clear_cells-replicate (suc cols) (cell ∷ line) size =
    rw (clear_cells-replicate cols line (omega arith), ◌>>=◌) refl

clear_rows-replicate :
    (rows cols : ℕ) (lines : List (List Cell))
    → length lines ≡ rows
    → All (λ line. length line ≡ cols) lines
    → clear_rows rows cols lines ≡ ok (replicate rows (replicate cols default_cell))
unfolding clear_rows
clear_rows-replicate zero cols [] size widths = refl
clear_rows-replicate zero cols (line ∷ lines) size widths = absurd (omega arith)
clear_rows-replicate (suc rows) cols [] size widths = absurd (omega arith)
clear_rows-replicate (suc rows) cols (line ∷ lines) size (width, widths) =
    rw
      (
        clear_cells-replicate cols line width,
        ◌>>=◌,
        clear_rows-replicate rows cols lines (omega arith) widths,
        ◌>>=◌,
      )
      refl

-- A cleared buffer is a new one of its size.
pub clear_screen_buffer-create_screen_buffer :
    (buffer : ScreenBuffer)
    → IsScreen buffer
    → clear_screen_buffer buffer ≡ ok (create_screen_buffer buffer.rows buffer.cols)
unfolding clear_screen_buffer create_screen_buffer
clear_screen_buffer-create_screen_buffer buffer is =
    rw (clear_rows-replicate buffer.rows buffer.cols buffer.cells is.height is.widths, ◌>>=◌) refl
