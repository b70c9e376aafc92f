-- ===== src/Screen/Rendering.antt =====
-- term/iface.c: what `render_screen` prints, and what the buffers hold behind it.
use vjft.Prelude.{ℕ, zero, suc, ◌≡◌, refl, ◌∙◌, List, [], ◌∷◌, ◌++◌, false, map}
use vjft.Prelude.{ok, ◌>>=◌, length, All, arith, subst}
use vjft.Screen.{Cell, ScreenBuffer, Printed, print_cell, fails_at, char32_to_utf8, render_cells}
use vjft.Screen.{render_rows, render_screen}
use vjft.Screen.Sizes.{IsScreen}

-- A cell that was printed.
unfoldable pub updated : Cell → Cell
updated cell = record cell { needs_update = false }

-- A row in column order, and the rows in order.
unfoldable pub print_line : ℕ → ℕ → List Cell → List Printed
print_line i j [] = []
print_line i j (cell ∷ line) = print_cell i j cell ∷ print_line i (suc j) line

unfoldable pub print_lines : ℕ → List (List Cell) → List Printed
unfolding print_line
print_lines i [] = []
print_lines i (line ∷ lines) = print_line i 0 line ++ print_lines (suc i) lines

never-fails_at : (i j : ℕ) (cell : Cell) → fails_at (λ i j. false) i j cell ≡ false
unfolding fails_at
never-fails_at i j cell = either (char32_to_utf8 cell.sym)
  where
    either : (bytes : List ℕ) → elim bytes [ [] ↦ false | _ ∷ _ ↦ false ] ≡ false
    either [] = refl
    either (b ∷ bytes) = refl

render_cells-line :
    (cols i j : ℕ) (line old : List Cell)
    → length line ≡ cols
    → length old ≡ cols
    → render_cells (λ i j. false) cols i j line old
      ≡ ok (print_line i j line, map updated line, line)
unfolding render_cells print_line updated
render_cells-line zero i j [] [] size size' = refl
render_cells-line zero i j [] (o ∷ old) size size' = absurd (omega arith)
render_cells-line zero i j (cell ∷ line) old size size' = absurd (omega arith)
render_cells-line (suc cols) i j [] old size size' = absurd (omega arith)
render_cells-line (suc cols) i j (cell ∷ line) [] size size' = absurd (omega arith)
render_cells-line (suc cols) i j (cell ∷ line) (o ∷ old) size size' =
    rw
      (
        render_cells,
        never-fails_at i j cell,
        render_cells-line cols i (suc j) line old (omega arith) (omega arith),
        ◌>>=◌,
      )
      refl

render_rows-lines :
    (rows cols i : ℕ) (lines old : List (List Cell))
    → length lines ≡ rows
    → length old ≡ rows
    → All (λ line. length line ≡ cols) lines
    → All (λ line. length line ≡ cols) old
    → render_rows (λ i j. false) rows cols i lines old
      ≡ ok (print_lines i lines, map (map updated) lines, lines)
unfolding render_rows print_lines
render_rows-lines zero cols i [] [] size size' widths widths' = refl
render_rows-lines zero cols i [] (o ∷ old) size size' widths widths' = absurd (omega arith)
render_rows-lines zero cols i (line ∷ lines) old size size' widths widths' = absurd (omega arith)
render_rows-lines (suc rows) cols i [] old size size' widths widths' = absurd (omega arith)
render_rows-lines (suc rows) cols i (line ∷ lines) [] size size' widths widths' =
    absurd (omega arith)
render_rows-lines (suc rows) cols i (line ∷ lines) (o ∷ old) size size' (width, widths)
      (width', widths') =
    rw
      (
        render_cells-line cols i 0 line o width width',
        ◌>>=◌,
        render_rows-lines rows cols (suc i) lines old (omega arith) (omega arith) widths widths',
        ◌>>=◌,
      )
      refl

-- Where no write fails and the two buffers have one size, render_screen prints every cell of the
-- back buffer once, row by row, whether or not it was changed; then the front buffer holds the
-- cells that were printed, and no cell of the back buffer is marked for an update.
pub render_screen-prints :
    (back front : ScreenBuffer)
    → IsScreen back
    → IsScreen front
    → front.rows ≡ back.rows
    → front.cols ≡ back.cols
    → render_screen (λ i j. false) back front
      ≡ ok (
        print_lines 0 back.cells,
        record back { cells = map (map updated) back.cells },
        record front { cells = back.cells },
      )
unfolding render_screen
render_screen-prints back front is is' rows cols =
    let widths : All (λ line. length line ≡ back.cols) front.cells =
      subst (λ w. All (λ line. length line ≡ w) front.cells) cols is'.widths in
    rw
      (
        render_rows-lines back.rows back.cols 0 back.cells front.cells is.height (is'.height ∙ rows)
            is.widths widths,
        ◌>>=◌,
      )
      refl
