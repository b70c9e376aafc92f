-- ===== src/Screen/Cells.antt =====
-- term/iface.c: which cell `buffered_putchar` changes, and what it shows then.
use vjft.Prelude.{ℕ, zero, suc, ◌<◌, ◌≡◌, refl, ap, inl, inr, List, [], ◌∷◌, false}
use vjft.Prelude.{ltb, ◌==◌, ◌&&◌, ◌||◌, not, if◌then◌else◌, ℤ, pos, negsuc, eqb_ℤ}
use vjft.Prelude.{Option, none, some, ok, arith, Bool-cases, ok->>=, ok-injective, subst}
use vjft.Screen.{Cell, ScreenBuffer, put, change_at, put_at, buffered_putchar}

-- What a cell shows: the character and the colours.
abbrev look : Cell → ℕ × ℕ × ℕ
look cell = (cell.sym, cell.fg_color, cell.bg_color)

-- What stands in a column of a row, and in a row and a column.
unfoldable pub look_in : List Cell → ℕ → Option (ℕ × ℕ × ℕ)
look_in [] j = none
look_in (cell ∷ line) zero = some (look cell)
look_in (cell ∷ line) (suc j) = look_in line j

unfoldable pub look_at : List (List Cell) → ℕ → ℕ → Option (ℕ × ℕ × ℕ)
unfolding look_in
look_at [] i j = none
look_at (line ∷ lines) zero j = look_in line j
look_at (line ∷ lines) (suc i) j = look_at lines i j

put-look : (s fg bg : ℕ) (cell : Cell) → look (put s fg bg cell) ≡ (s, fg, bg)
unfolding put
put-look s fg bg cell =
    elim (Bool-cases
      (not (cell.sym == s) || (not (cell.fg_color == fg) || not (cell.bg_color == bg)))) [
        | inl other ↦ rw (put, other) refl
        | inr same ↦
            let e₁ : cell.sym ≡ s = ground arith in
            let e₂ : cell.fg_color ≡ fg = ground arith in
            let e₃ : cell.bg_color ≡ bg = ground arith in rw (put, same, e₁, e₂, e₃) refl
      ]

behind :
    (n j : ℕ) (v : ℕ × ℕ × ℕ) (cell : Cell) (line rest : List Cell)
    → ((k : ℕ) → look_in rest k ≡ (if k == n then some v else look_in line k))
    → look_in (cell ∷ rest) j ≡ (if j == suc n then some v else look_in (cell ∷ line) j)
unfolding look_in
behind n zero v cell line rest h = let other : (0 == suc n) ≡ false = ground arith in rw other refl
behind n (suc j) v cell line rest h =
    let same : (suc j == suc n) ≡ (j == n) = ground arith in rw same (h j)

change-look_in :
    (n j : ℕ) (f : Cell → Cell) (v : ℕ × ℕ × ℕ) (line line' : List Cell)
    → ((cell : Cell) → look (f cell) ≡ v)
    → change_at n (λ cell. ok (f cell)) line ≡ ok line'
    → look_in line' j ≡ (if j == n then some v else look_in line j)
unfolding change_at look_in
change-look_in n j f v [] line' shows e = absurd cc
change-look_in zero zero f v (cell ∷ line) line' shows e =
    subst (λ l. look_in l 0 ≡ some v) (ok-injective e) (ap some (shows cell))
change-look_in zero (suc j) f v (cell ∷ line) line' shows e =
    let same : (suc j == 0) ≡ false = ground arith in
    rw same (subst (λ l. look_in l (suc j) ≡ look_in line j) (ok-injective e) refl)
change-look_in (suc n) j f v (cell ∷ line) line' shows e =
    let (rest, made, found) =
      ok->>= (change_at n (λ cell. ok (f cell)) line) (λ bs. ok (cell ∷ bs)) line' e in
    subst (λ l. look_in l j ≡ (if j == suc n then some v else look_in (cell ∷ line) j))
      (ok-injective found)
      (behind n j v cell line rest (λ k. change-look_in n k f v line rest shows made))

change-look_at :
    (n col i j : ℕ) (f : Cell → Cell) (v : ℕ × ℕ × ℕ) (lines lines' : List (List Cell))
    → ((cell : Cell) → look (f cell) ≡ v)
    → change_at n (change_at col (λ cell. ok (f cell))) lines ≡ ok lines'
    → look_at lines' i j ≡ (if i == n && j == col then some v else look_at lines i j)
unfolding change_at look_at
change-look_at n col i j f v [] lines' shows e = absurd cc
change-look_at zero col zero j f v (line ∷ lines) lines' shows e =
    let (line', made, found) =
      ok->>= (change_at col (λ cell. ok (f cell)) line) (λ b. ok (b ∷ lines)) lines' e in
    subst (λ l. look_at l 0 j ≡ (if j == col then some v else look_in line j)) (ok-injective found)
      (change-look_in col j f v line line' shows made)
change-look_at zero col (suc i) j f v (line ∷ lines) lines' shows e =
    let (line', made, found) =
      ok->>= (change_at col (λ cell. ok (f cell)) line) (λ b. ok (b ∷ lines)) lines' e in
    let same : (suc i == 0) ≡ false = ground arith in
    rw same (subst (λ l. look_at l (suc i) j ≡ look_at lines i j) (ok-injective found) refl)
change-look_at (suc n) col zero j f v (line ∷ lines) lines' shows e =
    let (rest, made, found) =
      ok->>= (change_at n (change_at col (λ cell. ok (f cell))) lines) (λ bs. ok (line ∷ bs)) lines'
        e in
    let other : (0 == suc n) ≡ false = ground arith in
    rw other (subst (λ l. look_at l 0 j ≡ look_in line j) (ok-injective found) refl)
change-look_at (suc n) col (suc i) j f v (line ∷ lines) lines' shows e =
    let (rest, made, found) =
      ok->>= (change_at n (change_at col (λ cell. ok (f cell))) lines) (λ bs. ok (line ∷ bs)) lines'
        e in
    let same : (suc i == suc n) ≡ (i == n) = ground arith in
    rw same (
      subst (λ l. look_at l (suc i) j ≡ (if i == n && j == col then some v else look_at lines i j))
        (ok-injective found) (change-look_at n col i j f v lines rest shows made))

-- buffered_putchar changes the cell of its row and column, and no other one.
pub buffered_putchar-look_at :
    (buffer buffer' : ScreenBuffer) (row col : ℤ) (s fg bg i j : ℕ)
    → i < buffer.rows
    → j < buffer.cols
    → buffered_putchar buffer row col s fg bg ≡ ok buffer'
    → look_at buffer'.cells i j ≡ (
        if eqb_ℤ (pos i) row && eqb_ℤ (pos j) col
        then some (s, fg, bg)
        else look_at buffer.cells i j)
unfolding buffered_putchar put_at
buffered_putchar-look_at buffer buffer' (negsuc row) col s fg bg i j low within e =
    let other : eqb_ℤ (pos i) (negsuc row) ≡ false = ground arith in
    rw other (subst (λ b. look_at b.cells i j ≡ look_at buffer.cells i j) (ok-injective e) refl)
buffered_putchar-look_at buffer buffer' (pos row) (negsuc col) s fg bg i j low within e =
    let other : (eqb_ℤ (pos i) (pos row) && eqb_ℤ (pos j) (negsuc col)) ≡ false = ground arith in
    rw other (subst (λ b. look_at b.cells i j ≡ look_at buffer.cells i j) (ok-injective e) refl)
buffered_putchar-look_at buffer buffer' (pos row) (pos col) s fg bg i j low within e =
    elim (Bool-cases (ltb row buffer.rows && ltb col buffer.cols)) [
      | inr outside ↦
          let other : (eqb_ℤ (pos i) (pos row) && eqb_ℤ (pos j) (pos col)) ≡ false = ground arith in
          rw other (
            subst (λ b. look_at b.cells i j ≡ look_at buffer.cells i j)
              (ok-injective (rw (buffered_putchar, outside) at e)) refl)
      | inl inside ↦
          let (cells, made, found) =
            ok->>= (change_at row (change_at col (λ cell. ok (put s fg bg cell))) buffer.cells)
              (λ cells. ok (record buffer { cells = cells })) buffer'
              (rw (buffered_putchar, inside, put_at) at e) in
          let row_same : eqb_ℤ (pos i) (pos row) ≡ (i == row) = ground arith in
          let col_same : eqb_ℤ (pos j) (pos col) ≡ (j == col) = ground arith in
          rw (row_same, col_same)
            (subst
              (λ b.
                look_at b.cells i j
                ≡ (if i == row && j == col then some (s, fg, bg) else look_at buffer.cells i j))
              (ok-injective found)
              (change-look_at row col i j (put s fg bg) (s, fg, bg) buffer.cells cells
                (put-look s fg bg) made))
    ]
