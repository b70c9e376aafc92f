-- ===== src/Screen/Lines.antt =====
-- term/iface.c: which cells the lines change.
use vjft.Prelude.{ℕ, zero, suc, ◌<◌, ◌≡◌, refl, sym, ap, ◌∙◌, Bool, true, false}
use vjft.Prelude.{◌&&◌, ◌||◌, if◌then◌else◌, ℤ, pos, negsuc, ◌+ℤ◌, leb_ℤ, ltb_ℤ, eqb_ℤ}
use vjft.Prelude.{Option, some, ok, ◌>>=◌, arith, ok-injective, subst}
use vjft.Screen.{ScreenBuffer, draw_horizontal_line, draw_vertical_line}
use vjft.Screen.{default_fg_color, default_bg_color}
use vjft.Screen.Sizes.{IsScreen, IsDrawn, draw_lines-IsDrawn, buffered_putchar-IsDrawn}
use vjft.Screen.Cells.{look_at, buffered_putchar-look_at}

-- The columns from `x` on, `count` of them.
unfoldable pub in_range : ℤ → ℕ → ℕ → Bool
in_range x count j = leb_ℤ x (pos j) && ltb_ℤ (pos j) (x +ℤ pos count)

in_range-zero : (x : ℤ) (j : ℕ) → in_range x 0 j ≡ false
unfolding in_range
in_range-zero (pos x) j = ground arith
in_range-zero (negsuc x) j = ground arith

in_range-suc :
    (x : ℤ) (count j : ℕ)
    → in_range x (suc count) j ≡ (in_range (x +ℤ pos 1) count j || eqb_ℤ (pos j) x)
unfolding in_range
in_range-suc (pos x) count j = ground arith
in_range-suc (negsuc x) count j = ground arith

-- A cell that is drawn in a later step, or in the first one.
twice :
    (a b c d : Bool) (v o : Option (ℕ × ℕ × ℕ))
    → d ≡ (b || c)
    → (if a && b then v else (if a && c then v else o)) ≡ (if a && d then v else o)
twice false b c d v o e = refl
twice true true c d v o e = rw e refl
twice true false c d v o e = rw e refl

across_changes :
    (count s : ℕ) (buffer buffer' : ScreenBuffer) (x y : ℤ) (i j : ℕ)
    → IsScreen buffer
    → i < buffer.rows
    → j < buffer.cols
    → draw_horizontal_line buffer x y count s ≡ ok buffer'
    → look_at buffer'.cells i j ≡ (
        if eqb_ℤ (pos i) y && in_range x count j
        then some (s, default_fg_color, default_bg_color)
        else look_at buffer.cells i j)
unfolding draw_horizontal_line
across_changes zero s buffer buffer' x y i j is low within e =
    let none_left : (eqb_ℤ (pos i) y && in_range x 0 j) ≡ false =
      ground (arith, in_range-zero x j) in
    rw none_left (subst (λ b. look_at b.cells i j ≡ look_at buffer.cells i j) (ok-injective e) refl)
across_changes (suc count) s buffer buffer' x y i j is low within e =
    let (first, put_first, h) =
      buffered_putchar-IsDrawn buffer y x s default_fg_color default_bg_color is in
    let one =
      buffered_putchar-look_at buffer first y x s default_fg_color default_bg_color i j low within
        put_first in
    let more =
      across_changes count s first buffer' (x +ℤ pos 1) y i j h.screen
        (subst (λ n. i < n) (sym h.rows) low) (subst (λ n. j < n) (sym h.cols) within)
        (rw (draw_horizontal_line, put_first, ◌>>=◌) at e) in
    (rw one at more)
    ∙ twice (eqb_ℤ (pos i) y) (in_range (x +ℤ pos 1) count j) (eqb_ℤ (pos j) x)
        (in_range x (suc count) j) _ _ (in_range-suc x count j)

down_changes :
    (count s : ℕ) (buffer buffer' : ScreenBuffer) (x y : ℤ) (i j : ℕ)
    → IsScreen buffer
    → i < buffer.rows
    → j < buffer.cols
    → draw_vertical_line buffer x y count s ≡ ok buffer'
    → look_at buffer'.cells i j ≡ (
        if eqb_ℤ (pos j) x && in_range y count i
        then some (s, default_fg_color, default_bg_color)
        else look_at buffer.cells i j)
unfolding draw_vertical_line
down_changes zero s buffer buffer' x y i j is low within e =
    let none_left : (eqb_ℤ (pos j) x && in_range y 0 i) ≡ false =
      ground (arith, in_range-zero y i) in
    rw none_left (subst (λ b. look_at b.cells i j ≡ look_at buffer.cells i j) (ok-injective e) refl)
down_changes (suc count) s buffer buffer' x y i j is low within e =
    let (first, put_first, h) =
      buffered_putchar-IsDrawn buffer y x s default_fg_color default_bg_color is in
    let one =
      buffered_putchar-look_at buffer first y x s default_fg_color default_bg_color i j low within
        put_first in
    let one' =
      one
      ∙ ap
          (λ b.
            if b then some (s, default_fg_color, default_bg_color) else look_at buffer.cells i j)
          (and_comm (eqb_ℤ (pos i) y) (eqb_ℤ (pos j) x)) in
    let more =
      down_changes count s first buffer' x (y +ℤ pos 1) i j h.screen
        (subst (λ n. i < n) (sym h.rows) low) (subst (λ n. j < n) (sym h.cols) within)
        (rw (draw_vertical_line, put_first, ◌>>=◌) at e) in
    (rw one' at more)
    ∙ twice (eqb_ℤ (pos j) x) (in_range (y +ℤ pos 1) count i) (eqb_ℤ (pos i) y)
        (in_range y (suc count) i) _ _ (in_range-suc y count i)
  where
    and_comm : (a b : Bool) → (a && b) ≡ (b && a)
    and_comm true true = refl
    and_comm true false = refl
    and_comm false true = refl
    and_comm false false = refl

-- Lines that start and end anywhere.
pub draw_lines-look_at :
    (buffer : ScreenBuffer) (x y : ℤ) (count s i j : ℕ)
    → IsScreen buffer
    → i < buffer.rows
    → j < buffer.cols
    → ((buffer' : ScreenBuffer) × (draw_horizontal_line buffer x y count s ≡ ok buffer')
        × IsDrawn buffer buffer'
        × (look_at buffer'.cells i j ≡ (
            if eqb_ℤ (pos i) y && in_range x count j
            then some (s, default_fg_color, default_bg_color)
            else look_at buffer.cells i j)))
      × ((buffer' : ScreenBuffer) × (draw_vertical_line buffer x y count s ≡ ok buffer')
          × IsDrawn buffer buffer'
          × (look_at buffer'.cells i j ≡ (
              if eqb_ℤ (pos j) x && in_range y count i
              then some (s, default_fg_color, default_bg_color)
              else look_at buffer.cells i j)))
draw_lines-look_at buffer x y count s i j is low within =
    let ((row, drawn_row, h), (col, drawn_col, k)) = draw_lines-IsDrawn buffer x y count s is in
    (
      (row, drawn_row, h, across_changes count s buffer row x y i j is low within drawn_row),
      (col, drawn_col, k, down_changes count s buffer col x y i j is low within drawn_col),
    )
