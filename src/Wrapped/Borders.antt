-- ===== src/Wrapped/Borders.antt =====
-- term/iface.c: what the frame of a message looks like, cell by cell.
use vjft.Prelude.{
  ℕ, ◌+◌, ◌-◌, ◌<◌, ◌≡◌, refl, sym, ◌∙◌, Bool, ◌&&◌, if◌then◌else◌, ℤ, pos, negsuc, ◌+ℤ◌, ◌-ℤ◌,
}
use vjft.Prelude.{eqb_ℤ, Option, some, ok, arith, subst, ap}
use vjft.Screen.{
  ScreenBuffer, draw_horizontal_line, draw_vertical_line, default_fg_color, default_bg_color,
}
use vjft.Screen.Sizes.{IsScreen, IsDrawn, IsDrawn-trans, buffered_putchar-IsDrawn}
use vjft.Screen.Cells.{look_at, buffered_putchar-look_at}
use vjft.Screen.Lines.{in_range, draw_lines-look_at}
use vjft.Wrapped.Frames.{put_default, draw_frame}
use vjft.Wrapped.Drawing.{Returns, bind-Returns}

abbrev plain : ℕ → Option (ℕ × ℕ × ℕ)
plain s = some (s, default_fg_color, default_bg_color)

-- The frame between the columns `left` and `right` and the rows `top` and `bottom`, over what stands there.
unfoldable pub frame_at : ℤ → ℤ → ℤ → ℤ → ℕ → ℕ → ℕ → ℕ → Option (ℕ × ℕ × ℕ) → Option (ℕ × ℕ × ℕ)
unfolding in_range
frame_at left right top bottom width height i j under =
    if eqb_ℤ (pos j) right && in_range (top +ℤ pos 1) height i
    then plain 0x2502
    else if eqb_ℤ (pos j) left && in_range (top +ℤ pos 1) height i
    then plain 0x2502
    else if eqb_ℤ (pos i) bottom && in_range (left +ℤ pos 1) width j
    then plain 0x2500
    else if eqb_ℤ (pos i) top && in_range (left +ℤ pos 1) width j
    then plain 0x2500
    else if eqb_ℤ (pos i) bottom && eqb_ℤ (pos j) right
    then plain 0x2518
    else if eqb_ℤ (pos i) bottom && eqb_ℤ (pos j) left
    then plain 0x2514
    else if eqb_ℤ (pos i) top && eqb_ℤ (pos j) right
    then plain 0x2510
    else if eqb_ℤ (pos i) top && eqb_ℤ (pos j) left
    then plain 0x250C
    else under

module _ (first : ScreenBuffer) (i j : ℕ) (low : i < first.rows) (within : j < first.cols) where
  -- A buffer that was drawn on, and what it shows in the row `i` and the column `j`.
  abbrev Seen : Option (ℕ × ℕ × ℕ) → ScreenBuffer → Type 0
  Seen shown buffer = IsDrawn first buffer × (look_at buffer.cells i j ≡ shown)

  module _ (buffer : ScreenBuffer) (shown : Option (ℕ × ℕ × ℕ)) (seen : Seen shown buffer) where
    low' : i < buffer.rows
    low' = subst (λ n. i < n) (sym seen.0.rows) low

    within' : j < buffer.cols
    within' = subst (λ n. j < n) (sym seen.0.cols) within

    over :
        (b : Bool) (v : Option (ℕ × ℕ × ℕ)) (drawn : ScreenBuffer)
        → IsDrawn buffer drawn
        → look_at drawn.cells i j ≡ (if b then v else look_at buffer.cells i j)
        → Seen (if b then v else shown) drawn
    over b v drawn h shows =
        (IsDrawn-trans first buffer drawn seen.0 h, shows ∙ ap (λ o. if b then v else o) seen.1)

    put-Seen :
        (s : ℕ) (row col : ℤ)
        → Returns
            (Seen (if eqb_ℤ (pos i) row && eqb_ℤ (pos j) col then plain s else shown))
            (put_default s row col buffer)
    unfolding Returns put_default
    put-Seen s row col =
        let (drawn, puts, h) =
          buffered_putchar-IsDrawn buffer row col s default_fg_color default_bg_color
            seen.0.screen in
        (
          drawn,
          puts,
          over _ (plain s) drawn h (
              buffered_putchar-look_at buffer drawn row col s default_fg_color default_bg_color i j
                low' within' puts),
        )

    across-Seen :
        (x y : ℤ) (count s : ℕ)
        → Returns
            (Seen (if eqb_ℤ (pos i) y && in_range x count j then plain s else shown))
            (draw_horizontal_line buffer x y count s)
    unfolding Returns
    across-Seen x y count s =
        let (drawn, draws, h, shows) =
          (draw_lines-look_at buffer x y count s i j seen.0.screen low' within').0 in
        (drawn, draws, over _ (plain s) drawn h shows)

    down-Seen :
        (x y : ℤ) (count s : ℕ)
        → Returns
            (Seen (if eqb_ℤ (pos j) x && in_range y count i then plain s else shown))
            (draw_vertical_line buffer x y count s)
    unfolding Returns
    down-Seen x y count s =
        let (drawn, draws, h, shows) =
          (draw_lines-look_at buffer x y count s i j seen.0.screen low' within').1 in
        (drawn, draws, over _ (plain s) drawn h shows)

  frame-Seen :
      (x y : ℤ) (max_width needed_rows : ℕ)
      → IsScreen first
      → (let bottom = y +ℤ pos needed_rows +ℤ pos 2 -ℤ pos 1 in
          Returns
            (Seen (
              frame_at x
                (x +ℤ pos max_width -ℤ pos 1)
                y
                bottom
                (max_width - 2)
                needed_rows
                i
                j
                (look_at first.cells i j)))
            (draw_frame x y max_width needed_rows first))
  unfolding draw_frame frame_at
  frame-Seen x y max_width needed_rows is =
      let right = x +ℤ pos max_width -ℤ pos 1 in
      let bottom = y +ℤ pos needed_rows +ℤ pos 2 -ℤ pos 1 in
      let o = look_at first.cells i j in
      let same : Seen o first = (record { rows = refl; cols = refl; screen = is }, refl) in
      bind-Returns _ _ _ _ (put-Seen first o same 0x250C y x) λ b₁ h₁.
        bind-Returns _ _ _ _ (put-Seen b₁ _ h₁ 0x2510 y right) λ b₂ h₂.
          bind-Returns _ _ _ _ (put-Seen b₂ _ h₂ 0x2514 bottom x) λ b₃ h₃.
            bind-Returns _ _ _ _ (put-Seen b₃ _ h₃ 0x2518 bottom right) λ b₄ h₄.
              bind-Returns _ _ _ _ (across-Seen b₄ _ h₄ (x +ℤ pos 1) y (max_width - 2) 0x2500)
                λ b₅ h₅.
                  bind-Returns _ _ _ _
                    (across-Seen b₅ _ h₅ (x +ℤ pos 1) bottom (max_width - 2) 0x2500)
                    λ b₆ h₆.
                      bind-Returns _ _ _ _ (down-Seen b₆ _ h₆ x (y +ℤ pos 1) needed_rows 0x2502)
                        λ b₇ h₇. down-Seen b₇ _ h₇ right (y +ℤ pos 1) needed_rows 0x2502

last_row : (y : ℤ) (n : ℕ) → y +ℤ pos n +ℤ pos 2 -ℤ pos 1 ≡ y +ℤ pos (n + 1)
last_row (pos y) n = ground arith
last_row (negsuc y) n = ground arith

-- The frame of a message is drawn without an access out of bounds, wherever it stands, and then
-- each cell of the screen shows the frame: the corners, the horizontal lines between them in the
-- first row and in the row behind those of the text, and the vertical lines beside the text, one
-- symbol over another where they meet, in the default colours; a cell that is not on the frame
-- shows what it did before.
pub draw_frame-frame_at :
    (buffer : ScreenBuffer) (x y : ℤ) (max_width needed_rows i j : ℕ)
    → IsScreen buffer
    → i < buffer.rows
    → j < buffer.cols
    → (drawn : ScreenBuffer) × (draw_frame x y max_width needed_rows buffer ≡ ok drawn)
      × IsDrawn buffer drawn
      × (look_at drawn.cells i j
          ≡ frame_at x
              (x +ℤ pos max_width -ℤ pos 1)
              y
              (y +ℤ pos (needed_rows + 1))
              (max_width - 2)
              needed_rows
              i
              j
              (look_at buffer.cells i j))
unfolding Returns
draw_frame-frame_at buffer x y max_width needed_rows i j is low within =
    let (drawn, draws, (h, shows)) =
      frame-Seen buffer i j low within x y max_width needed_rows is in
    (
      drawn,
      draws,
      h,
      shows
          ∙ ap
              (λ bottom.
                frame_at x (x +ℤ pos max_width -ℤ pos 1) y bottom (max_width - 2) needed_rows i j
                  (look_at buffer.cells i j))
              (last_row y needed_rows),
    )
