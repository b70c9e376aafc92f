-- ===== src/Wrapped/Messages.antt =====
-- term/iface.c: a message, and a message in a frame.
use vjft.Prelude.{
  ℕ, zero, suc, ◌-◌, ◌≡◌, refl, List, true, false, ℤ, pos, negsuc, ◌+ℤ◌, ◌-ℤ◌, leb_ℤ,
}
use vjft.Prelude.{Run, ok, All, arith, if◌then◌else◌, pos_part}
use vjft.Msg.{MsgNode}
use vjft.Utf8.Chars.{IsChar, encode}
use vjft.Display.{calc_display_size}
use vjft.Display.Size.{calc_display_size-FitsIn}
use vjft.Screen.{
  ScreenBuffer, draw_horizontal_line, draw_vertical_line, default_fg_color, default_bg_color,
}
use vjft.Screen.Sizes.{
  IsScreen, IsDrawn, IsDrawn-trans, buffered_putchar-IsDrawn, draw_lines-IsDrawn,
}
use vjft.Wrapped.{min_ℤ}
use vjft.Wrapped.Drawing.{Returns, bind-Returns, if-Returns}
use vjft.Wrapped.Frames.{
  display_message, display_message_with_frame, draw_frame, put_default, message_window,
  framed_window,
}
use vjft.Wrapped.Text.{display_wrapped-IsDrawn}

-- A call that draws, behind others.
then-IsDrawn :
    (first buffer : ScreenBuffer) (run : Run ScreenBuffer)
    → IsDrawn first buffer
    → (IsScreen buffer → Returns (IsDrawn buffer) run)
    → Returns (IsDrawn first) run
unfolding Returns
then-IsDrawn first buffer run h draws =
    let (drawn, returns, k) = draws h.screen in
    (drawn, returns, IsDrawn-trans first buffer drawn h k)

module _ (first buffer : ScreenBuffer) (h : IsDrawn first buffer) where
  put_default-IsDrawn :
      (s : ℕ) (row col : ℤ) → Returns (IsDrawn first) (put_default s row col buffer)
  unfolding put_default Returns
  put_default-IsDrawn s row col =
      then-IsDrawn first buffer _ h
        (buffered_putchar-IsDrawn buffer row col s default_fg_color default_bg_color)

  draw_horizontal_line-IsDrawn :
      (x y : ℤ) (count s : ℕ) → Returns (IsDrawn first) (draw_horizontal_line buffer x y count s)
  unfolding Returns
  draw_horizontal_line-IsDrawn x y count s =
      then-IsDrawn first buffer _ h λ is. (draw_lines-IsDrawn buffer x y count s is).0

  draw_vertical_line-IsDrawn :
      (x y : ℤ) (count s : ℕ) → Returns (IsDrawn first) (draw_vertical_line buffer x y count s)
  unfolding Returns
  draw_vertical_line-IsDrawn x y count s =
      then-IsDrawn first buffer _ h λ is. (draw_lines-IsDrawn buffer x y count s is).1

draw_frame-IsDrawn :
    (first : ScreenBuffer) (x y : ℤ) (max_width needed_rows : ℕ)
    → IsScreen first
    → Returns (IsDrawn first) (draw_frame x y max_width needed_rows first)
unfolding draw_frame
draw_frame-IsDrawn first x y max_width needed_rows is =
    let Drawn = IsDrawn first in
    let same : IsDrawn first first = record { rows = refl; cols = refl; screen = is } in
    let right = x +ℤ pos max_width -ℤ pos 1 in
    let bottom = y +ℤ pos needed_rows +ℤ pos 2 -ℤ pos 1 in
    let across = draw_horizontal_line-IsDrawn first in
    let down = draw_vertical_line-IsDrawn first in
    let corner = put_default-IsDrawn first in
    bind-Returns Drawn Drawn _ _ (corner first same 0x250C y x) λ b₁ h₁.
      bind-Returns Drawn Drawn _ _ (corner b₁ h₁ 0x2510 y right) λ b₂ h₂.
        bind-Returns Drawn Drawn _ _ (corner b₂ h₂ 0x2514 bottom x) λ b₃ h₃.
          bind-Returns Drawn Drawn _ _ (corner b₃ h₃ 0x2518 bottom right) λ b₄ h₄.
            bind-Returns Drawn Drawn _ _ (across b₄ h₄ (x +ℤ pos 1) y (max_width - 2) 0x2500)
              λ b₅ h₅.
                bind-Returns Drawn Drawn _ _
                  (across b₅ h₅ (x +ℤ pos 1) bottom (max_width - 2) 0x2500)
                  λ b₆ h₆.
                    bind-Returns Drawn Drawn _ _ (down b₆ h₆ x (y +ℤ pos 1) needed_rows 0x2502)
                      λ b₇ h₇. down b₇ h₇ right (y +ℤ pos 1) needed_rows 0x2502

min_ℤ-le : (a b : ℤ) → leb_ℤ (min_ℤ a b) b ≡ true
unfolding min_ℤ
min_ℤ-le a b = ground arith

-- A width that is not zero or below.
sizes :
    (cs : List (List ℕ)) (width cursor_pos : ℤ)
    → All IsChar cs
    → leb_ℤ width (pos 0) ≡ false
    → Returns (λ size. Unit) (calc_display_size (encode cs) width cursor_pos)
unfolding Returns
sizes cs (pos zero) cursor_pos valid wide = absurd (ground arith)
sizes cs (pos (suc last)) cursor_pos valid wide =
    let (size, returns, fits, rows) = calc_display_size-FitsIn cs last cursor_pos valid in
    (size, returns, tt)
sizes cs (negsuc width) cursor_pos valid wide = absurd (ground arith)

flatten :
    {A : Type 0} (P Q : A → Type 0) (run : Run A)
    → Returns (λ a. P a × Q a) run
    → (a : A) × (run ≡ ok a) × P a × Q a
unfolding Returns
flatten P Q run (a, returns, (p, q)) = (a, returns, p, q)

-- A message with a well-formed text.
abbrev pub text_node : List (List ℕ) → ℤ → ℤ → MsgNode
text_node cs cursor_pos marker_pos = record {
  text = encode cs;
  cursor_pos = cursor_pos;
  marker_pos = marker_pos;
}

-- In a width of one column at least, display_message draws a well-formed text without an access out of
-- bounds, the buffer keeps its size, and the rows that it returns are no more than the height.
pub display_message-IsDrawn :
    (cs : List (List ℕ)) (cursor_pos marker_pos x y max_width max_height : ℤ)
    (buffer : ScreenBuffer)
    → All IsChar cs
    → IsScreen buffer
    → leb_ℤ max_width (pos 0) ≡ false
    → (result : ℤ × ScreenBuffer) × (display_message
          (text_node cs cursor_pos marker_pos)
          x
          y
          max_width
          max_height
          buffer
        ≡ ok result)
      × (leb_ℤ result.0 max_height ≡ true)
      × IsDrawn buffer result.1
unfolding display_message Returns
display_message-IsDrawn cs cursor_pos marker_pos x y max_width max_height buffer valid is wide =
    let Done : ℤ × ScreenBuffer → Type 0 =
      λ result. (leb_ℤ result.0 max_height ≡ true) × IsDrawn buffer result.1 in
    flatten (λ result. leb_ℤ result.0 max_height ≡ true) (λ result. IsDrawn buffer result.1) _
      (bind-Returns (λ size. Unit) Done _ _ (sizes cs max_width (pos 0) valid wide)
        λ size unit.
          let actual_rows = min_ℤ (pos size.need_rows) max_height in
          let window =
            message_window (text_node cs cursor_pos marker_pos) x y max_width max_height actual_rows
              (pos size.need_rows) in
          bind-Returns (IsDrawn buffer) Done _ (λ drawn. ok (actual_rows, drawn))
            (display_wrapped-IsDrawn cs window buffer valid is)
            λ drawn h. ((actual_rows, drawn), refl, (min_ℤ-le (pos size.need_rows) max_height, h)))

-- Whatever the width, display_message_with_frame draws a frame and a well-formed text in it
-- without an access out of bounds, and the buffer keeps its size; it returns 0 in a width of 4 or
-- less and else the height that it was given, however many rows it used.
pub display_message_with_frame-IsDrawn :
    (cs : List (List ℕ)) (cursor_pos marker_pos x y max_width max_height : ℤ)
    (buffer : ScreenBuffer)
    → All IsChar cs
    → IsScreen buffer
    → (result : ℤ × ScreenBuffer) × (display_message_with_frame
          (text_node cs cursor_pos marker_pos)
          x
          y
          max_width
          max_height
          buffer
        ≡ ok result)
      × (result.0 ≡ (if leb_ℤ (max_width -ℤ pos 4) (pos 0) then pos 0 else max_height))
      × IsDrawn buffer result.1
unfolding display_message_with_frame Returns
display_message_with_frame-IsDrawn cs cursor_pos marker_pos x y max_width max_height buffer valid
      is =
    let narrow = leb_ℤ (max_width -ℤ pos 4) (pos 0) in
    let Done : ℤ × ScreenBuffer → Type 0 =
      λ result. (result.0 ≡ (if narrow then pos 0 else max_height)) × IsDrawn buffer result.1 in
    let same : IsDrawn buffer buffer = record { rows = refl; cols = refl; screen = is } in
    flatten (λ result. result.0 ≡ (if narrow then pos 0 else max_height))
      (λ result. IsDrawn buffer result.1) _
      (if-Returns Done narrow _ _ (λ small. ((pos 0, buffer), refl, (rw small refl, same)))
        λ wide.
          bind-Returns (λ size. Unit) Done _ _ (sizes cs (max_width -ℤ pos 4) cursor_pos valid wide)
            λ size unit.
              bind-Returns (IsDrawn buffer) Done _ _
                (draw_frame-IsDrawn buffer x y (pos_part max_width) size.need_rows is)
                λ framed h.
                  bind-Returns (IsDrawn framed) Done _ _
                    (display_wrapped-IsDrawn cs
                      (framed_window x y (max_width -ℤ pos 4) (pos size.need_rows)) framed valid
                      h.screen)
                    λ drawn k. (
                      (max_height, drawn),
                      refl,
                      (rw wide refl, IsDrawn-trans buffer framed drawn h k),
                    ))
