-- ===== src/Wrapped/Frames.antt =====
-- term/iface.c: a message, and a message in a frame, in a window of the screen.
use vjft.Prelude.{
  ℕ, ◌-◌, if◌then◌else◌, ℤ, pos, negsuc, ◌+ℤ◌, ◌-ℤ◌, leb_ℤ, ltb_ℤ, pos_part, Run, ok, ◌>>=◌,
}
use vjft.Msg.{MsgNode}
use vjft.Display.{calc_display_size}
use vjft.Screen.{ScreenBuffer, buffered_putchar, default_fg_color, default_bg_color}
use vjft.Screen.{draw_horizontal_line, draw_vertical_line}
use vjft.Wrapped.{TextWindow, min_ℤ, display_wrapped}

-- Where display_message draws: the last rows, where not all have a place.
unfoldable pub message_window : MsgNode → ℤ → ℤ → ℤ → ℤ → ℤ → ℤ → TextWindow
message_window msgnode x y max_width max_height actual_rows needed_rows = record {
  abs_x = x;
  abs_y = y;
  rel_max_width = max_width;
  rel_max_rows = actual_rows;
  from_row = if ltb_ℤ max_height needed_rows then needed_rows -ℤ max_height else pos 0;
  cursor_pos = msgnode.cursor_pos;
  marker_pos = msgnode.marker_pos;
}

-- Also the rows that were used.
unfoldable pub display_message : MsgNode → ℤ → ℤ → ℤ → ℤ → ScreenBuffer → Run (ℤ × ScreenBuffer)
unfolding display_wrapped min_ℤ message_window
display_message msgnode x y max_width max_height buffer =
    calc_display_size msgnode.text max_width (pos 0) >>= λ size.
    let actual_rows = min_ℤ (pos size.need_rows) max_height in
    (display_wrapped msgnode.text
        (message_window msgnode x y max_width max_height actual_rows (pos size.need_rows)) buffer
      >>= λ drawn. ok (actual_rows, drawn))

-- A corner of the frame.
unfoldable pub put_default : ℕ → ℤ → ℤ → ScreenBuffer → Run ScreenBuffer
unfolding buffered_putchar
put_default sym row col buffer =
    buffered_putchar buffer row col sym default_fg_color default_bg_color

-- The corners and the lines of the frame, for a width of 3 at least.
unfoldable pub draw_frame : ℤ → ℤ → ℕ → ℕ → ScreenBuffer → Run ScreenBuffer
unfolding put_default draw_horizontal_line draw_vertical_line
draw_frame x y max_width needed_rows buffer =
    let right = x +ℤ pos max_width -ℤ pos 1 in
    let bottom = y +ℤ pos needed_rows +ℤ pos 2 -ℤ pos 1 in
    put_default 0x250C y x buffer >>= λ buffer. put_default 0x2510 y right buffer >>= λ buffer.
    put_default 0x2514 bottom x buffer >>= λ buffer.
    put_default 0x2518 bottom right buffer >>= λ buffer.
    draw_horizontal_line buffer (x +ℤ pos 1) y (max_width - 2) 0x2500 >>= λ buffer.
    draw_horizontal_line buffer (x +ℤ pos 1) bottom (max_width - 2) 0x2500 >>= λ buffer.
    draw_vertical_line buffer x (y +ℤ pos 1) needed_rows 0x2502 >>= λ buffer.
    draw_vertical_line buffer right (y +ℤ pos 1) needed_rows 0x2502

-- The place for the text in the frame: from its second column on, without a cursor.
unfoldable pub framed_window : ℤ → ℤ → ℤ → ℤ → TextWindow
framed_window x y rel_max_width needed_rows = record {
  abs_x = x +ℤ pos 2;
  abs_y = y;
  rel_max_width = rel_max_width;
  rel_max_rows = needed_rows;
  from_row = pos 0;
  cursor_pos = negsuc 0;
  marker_pos = negsuc 0;
}

-- Also the rows that were used, which are `max_height`, however many the frame has.
unfoldable pub display_message_with_frame :
    MsgNode → ℤ → ℤ → ℤ → ℤ → ScreenBuffer → Run (ℤ × ScreenBuffer)
unfolding display_wrapped draw_frame framed_window
display_message_with_frame msgnode x y max_width max_height buffer =
    let rel_max_width = max_width -ℤ pos 4 in
    if leb_ℤ rel_max_width (pos 0)
    then ok (pos 0, buffer)
    else (calc_display_size msgnode.text rel_max_width msgnode.cursor_pos >>= λ size.
        draw_frame x y (pos_part max_width) size.need_rows buffer >>= λ framed.
        (display_wrapped msgnode.text (framed_window x y rel_max_width (pos size.need_rows)) framed
          >>= λ drawn. ok (max_height, drawn)))
