-- ===== src/Tests/Screen.antt =====
-- The theorem on the size of a text at a concrete input.
use vjft.Prelude.{◌≡◌, ◌≤◌, pos, ok}
use vjft.Utf8.Chars.{encode}
use vjft.Display.{DisplaySize, calc_display_size}
use vjft.Display.Size.{FitsIn, calc_display_size-FitsIn}
use vjft.Tests.Editing.{text, node-Shows}

calc_display_size-FitsIn_example :
    (size : DisplaySize) × (calc_display_size (encode text) (pos 2) (pos 1) ≡ ok size)
    × FitsIn 1 size
    × (size.need_rows ≤ 6)
calc_display_size-FitsIn_example = calc_display_size-FitsIn text 1 (pos 1) node-Shows.valid
