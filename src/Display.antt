-- ===== src/Display.antt =====
-- term/iface.c, `calc_display_size`, with `utf8_decode` of term/utf8.c. A pointer into the text is what
-- of the text stands there.
pub mod Decode
pub mod Size
use vjft.Prelude.{
  ℕ, zero, suc, ◌+◌, ◌*◌, List, [], ◌∷◌, Bool, true, false, ◌||◌, bit_and, bit_or, ltb,
}
use vjft.Prelude.{
  leb, ◌==◌, if◌then◌else◌, ℤ, pos, leb_ℤ, eqb_ℤ, Option, none, some, Run, ok, fault,
}
use vjft.Prelude.{◌>>=◌, max}
use vjft.Utf8.{byte_at, utf8_char_length, utf8_strlen}

-- The bytes used and the code point; `none` where the function returns 0 and writes no code point.
-- Shifts to the left are products.
unfoldable pub utf8_decode : List ℕ → ℕ → Run (Option (ℕ × ℕ))
utf8_decode s zero = ok none
utf8_decode s (suc n) = byte_at s 0 >>= λ b₀.
    if ltb b₀ 0x80
    then ok (some (1, b₀))
    else if bit_and b₀ 0xE0 == 0xC0
    then (if ltb (suc n) 2
        then ok none
        else byte_at s 1 >>= λ b₁. ok (some (2, bit_or (bit_and b₀ 0x1F * 0x40) (bit_and b₁ 0x3F))))
    else if bit_and b₀ 0xF0 == 0xE0
    then (if ltb (suc n) 3
        then ok none
        else byte_at s 1 >>= λ b₁. byte_at s 2 >>= λ b₂. ok (
            some (
              3,
              bit_or (bit_or (bit_and b₀ 0x0F * 0x1000) (bit_and b₁ 0x3F * 0x40)) (bit_and b₂ 0x3F),
            )))
    else if bit_and b₀ 0xF8 == 0xF0
    then (if ltb (suc n) 4
        then ok none
        else byte_at s 1 >>= λ b₁. byte_at s 2 >>= λ b₂. byte_at s 3 >>= λ b₃. ok (
            some (
              4,
              bit_or
                  (bit_or (bit_or (bit_and b₀ 0x07 * 0x40000) (bit_and b₁ 0x3F * 0x1000))
                    (bit_and b₂ 0x3F * 0x40))
                  (bit_and b₃ 0x3F),
            )))
    else ok none

-- `codepoint`, which is 0 before the call
unfoldable pub codepoint_of : Option (ℕ × ℕ) → ℕ
codepoint_of none = 0
codepoint_of (some (used, codepoint)) = codepoint

-- `byte_pos += n`: a pointer goes no further than the zero behind the text.
unfoldable pub advance : ℕ → List ℕ → Run (List ℕ)
advance zero s = ok s
advance (suc n) [] = fault
advance (suc n) (b ∷ s) = advance n s

-- What the function returns; the row and the column of the cursor only where it met the cursor.
pub record DisplaySize : Type 0 where
  pub need_cols : ℕ
  pub need_rows : ℕ
  pub cursor : Option (ℕ × ℕ)

-- The variables of the loop.
pub record Scan : Type 0 where
  pub cur_pos : ℕ
  pub cur_row : ℕ
  pub cur_col : ℕ
  pub max_col : ℕ
  pub cursor : Option (ℕ × ℕ)

-- A round, up to the test for the end of the text.
unfoldable pub scan_char : ℤ → ℤ → ℕ → Scan → Scan
scan_char max_width cursor_pos codepoint scan =
    let cur_col = scan.cur_col + 1 in
    let wraps = codepoint == 0x0A || leb_ℤ max_width (pos cur_col) in
    record {
      cur_pos = scan.cur_pos + 1;
      cur_row = if wraps then scan.cur_row + 1 else scan.cur_row;
      cur_col = if wraps then 0 else cur_col;
      max_col = max cur_col scan.max_col;
      cursor =
          if eqb_ℤ (pos scan.cur_pos) cursor_pos
          then some (scan.cur_row, scan.cur_col)
          else scan.cursor;
    }

unfoldable pub finish : Scan → DisplaySize
finish scan = record {
  need_cols = max scan.cur_col scan.max_col;
  need_rows = scan.cur_row;
  cursor = scan.cursor;
}

-- The loop, with the rounds that `cur_pos <= utf8_strlen(text)` leaves.
unfoldable pub scan_loop : ℤ → ℤ → ℕ → List ℕ → Scan → Run DisplaySize
unfolding utf8_decode codepoint_of advance scan_char finish
scan_loop max_width cursor_pos zero byte_pos scan = ok (finish scan)
scan_loop max_width cursor_pos (suc rounds) byte_pos scan = byte_at byte_pos 0 >>= λ b.
    utf8_decode byte_pos (utf8_char_length b) >>= λ decoded.
    let codepoint = codepoint_of decoded in
    let scan' = scan_char max_width cursor_pos codepoint scan in
    elim (codepoint == 0) [
      | true ↦ ok (finish (record scan' { cur_col = scan'.cur_col + 1 }))
      | false ↦ advance (utf8_char_length b) byte_pos >>= λ byte_pos.
          scan_loop max_width cursor_pos rounds byte_pos scan'
    ]

unfoldable pub calc_display_size : List ℕ → ℤ → ℤ → Run DisplaySize
unfolding scan_loop
calc_display_size text max_width cursor_pos = utf8_strlen text >>= λ len.
    scan_loop max_width cursor_pos (suc len) text
      (record { cur_pos = 0; cur_row = 1; cur_col = 0; max_col = 0; cursor = none })
