-- ===== src/Display/Size.antt =====
-- term/iface.c: the size that `calc_display_size` returns fits the window.
use vjft.Prelude.{ℕ, suc, ◌+◌, ◌≤◌, ◌≡◌, refl, ◌∙◌, List, [], ◌∷◌, ◌++◌, Bool, true, false, Run, ok}
use vjft.Prelude.{Option, none, some, length, arith, ◌==◌, ℤ, pos, eqb_ℤ, All, ◌>>=◌}
use vjft.Prelude.{Bool-cases, inl, inr, if◌then◌else◌}
use vjft.Utf8.{byte_at, utf8_char_length}
use vjft.Utf8.Chars.{IsChar, is_char, char_parts, encode}
use vjft.Utf8.Walk.{utf8_strlen-encode}
use vjft.Display.{
  utf8_decode, codepoint_of, advance, DisplaySize, Scan, scan_char, finish, scan_loop,
}
use vjft.Display.{calc_display_size}
use vjft.Display.Decode.{utf8_decode-IsChar, advance-append}

-- A place of the cursor, if there is one, in a window of `rows` rows, whose columns go up to `last`.
abbrev pub IsInside : ℕ → ℕ → Option (ℕ × ℕ) → Type 0
IsInside rows last none = Unit
IsInside rows last (some (row, col)) = (1 ≤ row) × (row ≤ rows) × (col ≤ last)

IsInside-le :
    (rows rows' last : ℕ) (cursor : Option (ℕ × ℕ))
    → rows ≤ rows'
    → IsInside rows last cursor
    → IsInside rows' last cursor
IsInside-le rows rows' last none le h = tt
IsInside-le rows rows' last (some (row, col)) le (low, high, inside) = (low, omega arith, inside)

pub record IsScan (last : ℕ) (scan : Scan) : Type 0 where
  pub some_row : 1 ≤ scan.cur_row
  pub col_inside : scan.cur_col ≤ last
  pub max_inside : scan.max_col ≤ suc last
  pub cursor_inside : IsInside scan.cur_row last scan.cursor

pub record FitsIn (last : ℕ) (size : DisplaySize) : Type 0 where
  pub some_row : 1 ≤ size.need_rows
  pub cols : size.need_cols ≤ suc last
  pub cursor_inside : IsInside size.need_rows last size.cursor

cursor-IsInside :
    (here : Bool) (row rows col last : ℕ) (cursor : Option (ℕ × ℕ))
    → 1 ≤ row
    → row ≤ rows
    → col ≤ last
    → IsInside row last cursor
    → IsInside rows last (if here then some (row, col) else cursor)
cursor-IsInside true row rows col last cursor low le inside h = (low, le, inside)
cursor-IsInside false row rows col last cursor low le inside h =
    IsInside-le row rows last cursor le h

scan_char-rows :
    (last codepoint : ℕ) (cursor_pos : ℤ) (scan : Scan)
    → (scan.cur_row ≤ (scan_char (pos (suc last)) cursor_pos codepoint scan).cur_row)
      × ((scan_char (pos (suc last)) cursor_pos codepoint scan).cur_row ≤ suc scan.cur_row)
unfolding scan_char
scan_char-rows last codepoint cursor_pos scan = (ground arith, ground arith)

scan_char-IsScan :
    (last codepoint : ℕ) (cursor_pos : ℤ) (scan : Scan)
    → IsScan last scan
    → IsScan last (scan_char (pos (suc last)) cursor_pos codepoint scan)
unfolding scan_char
scan_char-IsScan last codepoint cursor_pos scan h = record {
  some_row = ground (arith, h.some_row);
  col_inside = ground (arith, h.col_inside);
  max_inside = ground (arith, h.max_inside, h.col_inside);
  cursor_inside =
      cursor-IsInside (eqb_ℤ (pos scan.cur_pos) cursor_pos) scan.cur_row _ scan.cur_col last
        scan.cursor h.some_row (ground arith) h.col_inside h.cursor_inside;
}

finish-FitsIn :
    (last cols : ℕ) (scan : Scan)
    → IsScan last scan
    → cols ≤ suc last
    → FitsIn last (finish (record scan { cur_col = cols }))
unfolding finish
finish-FitsIn last cols scan h small = record {
  some_row = h.some_row;
  cols = ground (arith, h.max_inside);
  cursor_inside = h.cursor_inside;
}

finish-rows :
    (scan : Scan) (cols : ℕ) → (finish (record scan { cur_col = cols })).need_rows ≡ scan.cur_row
unfolding finish
finish-rows scan cols = refl

-- The result of the loop: it fits, and each character adds one row at most.
abbrev Result : ℕ → ℕ → Run DisplaySize → Type 0
Result last rows run =
    (size : DisplaySize) × (run ≡ ok size) × FitsIn last size × (size.need_rows ≤ rows)

module _ (max_width cursor_pos : ℤ) (rounds : ℕ) (s : List ℕ) (scan : Scan) (b : ℕ)
    (decoded : Option (ℕ × ℕ)) (reads : byte_at s 0 ≡ ok b)
    (decodes : utf8_decode s (utf8_char_length b) ≡ ok decoded) where
  scan_loop_stop :
      (codepoint_of decoded == 0) ≡ true
      → scan_loop max_width cursor_pos (suc rounds) s scan ≡ (
          let scan' = scan_char max_width cursor_pos (codepoint_of decoded) scan in
          ok (finish (record scan' { cur_col = scan'.cur_col + 1 })))
  unfolding scan_loop
  scan_loop_stop ends = rw (scan_loop, reads, ◌>>=◌, decodes, ◌>>=◌, ends) refl

  scan_loop_go :
      (rest : List ℕ)
      → (codepoint_of decoded == 0) ≡ false
      → advance (utf8_char_length b) s ≡ ok rest
      → scan_loop max_width cursor_pos (suc rounds) s scan
        ≡ scan_loop max_width cursor_pos rounds rest
            (scan_char max_width cursor_pos (codepoint_of decoded) scan)
  unfolding scan_loop
  scan_loop_go rest goes_on moves =
      rw (scan_loop, reads, ◌>>=◌, decodes, ◌>>=◌, goes_on, moves) refl

stop-Result :
    (last codepoint rows : ℕ) (cursor_pos : ℤ) (scan : Scan) (run : Run DisplaySize)
    → IsScan last scan
    → run ≡ (
        let scan' = scan_char (pos (suc last)) cursor_pos codepoint scan in
        ok (finish (record scan' { cur_col = scan'.cur_col + 1 })))
    → suc scan.cur_row ≤ rows
    → Result last rows run
stop-Result last codepoint rows cursor_pos scan run h stops le =
    let scan' = scan_char (pos (suc last)) cursor_pos codepoint scan in
    let h' = scan_char-IsScan last codepoint cursor_pos scan h in
    (
      finish (record scan' { cur_col = scan'.cur_col + 1 }),
      stops,
      finish-FitsIn last (scan'.cur_col + 1) scan' h' (omega (arith, h'.col_inside)),
      omega (
        arith,
        finish-rows scan' (scan'.cur_col + 1),
        (scan_char-rows last codepoint cursor_pos scan).1,
      ),
    )

pub empty_text :
    (byte_at [] 0 ≡ ok 0)
    × (utf8_decode [] (utf8_char_length 0) ≡ ok (some (1, 0)))
    × ((codepoint_of (some (1, 0)) == 0) ≡ true)
unfolding byte_at utf8_decode utf8_char_length codepoint_of
empty_text = (refl, refl, refl)

pub first_byte : (b : ℕ) (s : List ℕ) → byte_at (b ∷ s) 0 ≡ ok b
unfolding byte_at
first_byte b s = refl

scan_loop-FitsIn :
    (cs : List (List ℕ)) (last : ℕ) (cursor_pos : ℤ) (scan : Scan)
    → All IsChar cs
    → IsScan last scan
    → Result last
        (scan.cur_row + suc (length cs))
        (scan_loop (pos (suc last)) cursor_pos (suc (length cs)) (encode cs) scan)
scan_loop-FitsIn [] last cursor_pos scan valid h =
    let (reads, decodes, ends) = empty_text in
    stop-Result last (codepoint_of (some (1, 0))) _ cursor_pos scan _ h
      (scan_loop_stop (pos (suc last)) cursor_pos 0 [] scan 0 (some (1, 0)) reads decodes ends)
      (omega arith)
scan_loop-FitsIn ([] ∷ cs) last cursor_pos scan (valid, valids) h =
    unfold is_char in absurd (ground arith)
scan_loop-FitsIn ((b ∷ r) ∷ cs) last cursor_pos scan (valid, valids) h =
    let s = b ∷ (r ++ encode cs) in
    let reads = first_byte b (r ++ encode cs) in
    let (decoded, decodes) = utf8_decode-IsChar b r (encode cs) valid in
    let size : utf8_char_length b ≡ suc (length r) = (char_parts b r valid).2 in
    let moves : advance (utf8_char_length b) s ≡ ok (encode cs) =
      rw size (advance-append (b ∷ r) (encode cs)) in
    let codepoint = codepoint_of decoded in
    let scan' = scan_char (pos (suc last)) cursor_pos codepoint scan in
    elim (Bool-cases (codepoint == 0)) [
      | inl ends ↦
          stop-Result last codepoint _ cursor_pos scan _ h
            (scan_loop_stop (pos (suc last)) cursor_pos _ s scan b decoded reads decodes ends)
            (omega arith)
      | inr goes_on ↦
          let (result, returns, fits, rows) =
            scan_loop-FitsIn cs last cursor_pos scan' valids
              (scan_char-IsScan last codepoint cursor_pos scan h) in
          (
            result,
            scan_loop_go (pos (suc last)) cursor_pos _ s scan b decoded reads decodes _ goes_on
                  moves
                ∙ returns,
            fits,
            omega (arith, rows, (scan_char-rows last codepoint cursor_pos scan).1),
          )
    ]

-- On well-formed text, in a window of one column at least, calc_display_size returns a size of one
-- row at least and at most two rows more than the text has characters, no wider than the window;
-- the cursor, where it is returned, lies inside.
pub calc_display_size-FitsIn :
    (cs : List (List ℕ)) (last : ℕ) (cursor_pos : ℤ)
    → All IsChar cs
    → (size : DisplaySize) × (calc_display_size (encode cs) (pos (suc last)) cursor_pos ≡ ok size)
      × FitsIn last size
      × (size.need_rows ≤ length cs + 2)
unfolding calc_display_size
calc_display_size-FitsIn cs last cursor_pos valid =
    let (size, returns, fits, rows) =
      scan_loop-FitsIn cs last cursor_pos
        (record { cur_pos = 0; cur_row = 1; cur_col = 0; max_col = 0; cursor = none }) valid
        (record {
          some_row = omega arith;
          col_inside = omega arith;
          max_inside = omega arith;
          cursor_inside = tt;
        }) in
    (
      size,
      rw (calc_display_size, utf8_strlen-encode cs valid, ◌>>=◌) returns,
      fits,
      omega (arith, rows),
    )
