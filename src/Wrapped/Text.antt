-- ===== src/Wrapped/Text.antt =====
-- term/iface.c: a well-formed text is drawn whole: the loop of `display_wrapped` returns, and so do
-- the functions that call it.
use vjft.Prelude.{ℕ, zero, suc, ◌≡◌, refl, List, [], ◌∷◌, ◌++◌, false, ◌==◌}
use vjft.Prelude.{ok, ◌>>=◌, length, All, arith, Option, some}
use vjft.Utf8.{byte_at, utf8_char_length}
use vjft.Utf8.Chars.{IsChar, is_char, char_parts, encode}
use vjft.Utf8.Walk.{utf8_strlen-encode}
use vjft.Display.{utf8_decode, codepoint_of, advance}
use vjft.Display.Decode.{utf8_decode-IsChar, advance-append}
use vjft.Display.Size.{empty_text, first_byte}
use vjft.Screen.{ScreenBuffer}
use vjft.Screen.Sizes.{IsScreen, IsDrawn}
use vjft.Wrapped.{
  TextWindow, Pen, inc_rel_row, Turn, stays, moves, breaks, wrap_loop, fill_last, first_pen,
}
use vjft.Wrapped.{display_wrapped}
use vjft.Wrapped.Drawing.{
  Returns, bind-Returns, if-Returns, HasDrawn, HasTurned, wrap_char-HasTurned,
}
use vjft.Wrapped.Drawing.{fullfiller-HasDrawn, inc_rel_row-HasDrawn}

-- A round at a character that was read and decoded, if the rest of the loop does the same.
module _ (window : TextWindow) (buffer : ScreenBuffer) (rounds cur_pos b : ℕ) (s : List ℕ)
    (pen : Pen) (decoded : Option (ℕ × ℕ)) (reads : byte_at s 0 ≡ ok b)
    (decodes : utf8_decode s (utf8_char_length b) ≡ ok decoded) (h : HasDrawn buffer pen) where
  wrap_loop-round :
      ((pen' : Pen)
        → HasDrawn buffer pen'
        → Returns (HasDrawn buffer) (wrap_loop window rounds (suc cur_pos) s pen'))
      → ((pen' : Pen)
          → HasDrawn buffer pen'
          → (codepoint_of decoded == 0) ≡ false
          → Returns (HasDrawn buffer) (
              advance (utf8_char_length b) s >>= λ rest.
              wrap_loop window rounds (suc cur_pos) rest pen'))
      → Returns (HasDrawn buffer) (wrap_loop window (suc rounds) cur_pos s pen)
  unfolding wrap_loop Returns
  wrap_loop-round stay move =
      rw (wrap_loop, reads, ◌>>=◌, decodes, ◌>>=◌)
        (bind-Returns (HasTurned buffer (codepoint_of decoded)) (HasDrawn buffer) _ _
          (wrap_char-HasTurned window buffer cur_pos (codepoint_of decoded) pen h)
          (λ (pen', turn) k. after pen' turn k))
    where
      after :
          (pen' : Pen) (turn : Turn)
          → HasTurned buffer (codepoint_of decoded) (pen', turn)
          → Returns (HasDrawn buffer) (elim turn [
            | breaks ↦ ok pen'
            | stays ↦ wrap_loop window rounds (suc cur_pos) s pen'
            | moves ↦ advance (utf8_char_length b) s >>= λ rest.
                wrap_loop window rounds (suc cur_pos) rest pen'
          ])
      after pen' breaks (h', k) = (pen', refl, h')
      after pen' stays (h', k) = stay pen' h'
      after pen' moves (h', k) = move pen' h' k

-- Whatever the number of the rounds.
wrap_loop-HasDrawn :
    (rounds : ℕ) (cs : List (List ℕ)) (window : TextWindow) (buffer : ScreenBuffer) (cur_pos : ℕ)
    (pen : Pen)
    → All IsChar cs
    → HasDrawn buffer pen
    → Returns (HasDrawn buffer) (wrap_loop window rounds cur_pos (encode cs) pen)
unfolding Returns wrap_loop
wrap_loop-HasDrawn zero cs window buffer cur_pos pen valid h = (pen, refl, h)
wrap_loop-HasDrawn (suc rounds) [] window buffer cur_pos pen valid h =
    let (reads, decodes, ends) = empty_text in
    wrap_loop-round window buffer rounds cur_pos 0 [] pen (some (1, 0)) reads decodes h
      (λ pen' h'. wrap_loop-HasDrawn rounds [] window buffer (suc cur_pos) pen' tt h')
      (λ pen' h' more. absurd (grind (arith, ends, more)))
wrap_loop-HasDrawn (suc rounds) ([] ∷ cs) window buffer cur_pos pen (valid, valids) h =
    unfold is_char in absurd (ground arith)
wrap_loop-HasDrawn (suc rounds) ((b ∷ r) ∷ cs) window buffer cur_pos pen (valid, valids) h =
    let s = b ∷ (r ++ encode cs) in
    let (decoded, decodes) = utf8_decode-IsChar b r (encode cs) valid in
    let size : utf8_char_length b ≡ suc (length r) = (char_parts b r valid).2 in
    let step : advance (utf8_char_length b) s ≡ ok (encode cs) =
      rw size (advance-append (b ∷ r) (encode cs)) in
    wrap_loop-round window buffer rounds cur_pos b s pen decoded (first_byte b (r ++ encode cs))
      decodes h
      (λ pen' h'.
        wrap_loop-HasDrawn rounds ((b ∷ r) ∷ cs) window buffer (suc cur_pos) pen' (valid, valids)
          h')
      (λ pen' h' more.
        rw (step, ◌>>=◌) (wrap_loop-HasDrawn rounds cs window buffer (suc cur_pos) pen' valids h'))

-- Whatever the window, its place, its size and its first row, display_wrapped draws a well-formed
-- text without reaching for a cell that is not there or for a byte behind the end of the text, and
-- the buffer keeps its size.
pub display_wrapped-IsDrawn :
    (cs : List (List ℕ)) (window : TextWindow) (buffer : ScreenBuffer)
    → All IsChar cs
    → IsScreen buffer
    → (buffer' : ScreenBuffer) × (display_wrapped (encode cs) window buffer ≡ ok buffer')
      × IsDrawn buffer buffer'
unfolding display_wrapped fill_last Returns
display_wrapped-IsDrawn cs window buffer valid is =
    rw (display_wrapped, utf8_strlen-encode cs valid, ◌>>=◌)
      (bind-Returns (HasDrawn buffer) (IsDrawn buffer) _ _
        (wrap_loop-HasDrawn (suc (length cs)) cs window buffer 0
          (inc_rel_row window (first_pen buffer)) valid
          (inc_rel_row-HasDrawn window buffer (first_pen buffer)
            (record { rows = refl; cols = refl; screen = is })))
        (λ pen h.
          bind-Returns (HasDrawn buffer) (IsDrawn buffer) _ _
            (if-Returns (HasDrawn buffer) (pen.rel_col == 0) _ _ (λ start. (pen, refl, h))
              (λ inside. fullfiller-HasDrawn window buffer pen h))
            (λ pen' h'. (pen'.back_buffer, refl, h'))))
