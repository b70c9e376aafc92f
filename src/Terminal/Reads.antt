-- ===== src/Terminal/Reads.antt =====
-- term/kbd.c: what one call reads.
use vjft.Prelude.{ℕ, zero, suc, ◌≡◌, refl, List, [], ◌∷◌, ◌++◌, Bool, false, ◌==◌, pos}
use vjft.Prelude.{append_assoc, append-nil, length, arith, map}
use vjft.Terminal.{expected_len, is_utf8_complete, ends, ReadResult, byte, read_loop}
use vjft.Terminal.{read_utf8_char_or_esc_seq}

-- Into a buffer of five bytes at least, a character whose first byte announces its length, and is
-- not ESC, is read to its end and no further.
pub read_utf8_char_or_esc_seq-char :
    (room : ℕ) (more : Bool) (b : ℕ) (r : List ℕ) (input : List ReadResult)
    → (b == 0x1B) ≡ false
    → expected_len b ≡ suc (length r)
    → read_utf8_char_or_esc_seq (suc (suc (suc (suc (suc room))))) more (map byte (b ∷ r) ++ input)
      ≡ (pos (suc (length r)), b ∷ r, input)
unfolding read_utf8_char_or_esc_seq read_loop ends is_utf8_complete
read_utf8_char_or_esc_seq-char room more b [] input text size = rw (text, size) refl
read_utf8_char_or_esc_seq-char room more b (c ∷ []) input text size = rw (text, size) refl
read_utf8_char_or_esc_seq-char room more b (c ∷ (d ∷ [])) input text size = rw (text, size) refl
read_utf8_char_or_esc_seq-char room more b (c ∷ (d ∷ (e ∷ []))) input text size =
    rw (text, size) refl
read_utf8_char_or_esc_seq-char room more b (c ∷ (d ∷ (e ∷ (f ∷ r)))) input text size =
    unfold expected_len in absurd (ground (arith, size))

zero_suc : (n : ℕ) → (0 == suc n) ≡ false
zero_suc n = ground arith

read_loop_stray :
    (rounds : ℕ) (more : Bool) (b : ℕ) (buf bytes : List ℕ) (input : List ReadResult)
    → (b == 0x1B) ≡ false
    → expected_len b ≡ 0
    → length bytes ≡ rounds
    → read_loop rounds more (b ∷ buf) (map byte bytes ++ input)
      ≡ (pos (suc (length (buf ++ bytes))), b ∷ (buf ++ bytes), input)
unfolding read_loop ends is_utf8_complete
read_loop_stray zero more b buf [] input text size full = rw (append-nil buf) refl
read_loop_stray zero more b buf (c ∷ bytes) input text size full = absurd (omega arith)
read_loop_stray (suc rounds) more b buf [] input text size full = absurd (omega arith)
read_loop_stray (suc rounds) more b buf (c ∷ bytes) input text size full =
    rw (text, size, zero_suc (length (buf ++ (c ∷ []))), ← append_assoc buf (c ∷ []) bytes)
      (read_loop_stray rounds more b (buf ++ (c ∷ [])) bytes input text size (omega arith))

-- A first byte that announces no length, and is not ESC, makes the call read on, whatever bytes
-- come, until the buffer is full, if as many bytes come.
pub read_utf8_char_or_esc_seq-stray :
    (room : ℕ) (more : Bool) (b : ℕ) (bytes : List ℕ) (input : List ReadResult)
    → (b == 0x1B) ≡ false
    → expected_len b ≡ 0
    → length bytes ≡ room
    → read_utf8_char_or_esc_seq (suc (suc room)) more (map byte (b ∷ bytes) ++ input)
      ≡ (pos (suc (length bytes)), b ∷ bytes, input)
unfolding read_utf8_char_or_esc_seq read_loop ends is_utf8_complete
read_utf8_char_or_esc_seq-stray room more b bytes input text size full =
    rw (text, size) (read_loop_stray room more b [] bytes input text size full)
