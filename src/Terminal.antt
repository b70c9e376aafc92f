-- ===== src/Terminal.antt =====
-- term/kbd.c, with `is_utf8_complete` of term/utf8.c: the bytes of one key. `read` gives its results
-- in turn; `select` is called once at most, and its result is an argument.
pub mod Reads
use vjft.Prelude.{
  ℕ, zero, suc, List, [], ◌∷◌, ◌++◌, Bool, true, false, not, ◌&&◌, ◌||◌, bit_and, leb,
}
use vjft.Prelude.{◌==◌, if◌then◌else◌, ℤ, pos, negsuc, length}

-- `expected_len` in `is_utf8_complete`
unfoldable pub expected_len : ℕ → ℕ
expected_len c =
    if bit_and c 0x80 == 0
    then 1
    else if bit_and c 0xE0 == 0xC0
    then 2
    else if bit_and c 0xF0 == 0xE0
    then 3
    else if bit_and c 0xF8 == 0xF0
    then 4
    else 0

unfoldable pub is_utf8_complete : List ℕ → Bool
is_utf8_complete [] = false
is_utf8_complete (c ∷ buffer) = expected_len c == length (c ∷ buffer)

-- `isalpha` of the C locale
unfoldable pub isalpha : ℕ → Bool
isalpha c = (leb 0x41 c && leb c 0x5A) || (leb 0x61 c && leb c 0x7A)

unfoldable pub ends_sequence : List ℕ → Bool
unfolding isalpha
ends_sequence [] = false
ends_sequence (c ∷ []) = isalpha c || c == 0x7E
ends_sequence (c ∷ (d ∷ s)) = ends_sequence (d ∷ s)

-- `[` or `O`: the start of CSI and SS3
unfoldable pub opens_sequence : ℕ → Bool
opens_sequence c = c == 0x5B || c == 0x4F

-- Whether the loop ends on what was read behind an ESC; `more` is that `select` did not time out.
unfoldable pub ends_after_esc : Bool → List ℕ → Bool
unfolding ends_sequence opens_sequence
ends_after_esc more [] = not more
ends_after_esc more (c ∷ []) = not (opens_sequence c || (c == 0xD0 || c == 0xD1))
ends_after_esc more (c ∷ (d ∷ s)) = if opens_sequence c then ends_sequence (d ∷ s) else true

unfoldable pub ends : Bool → List ℕ → Bool
unfolding ends_after_esc is_utf8_complete
ends more [] = false
ends more (c ∷ s) = if c == 0x1B then ends_after_esc more s else is_utf8_complete (c ∷ s)

-- A result of `read` of one byte.
pub data ReadResult : Type 0 where
  byte : ℕ → ReadResult
  no_data failed : ReadResult

-- The loop, with the rounds that `len < buf_size - 1` leaves: the result, the buffer, and the reads
-- that are left. Where none are left there is no data.
unfoldable pub read_loop : ℕ → Bool → List ℕ → List ReadResult → ℤ × List ℕ × List ReadResult
unfolding ends
read_loop zero more buf input = (pos (length buf), buf, input)
read_loop (suc rounds) more buf [] = (pos 0, buf, [])
read_loop (suc rounds) more buf (no_data ∷ input) = (pos 0, buf, input)
read_loop (suc rounds) more buf (failed ∷ input) = (negsuc 0, buf, input)
read_loop (suc rounds) more buf (byte c ∷ input) =
    let rest = read_loop rounds more (buf ++ (c ∷ [])) input in
    if ends more (buf ++ (c ∷ []))
    then (pos (length (buf ++ (c ∷ []))), buf ++ (c ∷ []), input)
    else rest

unfoldable pub read_utf8_char_or_esc_seq : ℕ → Bool → List ReadResult → ℤ × List ℕ × List ReadResult
unfolding read_loop
read_utf8_char_or_esc_seq zero more input = (pos 0, [], input)
read_utf8_char_or_esc_seq (suc room) more input = read_loop room more [] input
