-- ===== src/Utf8.antt =====
-- term/utf8.c: characters in UTF-8 byte strings. A C string is the list of its bytes without the
-- terminating zero; `byte_at` reads the zero behind the last byte, and no further.
pub mod Chars
pub mod Walk
use vjft.Prelude.{ℕ, zero, suc, ◌+◌, ◌-◌, ◌*◌, ◌%◌, bit_and, bit_or, ◌≡◌, refl, Bool, true, false}
use vjft.Prelude.{◌&&◌, ◌||◌, List, [], ◌∷◌, ltb, leb, ◌==◌, if◌then◌else◌, length}
use vjft.Prelude.{ℤ, pos, negsuc, Run, ok, fault, ◌>>=◌, Option, none, some}

-- `str[i]`
unfoldable pub byte_at : List ℕ → ℕ → Run ℕ
byte_at [] zero = ok 0
byte_at [] (suc i) = fault
byte_at (b ∷ s) zero = ok b
byte_at (b ∷ s) (suc i) = byte_at s i

-- `utf8_char_length`, of the byte behind its pointer
unfoldable pub utf8_char_length : ℕ → ℕ
utf8_char_length byte =
    if leb byte 0x7F
    then 1
    else if bit_and byte 0xE0 == 0xC0
    then 2
    else if bit_and byte 0xF0 == 0xE0
    then 3
    else if bit_and byte 0xF8 == 0xF0
    then 4
    else 1

-- The loop of `utf8_strlen`: `skip` bytes lie between the head of the list and the pointer `str`.
unfoldable pub utf8_strlen_from : ℕ → List ℕ → Run ℕ
utf8_strlen_from zero [] = ok 0
utf8_strlen_from (suc skip) [] = fault
utf8_strlen_from zero (b ∷ s) = utf8_strlen_from (utf8_char_length b - 1) s >>= λ n. ok (suc n)
utf8_strlen_from (suc skip) (b ∷ s) = utf8_strlen_from skip s

unfoldable pub utf8_strlen : List ℕ → Run ℕ
utf8_strlen str = utf8_strlen_from 0 str

unfoldable pub utf8_next_char : List ℕ → ℕ → Run ℕ
utf8_next_char str p = byte_at str p >>= λ b. ok (if b == 0 then p else p + utf8_char_length b)

-- `(b & 0xC0) == 0x80`
unfoldable pub is_continuation : ℕ → Bool
is_continuation b = bit_and b 0xC0 == 0x80

-- The `do` loop of `utf8_prev_char`, entered at `p + 1`.
unfoldable pub prev_from : List ℕ → ℕ → Run ℕ
prev_from str zero = ok 0
prev_from str (suc p) =
    let rest = prev_from str p in
    byte_at str (suc p) >>= λ b. if is_continuation b then rest else ok (suc p)

unfoldable pub utf8_prev_char : List ℕ → ℕ → Run ℕ
utf8_prev_char str zero = ok 0
utf8_prev_char str (suc p) = prev_from str p

-- The loop of `utf8_byte_offset`, with the rounds that `i < cursor_pos` leaves.
unfoldable pub byte_offset_loop : List ℕ → ℕ → ℕ → Run ℕ
byte_offset_loop str zero byte_offset = ok byte_offset
byte_offset_loop str (suc rounds) byte_offset = byte_at str byte_offset >>= λ b. elim (b == 0) [
  | true ↦ ok byte_offset
  | false ↦ byte_offset_loop str rounds (byte_offset + utf8_char_length b)
]

unfoldable pub utf8_byte_offset : List ℕ → ℤ → Run ℕ
utf8_byte_offset str (pos n) = byte_offset_loop str n 0
utf8_byte_offset str (negsuc n) = ok 0

-- The loop of `utf8_char_index`. A round moves on by a byte at least, so `fuel` rounds reach the
-- target where `byte_offset ≤ current_offset + fuel`.
unfoldable pub char_index_loop : ℕ → List ℕ → ℕ → ℕ → ℕ → Run ℕ
char_index_loop zero str byte_offset current_offset char_index = ok char_index
char_index_loop (suc fuel) str byte_offset current_offset char_index =
    elim (ltb current_offset byte_offset) [
      | false ↦ ok char_index
      | true ↦ byte_at str current_offset >>= λ b. elim (b == 0) [
        | true ↦ ok char_index
        | false ↦
            char_index_loop fuel str byte_offset (current_offset + utf8_char_length b)
              (char_index + 1)
      ]
    ]

unfoldable pub utf8_char_index : List ℕ → ℕ → Run ℕ
utf8_char_index str byte_offset = char_index_loop byte_offset str byte_offset 0 0
