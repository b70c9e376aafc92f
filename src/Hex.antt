-- ===== src/Hex.antt =====
-- term/event.c, `int_to_hex` and `hex_to_int`: cursor positions kept as hexadecimal text in the
-- actions of the undo stack. An `int` and an `unsigned int` have 32 bits.
pub mod RoundTrip
use vjft.Prelude.{ℕ, zero, suc, ◌+◌, ◌-◌, ◌*◌, ◌/◌, ◌%◌, ◌^◌, Bool, true, false, ◌&&◌}
use vjft.Prelude.{List, [], ◌∷◌, ltb, leb, ◌==◌, if◌then◌else◌, ℤ, pos, negsuc, Option, none, some}

-- `(unsigned int)value`
unfoldable pub to_unsigned : ℤ → ℕ
to_unsigned (pos n) = n % 2 ^ 32
to_unsigned (negsuc n) = 2 ^ 32 - 1 - n % 2 ^ 32

-- The `int` with these 32 bits.
unfoldable pub to_int : ℕ → ℤ
to_int r = if ltb r (2 ^ 31) then pos r else negsuc (2 ^ 32 - 1 - r)

unfoldable pub hex_digit : ℕ → ℕ
hex_digit digit = if ltb digit 10 then b'0' + digit else b'A' + digit - 10

-- The `do` loop, which writes leftwards from the end of a buffer of eight digits and a zero;
-- `rounds` are the digits for which the buffer has room.
unfoldable pub hex_loop : ℕ → ℕ → List ℕ → List ℕ
hex_loop zero num written = written
hex_loop (suc rounds) num written =
    let digits = hex_digit (num % 16) ∷ written in
    let more = hex_loop rounds (num / 16) digits in if num / 16 == 0 then digits else more

unfoldable pub int_to_hex : ℤ → List ℕ
int_to_hex value = hex_loop 8 (to_unsigned value) []

-- The value of a digit; `none` is the branch for an invalid character.
unfoldable pub digit_value : ℕ → Option ℕ
digit_value c =
    if leb b'0' c && leb c b'9'
    then some (c - b'0')
    else if leb b'a' c && leb c b'f'
    then some (c - b'a' + 10)
    else if leb b'A' c && leb c b'F'
    then some (c - b'A' + 10)
    else none

-- The loop over the text, on the bits of `result`; `<<=` drops what leaves the 32 bits.
unfoldable pub hex_to_int_loop : List ℕ → ℕ → ℕ
hex_to_int_loop [] result = result
hex_to_int_loop (c ∷ p) result = elim (digit_value c) [
  | none ↦ 0
  | some d ↦ hex_to_int_loop p ((result * 16 % 2 ^ 32 + d) % 2 ^ 32)
]

unfoldable pub hex_to_int : Option (List ℕ) → ℤ
hex_to_int none = pos 0
hex_to_int (some hex) = to_int (hex_to_int_loop hex 0)
