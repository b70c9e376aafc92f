-- ===== src/Hex/RoundTrip.antt =====
-- The hexadecimal text of an `int` reads back, and fits the buffer of `int_to_hex`.
use vjft.Prelude.{ℕ, zero, suc, ◌+◌, ◌*◌, ◌/◌, ◌%◌, ◌^◌, ◌<◌, ◌≡◌, ap, ◌∙◌}
use vjft.Prelude.{List, [], ◌∷◌, ℤ, pos, negsuc, some, arith}
use vjft.Hex.{to_unsigned, to_int, hex_digit, hex_loop, int_to_hex, digit_value, hex_to_int_loop}
use vjft.Hex.{hex_to_int}
use native.Mathlib.Nat.{pow-suc}

digit_value-hex_digit : (d : ℕ) → d < 16 → digit_value (hex_digit d) ≡ some d
unfolding digit_value hex_digit
digit_value-hex_digit d h = ground arith

read_digit :
    (d : ℕ) (p : List ℕ) (r : ℕ)
    → d < 16
    → hex_to_int_loop (hex_digit d ∷ p) r ≡ hex_to_int_loop p ((r * 16 % 2 ^ 32 + d) % 2 ^ 32)
unfolding hex_to_int_loop
read_digit d p r h = ground (arith, digit_value-hex_digit d)

read-hex_loop :
    (rounds num : ℕ) (written : List ℕ)
    → num < 16 ^ suc rounds
    → num < 2 ^ 32
    → hex_to_int_loop (hex_loop (suc rounds) num written) 0 ≡ hex_to_int_loop written num
unfolding hex_loop
read-hex_loop zero num written h fits = ground (arith, read_digit (num % 16) written 0)
read-hex_loop (suc rounds) num written h fits = ground (
  arith,
  pow-suc 16 (suc rounds),
  read_digit (num % 16) written 0,
  read_digit (num % 16) written (num / 16),
  read-hex_loop rounds (num / 16) (hex_digit (num % 16) ∷ written),
)

abbrev pub IsInt : ℤ → Type 0
IsInt (pos n) = n < 2 ^ 31
IsInt (negsuc n) = n < 2 ^ 31

to_unsigned-lt : (v : ℤ) → to_unsigned v < 2 ^ 32
unfolding to_unsigned
to_unsigned-lt (pos n) = omega arith
to_unsigned-lt (negsuc n) = omega arith

to_int-to_unsigned : (v : ℤ) → IsInt v → to_int (to_unsigned v) ≡ v
unfolding to_int to_unsigned
to_int-to_unsigned (pos n) h = ground arith
to_int-to_unsigned (negsuc n) h = ground arith

-- hex_to_int reads back every 32-bit int that int_to_hex writes, the negative ones included.
pub hex_to_int-int_to_hex : (v : ℤ) → IsInt v → hex_to_int (some (int_to_hex v)) ≡ v
unfolding hex_to_int int_to_hex hex_to_int_loop
hex_to_int-int_to_hex v h =
    ap to_int (read-hex_loop 7 (to_unsigned v) [] (to_unsigned-lt v) (to_unsigned-lt v))
    ∙ to_int-to_unsigned v h
