-- ===== src/Prelude/Text.antt =====
-- Literal text, and numbers as `printf` writes them.
use Prim.Native.Char.{code}
use Prim.Native.String.{String}
use Prim.Native.Nat.{ℕ, zero, suc, ◌+◌, ◌/◌, ◌%◌}
use mathlib.Core.List.{List, [], ◌∷◌}
use vjft.Prelude.Tests.{◌==◌, if◌then◌else◌}

-- The bytes of an ASCII text.
abbrev pub codes : String → List ℕ
codes String.[] = []
codes (String.◌∷◌ c s) = code c ∷ codes s

-- The decimal digits of a number below 10 ^ `rounds`.
unfoldable pub decimal_loop : ℕ → ℕ → List ℕ → List ℕ
decimal_loop zero n written = written
decimal_loop (suc rounds) n written =
    let digits = (b'0' + n % 10) ∷ written in
    let more = decimal_loop rounds (n / 10) digits in if n / 10 == 0 then digits else more

-- `%d` of an `int` that is not negative, or of a counter
unfoldable pub decimal : ℕ → List ℕ
unfolding decimal_loop
decimal n = decimal_loop 10 n []
