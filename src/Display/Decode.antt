-- ===== src/Display/Decode.antt =====
-- term/utf8.c: `utf8_decode` of a character reads within the text.
use vjft.Prelude.{ℕ, suc, ◌≡◌, refl, List, [], ◌∷◌, ◌++◌, Bool, true, false, Run, ok, exit, fault}
use vjft.Prelude.{Option, length, arith}
use vjft.Utf8.{byte_at, utf8_char_length}
use vjft.Utf8.Chars.{IsChar, char_parts}
use vjft.Display.{utf8_decode, advance}

unfoldable is_ok {ℓ} : {A : Type ℓ} → Run A → Bool
is_ok (ok a) = true
is_ok exit = false
is_ok fault = false

is_ok-value {ℓ} : {A : Type ℓ} (r : Run A) → is_ok r ≡ true → (a : A) × (r ≡ ok a)
unfolding is_ok
is_ok-value (ok a) h = (a, refl)
is_ok-value exit h = absurd (cc)
is_ok-value fault h = absurd (cc)

decode_reads :
    (b : ℕ) (r post : List ℕ)
    → utf8_char_length b ≡ suc (length r)
    → is_ok (utf8_decode (b ∷ (r ++ post)) (utf8_char_length b)) ≡ true
unfolding is_ok utf8_decode byte_at
decode_reads b [] post size = rw size (ground arith)
decode_reads b (c ∷ []) post size = rw size (ground arith)
decode_reads b (c ∷ (d ∷ [])) post size = rw size (ground arith)
decode_reads b (c ∷ (d ∷ (e ∷ r))) post size = rw size (ground arith)

pub utf8_decode-IsChar :
    (b : ℕ) (r post : List ℕ)
    → IsChar (b ∷ r)
    → (decoded : Option (ℕ × ℕ)) × (utf8_decode (b ∷ (r ++ post)) (utf8_char_length b) ≡ ok decoded)
utf8_decode-IsChar b r post h = is_ok-value _ (decode_reads b r post (char_parts b r h).2)

pub advance-append : (xs ys : List ℕ) → advance (length xs) (xs ++ ys) ≡ ok ys
unfolding advance
advance-append [] ys = refl
advance-append (x ∷ xs) ys = advance-append xs ys
