-- ===== src/Utf8/Walk.antt =====
-- The walks of term/utf8.c over well-formed text: byte positions and character indexes agree.
use vjft.Prelude.{ℕ, zero, suc, ◌+◌, ◌-◌, ◌≤◌, ◌<◌, ◌≡◌, refl, ap, ◌∙◌}
use vjft.Prelude.{List, [], ◌∷◌, ◌++◌, append_assoc, length, length-append, take}
use vjft.Prelude.{All, arith, ok, pos}
use vjft.Utf8.{byte_at, utf8_char_length, utf8_strlen_from, utf8_strlen}
use vjft.Utf8.{utf8_next_char, prev_from, utf8_prev_char, byte_offset_loop, utf8_byte_offset}
use vjft.Utf8.{char_index_loop, utf8_char_index}
use vjft.Utf8.Chars.{is_char, IsChar, encode, char_parts, byte_at-append_here}
use vjft.Utf8.Chars.{byte_at-append, byte_at_continuation, offset, IsCharAt, char_at, le-offset}
use native.Mathlib.Nat.{add-suc}

utf8_strlen_from-skip : (r s : List ℕ) → utf8_strlen_from (length r) (r ++ s) ≡ utf8_strlen_from 0 s
unfolding utf8_strlen_from
utf8_strlen_from-skip [] s = refl
utf8_strlen_from-skip (b ∷ r) s = utf8_strlen_from-skip r s

lead_skip : (b : ℕ) (r : List ℕ) → IsChar (b ∷ r) → utf8_char_length b - 1 ≡ length r
lead_skip b r h = omega (arith, char_parts b r h)

utf8_strlen_from-encode :
    (cs : List (List ℕ)) → All IsChar cs → utf8_strlen_from 0 (encode cs) ≡ ok (length cs)
unfolding utf8_strlen_from is_char
utf8_strlen_from-encode [] h = refl
utf8_strlen_from-encode ([] ∷ cs) (h, hs) = cc
utf8_strlen_from-encode ((b ∷ r) ∷ cs) (h, hs) =
    rw (lead_skip b r h, utf8_strlen_from-skip r (encode cs), utf8_strlen_from-encode cs hs) refl

-- On well-formed text utf8_strlen returns the number of characters and reads within the string.
pub utf8_strlen-encode :
    (cs : List (List ℕ)) → All IsChar cs → utf8_strlen (encode cs) ≡ ok (length cs)
unfolding utf8_strlen
utf8_strlen-encode cs h = utf8_strlen_from-encode cs h

byte_at_end : (pre : List ℕ) → byte_at (pre ++ []) (length pre) ≡ ok 0
unfolding byte_at
byte_at_end pre = byte_at-append_here pre []

byte_at_lead : (pre : List ℕ) (b : ℕ) (r : List ℕ) → byte_at (pre ++ (b ∷ r)) (length pre) ≡ ok b
unfolding byte_at
byte_at_lead pre b r = byte_at-append_here pre (b ∷ r)

byte_offset_loop-encode :
    (n : ℕ) (str pre : List ℕ) (p : ℕ) (cs : List (List ℕ))
    → All IsChar cs
    → str ≡ pre ++ encode cs
    → p ≡ length pre
    → byte_offset_loop str n p ≡ ok (p + length (encode (take n cs)))
unfolding byte_offset_loop is_char
byte_offset_loop-encode zero str pre p cs h e q = ground arith
byte_offset_loop-encode (suc n) str pre p [] h e q =
    let here : byte_at str p ≡ ok 0 = rw (e, q) (byte_at_end pre) in ground (arith, here)
byte_offset_loop-encode (suc n) str pre p ([] ∷ cs) (h, hs) e q = cc
byte_offset_loop-encode (suc n) str pre p ((b ∷ r) ∷ cs) (h, hs) e q =
    let here : byte_at str p ≡ ok b = rw (e, q) (byte_at_lead pre b (r ++ encode cs)) in
    ground (
      arith,
      here,
      char_parts b r h,
      length-append {0} pre (b ∷ r),
      length-append {0} r (encode (take n cs)),
      append_assoc pre (b ∷ r) (encode cs),
      byte_offset_loop-encode n str (pre ++ (b ∷ r)) (p + utf8_char_length b) cs hs,
    )

-- On well-formed text utf8_byte_offset returns the size in bytes of the first n characters, or of
-- the whole text if it has fewer.
pub utf8_byte_offset-encode :
    (n : ℕ) (cs : List (List ℕ))
    → All IsChar cs
    → utf8_byte_offset (encode cs) (pos n) ≡ ok (length (encode (take n cs)))
unfolding utf8_byte_offset
utf8_byte_offset-encode n cs h =
    byte_offset_loop-encode n (encode cs) [] 0 cs h refl refl ∙ ap ok (omega arith)

char_index_loop-encode :
    (fuel : ℕ) (k : ℕ) (str pre : List ℕ) (p i target : ℕ) (cs : List (List ℕ))
    → All IsChar cs
    → str ≡ pre ++ encode cs
    → p ≡ length pre
    → k ≤ length cs
    → target ≡ p + length (encode (take k cs))
    → k ≤ fuel
    → char_index_loop fuel str target p i ≡ ok (i + k)
unfolding char_index_loop is_char
char_index_loop-encode zero k str pre p i target cs h e q hk t f = ground arith
char_index_loop-encode (suc fuel) zero str pre p i target cs h e q hk t f = ground arith
char_index_loop-encode (suc fuel) (suc k) str pre p i target [] h e q hk t f = absurd (omega arith)
char_index_loop-encode (suc fuel) (suc k) str pre p i target ([] ∷ cs) (h, hs) e q hk t f = cc
char_index_loop-encode (suc fuel) (suc k) str pre p i target ((b ∷ r) ∷ cs) (h, hs) e q hk t f =
    let here : byte_at str p ≡ ok b = rw (e, q) (byte_at_lead pre b (r ++ encode cs)) in
    ground (
      arith,
      here,
      char_parts b r h,
      length-append {0} pre (b ∷ r),
      length-append {0} r (encode (take k cs)),
      append_assoc pre (b ∷ r) (encode cs),
      char_index_loop-encode fuel k str (pre ++ (b ∷ r)) (p + utf8_char_length b) (i + 1) target cs
          hs,
    )

-- On well-formed text utf8_char_index of the position of the character k, up to the end, is k.
pub utf8_char_index-encode :
    (k : ℕ) (cs : List (List ℕ))
    → All IsChar cs
    → k ≤ length cs
    → utf8_char_index (encode cs) (offset k cs) ≡ ok k
unfolding utf8_char_index
utf8_char_index-encode k cs h le =
    char_index_loop-encode (offset k cs) k (encode cs) [] 0 0 (offset k cs) cs h refl refl le
      (omega arith) (le-offset k cs h le)
    ∙ ap ok (omega arith)

-- The byte at the position of a character is its lead byte.
pub byte_at-offset :
    (k : ℕ) (cs : List (List ℕ)) (b : ℕ) (r : List ℕ)
    → IsCharAt k cs b r
    → byte_at (encode cs) (offset k cs) ≡ ok b
byte_at-offset k cs b r at = rw at.bytes (byte_at_lead (encode (take k cs)) b _)

-- `utf8_next_char` steps from a character to the next.
pub utf8_next_char-encode :
    (k : ℕ) (cs : List (List ℕ))
    → All IsChar cs
    → k < length cs
    → utf8_next_char (encode cs) (offset k cs) ≡ ok (offset (suc k) cs)
unfolding utf8_next_char
utf8_next_char-encode k cs h lt =
    let (b, r, at) = char_at k cs h lt in
    ground (arith, byte_at-offset k cs b r at, char_parts b r at.is_char_here, at.ends)

prev_from-lead :
    (j : ℕ) (str pre : List ℕ) (b : ℕ) (r post : List ℕ) (p : ℕ)
    → IsChar (b ∷ r)
    → str ≡ pre ++ (b ∷ (r ++ post))
    → p ≡ length pre + j
    → j ≤ length r
    → prev_from str p ≡ ok (length pre)
unfolding prev_from byte_at
prev_from-lead zero str pre b r post zero h e q le = ap ok (omega arith)
prev_from-lead zero str pre b r post (suc p) h e q le =
    let at_lead : suc p ≡ length pre = omega arith in
    let here : byte_at str (suc p) ≡ ok b = rw (e, at_lead) (byte_at_lead pre b (r ++ post)) in
    ground (arith, here, char_parts b r h)
prev_from-lead (suc j) str pre b r post zero h e q le = absurd (omega arith)
prev_from-lead (suc j) str pre b r post (suc p) h e q le =
    let (x, found, is_cont) = byte_at_continuation r post j (char_parts b r h).3 (omega arith) in
    let here : byte_at str (suc p) ≡ ok x = rw (e, q) (byte_at-append pre _ (suc j) ∙ found) in
    ground
      (arith, here, is_cont, prev_from-lead j str pre b r post p h e (omega arith) (omega arith))

-- On well-formed text utf8_prev_char steps from the end of a character back to its start.
pub utf8_prev_char-encode :
    (k : ℕ) (cs : List (List ℕ))
    → All IsChar cs
    → k < length cs
    → utf8_prev_char (encode cs) (offset (suc k) cs) ≡ ok (offset k cs)
unfolding utf8_prev_char
utf8_prev_char-encode k cs h lt =
    let (b, r, at) = char_at k cs h lt in
    rw (at.ends, add-suc)
      (prev_from-lead (length r) (encode cs) (encode (take k cs)) b r _ _ at.is_char_here at.bytes
        refl (omega arith))
