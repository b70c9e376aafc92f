-- ===== src/Utf8/Chars.antt =====
-- The specification of UTF-8 text that term/utf8.c walks: a text is a list of characters, a
-- character the list of its bytes.
use vjft.Prelude.{ℕ, zero, suc, ◌+◌, ◌-◌, ◌≤◌, ◌<◌, ◌≡◌, refl, ap, ◌∙◌, sym, Bool, true, false, not}
use vjft.Prelude.{◌&&◌, List, [], ◌∷◌, ◌++◌, append_assoc, ◌==◌, length, length-append, take, drop}
use vjft.Prelude.{All, arith, ok, take-append-drop, ◌≢◌, some, get_elem?, append-nil}
use vjft.Prelude.{length-take, All-take, take-append_length, drop-append_length, take-add}
use native.Mathlib.Nat.{zero-add, suc-add, add-zero}
use vjft.Utf8.{byte_at, utf8_char_length, is_continuation}

unfoldable pub all_continuation : List ℕ → Bool
all_continuation [] = true
all_continuation (b ∷ r) = is_continuation b && all_continuation r

-- A lead byte and as many continuation bytes as it announces. Like the code, this takes a byte that
-- is no lead of UTF-8 for a character of its own, unless it is a continuation byte or zero.
unfoldable pub is_char : List ℕ → Bool
is_char [] = false
is_char (b ∷ r) =
    not (b == 0)
    && (not (is_continuation b) && (utf8_char_length b == length r + 1 && all_continuation r))

abbrev pub IsChar : List ℕ → Type 0
IsChar c = is_char c ≡ true

-- The bytes of a text.
abbrev pub encode : List (List ℕ) → List ℕ
encode [] = []
encode (c ∷ cs) = c ++ encode cs

pub encode-append : (cs ds : List (List ℕ)) → encode (cs ++ ds) ≡ encode cs ++ encode ds
encode-append [] ds = refl
encode-append (c ∷ cs) ds =
    ap (c ++◌) (encode-append cs ds) ∙ sym (append_assoc c (encode cs) (encode ds))

-- The bytes before and behind the character of index `k`.
pub encode_split :
    (k : ℕ) (cs : List (List ℕ)) → encode (take k cs) ++ encode (drop k cs) ≡ encode cs
encode_split k cs = sym (encode-append (take k cs) (drop k cs)) ∙ ap encode (take-append-drop k cs)

-- What `is_char` tells of a lead byte and of the bytes behind it.
pub char_parts :
    (b : ℕ) (r : List ℕ)
    → IsChar (b ∷ r)
    → (b ≢ 0)
      × (is_continuation b ≡ false)
      × (utf8_char_length b ≡ suc (length r))
      × (all_continuation r ≡ true)
unfolding is_char
char_parts b r h = ground arith

pub byte_at-append : (xs ys : List ℕ) (i : ℕ) → byte_at (xs ++ ys) (length xs + i) ≡ byte_at ys i
unfolding byte_at
byte_at-append [] ys i = rw (zero-add i)
byte_at-append (x ∷ xs) ys i = rw (suc-add (length xs) i) (byte_at-append xs ys i)

pub byte_at-append_here : (xs ys : List ℕ) → byte_at (xs ++ ys) (length xs) ≡ byte_at ys 0
byte_at-append_here xs ys = rw add-zero at (byte_at-append xs ys 0)

pub byte_at_continuation :
    (r post : List ℕ) (j : ℕ)
    → all_continuation r ≡ true
    → j < length r
    → (b : ℕ) × (byte_at (r ++ post) j ≡ ok b) × (is_continuation b ≡ true)
unfolding byte_at all_continuation
byte_at_continuation [] post j h lt = absurd (omega arith)
byte_at_continuation (b ∷ r) post zero h lt = (b, refl, ground arith)
byte_at_continuation (b ∷ r) post (suc j) h lt =
    byte_at_continuation r post j (ground arith) (omega arith)

-- Every character has a byte.
pub length-le-length-encode : (cs : List (List ℕ)) → All IsChar cs → length cs ≤ length (encode cs)
length-le-length-encode [] h = omega arith
length-le-length-encode ([] ∷ cs) (h, hs) = unfold is_char in absurd (ground arith)
length-le-length-encode ((b ∷ c) ∷ cs) (h, hs) =
    omega (arith, length-append {0} c (encode cs), length-le-length-encode cs hs)

-- Where the character of index `k` starts.
abbrev pub offset : ℕ → List (List ℕ) → ℕ
offset k cs = length (encode (take k cs))

-- The character of index `k` in the bytes of the text.
pub record IsCharAt (k : ℕ) (cs : List (List ℕ)) (b : ℕ) (r : List ℕ) : Type 0 where
  pub is_char_here : IsChar (b ∷ r)
  pub found : get_elem? cs k ≡ some (b ∷ r)
  pub bytes : encode cs ≡ encode (take k cs) ++ (b ∷ (r ++ encode (drop (suc k) cs)))
  pub ends : offset (suc k) cs ≡ offset k cs + suc (length r)
  pub follows : drop k cs ≡ (b ∷ r) ∷ drop (suc k) cs

IsCharAt-suc :
    (k : ℕ) (c : List ℕ) (cs : List (List ℕ)) (b : ℕ) (r : List ℕ)
    → IsCharAt k cs b r
    → IsCharAt (suc k) (c ∷ cs) b r
IsCharAt-suc k c cs b r h = record {
  is_char_here = h.is_char_here;
  found = h.found;
  bytes = ap (c ++◌) h.bytes ∙ sym (append_assoc c _ _);
  ends = omega (
    arith,
    h.ends,
    length-append {0} c (encode (take (suc k) cs)),
    length-append {0} c (encode (take k cs)),
  );
  follows = h.follows;
}

pub char_at :
    (k : ℕ) (cs : List (List ℕ))
    → All IsChar cs
    → k < length cs
    → (b : ℕ) × (r : List ℕ) × IsCharAt k cs b r
char_at k [] h lt = absurd (omega arith)
char_at k ([] ∷ cs) (h, hs) lt = unfold is_char in cc
char_at zero ((b ∷ r) ∷ cs) (h, hs) lt = (
  b,
  r,
  record {
    is_char_here = h;
    found = refl;
    bytes = refl;
    ends = rw append-nil (omega arith);
    follows = refl;
  },
)
char_at (suc k) (c ∷ cs) (h, hs) lt =
    let (b, r, at) = char_at k cs hs (omega arith) in (b, r, IsCharAt-suc k c cs b r at)

pub length-take_le : (k : ℕ) (cs : List (List ℕ)) → k ≤ length cs → length (take k cs) ≡ k
length-take_le k cs h = omega (arith, length-take {0} k cs)

pub le-offset : (k : ℕ) (cs : List (List ℕ)) → All IsChar cs → k ≤ length cs → k ≤ offset k cs
le-offset k cs h le =
    omega
      (arith, length-le-length-encode (take k cs) (All-take IsChar k cs h), length-take_le k cs le)

-- The position of a character splits the bytes as its index splits the characters.
pub take-offset : (k : ℕ) (cs : List (List ℕ)) → take (offset k cs) (encode cs) ≡ encode (take k cs)
take-offset k cs =
    ap (take (offset k cs)) (sym (encode_split k cs)) ∙ take-append_length (encode (take k cs)) _

pub drop-offset : (k : ℕ) (cs : List (List ℕ)) → drop (offset k cs) (encode cs) ≡ encode (drop k cs)
drop-offset k cs =
    ap (drop (offset k cs)) (sym (encode_split k cs)) ∙ drop-append_length (encode (take k cs)) _

pub offset-add :
    (j m : ℕ) (cs : List (List ℕ))
    → offset (j + m) cs ≡ offset j cs + length (encode (take m (drop j cs)))
offset-add j m cs = rw (take-add j m cs, encode-append) (length-append (encode (take j cs)) _)

-- The bytes of `m` characters from index `j` on.
pub take-drop-offset :
    (j m : ℕ) (cs : List (List ℕ))
    → take (offset (j + m) cs - offset j cs) (drop (offset j cs) (encode cs))
      ≡ encode (take m (drop j cs))
take-drop-offset j m cs =
    let size : offset (j + m) cs - offset j cs ≡ offset m (drop j cs) =
      omega (arith, offset-add j m cs) in
    rw (size, drop-offset j cs) (take-offset m (drop j cs))
