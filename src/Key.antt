-- ===== src/Key.antt =====
-- term/key.c: keys and their byte sequences. The table KEY_MAP, which the build generates from
-- term/key_map.m4, is an argument; a key is its index there.
use vjft.Prelude.{ℕ, zero, suc, List, [], ◌∷◌, Bool, true, false, ◌&&◌, ◌==◌, if◌then◌else◌, length}
use vjft.Prelude.{take}

-- An entry `X(val, len, str, is_printable)`, with the name of `val`.
pub record KeyEntry : Type 0 where
  pub val : List ℕ
  pub len : ℕ
  pub str : List ℕ
  pub is_printable : Bool

-- Equal byte strings.
unfoldable pub same_bytes : List ℕ → List ℕ → Bool
same_bytes [] [] = true
same_bytes [] (c ∷ t) = false
same_bytes (b ∷ s) [] = false
same_bytes (b ∷ s) (c ∷ t) = b == c && same_bytes s t

-- The index that `identify_key` returns, counted on from `i`, and `unknown` if no entry fits.
-- `strncmp` over `len` bytes compares both texts up to there.
unfoldable pub identify_from : List KeyEntry → List ℕ → ℕ → ℕ → ℕ
unfolding same_bytes
identify_from [] seq i unknown = unknown
identify_from (entry ∷ entries) seq i unknown =
    if entry.len == length seq && same_bytes (take entry.len seq) (take entry.len entry.str)
    then i
    else identify_from entries seq (suc i) unknown

-- The index of KEY_UNKNOWN: the first entry that is not printable, for the table puts the printable
-- ones first and KEY_UNKNOWN behind them.
unfoldable pub key_unknown : List KeyEntry → ℕ
key_unknown [] = 0
key_unknown (entry ∷ entries) = if entry.is_printable then suc (key_unknown entries) else 0

unfoldable pub identify_key : List KeyEntry → List ℕ → ℕ
unfolding identify_from key_unknown
identify_key key_map seq = identify_from key_map seq 0 (key_unknown key_map)

unfoldable pub key_to_str : List KeyEntry → ℕ → List ℕ
key_to_str [] key = []
key_to_str (entry ∷ entries) zero = entry.val
key_to_str (entry ∷ entries) (suc key) = key_to_str entries key
