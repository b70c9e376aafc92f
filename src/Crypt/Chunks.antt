-- ===== src/Crypt/Chunks.antt =====
-- term/crypt.c, `split_buffer`: the chunks hold the buffer, padded with zeros.
use vjft.Prelude.{
  replicate-add, ℕ, zero, suc, ◌+◌, ◌-◌, ◌*◌, ◌/◌, ◌≤◌, ◌<◌, ◌≡◌, refl, sym, ap, ◌∙◌, List,
}
use vjft.Prelude.{[], ◌++◌, some, length, take, drop, replicate, join, All, ltb}
use vjft.Prelude.{arith, length-append, length-take, length-drop, length-replicate, drop-add}
use vjft.Prelude.{
  take-append-drop, Bool-cases, inl, inr, take_all, drop_all, append-nil, append_assoc,
}
use native.Mathlib.Nat.{zero-add, suc-mul, zero-mul, sub_self, div-add-mod', mod-lt, zero-lt-suc}
use vjft.Crypt.{split_loop, num_chunks, split_buffer}

-- A round that copies a whole chunk, and one that copies the `left` bytes that are left: what they
-- and the rounds behind them hold.
whole_chunk :
    (size offset : ℕ) (buffer : List ℕ) (rest padding : List ℕ)
    → rest ≡ drop (offset + size) buffer ++ padding
    → (take size (drop offset buffer) ++ []) ++ rest ≡ drop offset buffer ++ padding
whole_chunk size offset buffer rest padding h =
    rw (append-nil (take size (drop offset buffer)), h, drop-add offset size buffer)
      (sym (append_assoc (take size (drop offset buffer)) _ padding)
        ∙ ap (◌++ padding) (take-append-drop size (drop offset buffer)))

last_chunk :
    (size offset pad rounds : ℕ) (buffer rest : List ℕ)
    → offset ≤ length buffer
    → rest ≡ drop (offset + (length buffer - offset)) buffer ++ replicate rounds 0
    → (take (length buffer - offset) (drop offset buffer) ++ replicate pad 0) ++ rest
      ≡ drop offset buffer ++ replicate (pad + rounds) 0
last_chunk size offset pad rounds buffer rest inside h =
    let all : take (length buffer - offset) (drop offset buffer) ≡ drop offset buffer =
      take_all _ _ (omega (arith, length-drop {0} offset buffer)) in
    let none_left : drop (offset + (length buffer - offset)) buffer ≡ [] =
      drop_all _ buffer (omega arith) in
    rw (h, none_left, all, replicate-add {A = ℕ} pad rounds 0)
      (append_assoc (drop offset buffer) (replicate pad 0) (replicate rounds 0))

pub split_loop-join :
    (rounds : ℕ) (buffer : List ℕ) (size offset : ℕ)
    → length buffer ≤ offset + rounds * size
    → offset ≤ length buffer
    → join (split_loop rounds buffer size offset)
      ≡ drop offset buffer ++ replicate (offset + rounds * size - length buffer) 0
unfolding split_loop
split_loop-join zero buffer size offset enough inside =
    let nothing : offset + zero * size - length buffer ≡ 0 = omega (arith, zero-mul size) in
    rw (nothing, drop_all offset buffer (omega (arith, zero-mul size))) refl
split_loop-join (suc rounds) buffer size offset enough inside =
    elim (Bool-cases (ltb (length buffer) (offset + size))) [
      | inl past ↦
          let left = length buffer - offset in
          let padded : offset + suc rounds * size - length buffer ≡ size - left + rounds * size =
            ground (arith, suc-mul rounds size) in
          let ends : offset + left + rounds * size - length buffer ≡ rounds * size = omega arith in
          rw (past, padded)
            (last_chunk size offset (size - left) (rounds * size) buffer _ inside (
              rw ends at
                (split_loop-join rounds buffer size (offset + left) (omega arith) (omega arith))))
      | inr fits ↦
          let behind : offset + suc rounds * size ≡ offset + size + rounds * size =
            omega (arith, suc-mul rounds size) in
          rw (fits, sub_self size, behind)
            (whole_chunk size offset buffer _ _ (
              split_loop-join rounds buffer size (offset + size)
                (omega (arith, suc-mul rounds size)) (ground arith)))
    ]

padded_length :
    (k size : ℕ) (xs : List ℕ)
    → k ≤ size
    → k ≤ length xs
    → length (take k xs ++ replicate (size - k) 0) ≡ size
padded_length k size xs small enough = omega (
  arith,
  length-append (take k xs) (replicate (size - k) 0),
  length-take k xs,
  length-replicate {A = ℕ} (size - k) 0,
)

pub split_loop-sizes :
    (rounds : ℕ) (buffer : List ℕ) (size offset : ℕ)
    → offset ≤ length buffer
    → All (λ c. length c ≡ size) (split_loop rounds buffer size offset)
unfolding split_loop
split_loop-sizes zero buffer size offset inside = tt
split_loop-sizes (suc rounds) buffer size offset inside =
    elim (Bool-cases (ltb (length buffer) (offset + size))) [
      | inl past ↦
          let left = length buffer - offset in
          rw past (
            padded_length left size _ (ground arith) (omega (arith, length-drop {0} offset buffer)),
            split_loop-sizes rounds buffer size (offset + left) (omega arith),
          )
      | inr fits ↦ rw fits (
        padded_length size size _ (omega arith) (ground (arith, length-drop {0} offset buffer)),
        split_loop-sizes rounds buffer size (offset + size) (ground arith),
      )
    ]

pub length-split_loop :
    (rounds : ℕ) (buffer : List ℕ) (size offset : ℕ)
    → length (split_loop rounds buffer size offset) ≡ rounds
unfolding split_loop
length-split_loop zero buffer size offset = refl
length-split_loop (suc rounds) buffer size offset = ap suc (length-split_loop rounds buffer size _)

-- The chunks are as few as hold the buffer.
pub num_chunks-bounds :
    (n size : ℕ)
    → (n ≤ num_chunks n (suc size) * suc size) × (num_chunks n (suc size) * suc size < n + suc size)
unfolding num_chunks
num_chunks-bounds n size = ground (
  arith,
  div-add-mod' n (suc size),
  mod-lt n (zero-lt-suc size),
  suc-mul (n / suc size) (suc size),
)

-- For a chunk size above zero split_buffer gives chunks of that size, which hold the buffer in
-- order and then zeros, fewer than a chunk has bytes.
pub split_buffer-chunks :
    (buffer : List ℕ) (size : ℕ)
    → (chunks : List (List ℕ)) × (split_buffer buffer (suc size) ≡ some chunks)
      × (All (λ c. length c ≡ suc size) chunks)
      × (join chunks ≡ buffer ++ replicate (length chunks * suc size - length buffer) 0)
      × (length buffer ≤ length chunks * suc size)
      × (length chunks * suc size < length buffer + suc size)
unfolding split_buffer
split_buffer-chunks buffer size =
    let rounds = num_chunks (length buffer) (suc size) in
    let (enough, few) = num_chunks-bounds (length buffer) size in
    let chunks = split_loop rounds buffer (suc size) 0 in
    let counted : length chunks ≡ rounds = length-split_loop rounds buffer (suc size) 0 in
    (
      chunks,
      refl,
      split_loop-sizes rounds buffer (suc size) 0 (omega arith),
      rw (counted, sym (zero-add (rounds * suc size)))
          (split_loop-join rounds buffer (suc size) 0 (omega arith) (omega arith)),
      rw counted enough,
      rw counted few,
    )
