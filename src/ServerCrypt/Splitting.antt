-- ===== src/ServerCrypt/Splitting.antt =====
-- srv/Utils.cpp: the chunks of `split_vec`.
use vjft.Prelude.{
  ◌∷◌, ℕ, zero, suc, ◌+◌, ◌-◌, ◌*◌, ◌≤◌, ◌≡◌, refl, sym, ap, ◌∙◌, ◌⊎◌, inl, inr, min, List, [],
}
use vjft.Prelude.{◌++◌, length, take, drop, join, All, ltb, false, arith, Bool-cases}
use vjft.Prelude.{
  length-append, length-take, length-drop, take-append-drop, drop-add, drop_all, take_all,
}
use native.Mathlib.Nat.{zero-mul, suc-mul}
use vjft.ServerCrypt.{split_from, split_vec, resize}
use vjft.ServerCrypt.Working.{resize_same, resize_grow}
use vjft.Prelude.{map, append_assoc, replicate, append-nil}

le_or : (a b : ℕ) → (a ≤ b) ⊎ (b ≤ a)
le_or a b = ground arith

take-min : (n : ℕ) (xs : List ℕ) → take (min n (length xs)) xs ≡ take n xs
take-min n xs = elim (le_or n (length xs)) [
  | inl small ↦ ap (λ k. take k xs) (omega arith)
  | inr large ↦
      ap (λ k. take k xs) {x = min n (length xs)} {y = length xs} (omega arith)
      ∙ take_all (length xs) xs (omega arith)
      ∙ sym (take_all n xs (omega arith))
]

take_up_to :
    (size i : ℕ) (input : List ℕ)
    → take (min size (length input - i)) (drop i input) ≡ take size (drop i input)
take_up_to size i input =
    ap (λ k. take (min size k) (drop i input)) (sym (length-drop {A = ℕ} i input))
    ∙ take-min size (drop i input)

split_from-join :
    (rounds : ℕ) (input : List ℕ) (size i : ℕ)
    → length input ≤ i + rounds
    → join (split_from rounds input (suc size) i) ≡ drop i input
unfolding split_from
split_from-join zero input size i enough = sym (drop_all i input (omega arith))
split_from-join (suc rounds) input size i enough = elim (Bool-cases (ltb i (length input))) [
  | inr done ↦ rw done (sym (drop_all i input (ground arith)))
  | inl more ↦
      rw
        (
          more,
          split_from-join rounds input size (i + suc size) (omega arith),
          drop-add i (suc size) input,
        )
        (ap (◌++ drop (suc size) (drop i input)) (take_up_to (suc size) i input)
          ∙ take-append-drop (suc size) (drop i input))
]

split_from-sizes :
    (rounds : ℕ) (input : List ℕ) (size i : ℕ)
    → All (λ c. length c ≤ size) (split_from rounds input size i)
unfolding split_from
split_from-sizes zero input size i = tt
split_from-sizes (suc rounds) input size i = elim (Bool-cases (ltb i (length input))) [
  | inr done ↦ rw done tt
  | inl more ↦ rw more (
    omega (arith, length-take {A = ℕ} (min size (length input - i)) (drop i input)),
    split_from-sizes rounds input size (i + size),
  )
]

no_whole : (n size : ℕ) → n * suc size ≤ size → n * suc size ≡ 0
no_whole zero size h = zero-mul (suc size)
no_whole (suc n) size h = absurd (omega (arith, suc-mul n (suc size)))

count_suc :
    (n size left : ℕ)
    → 1 ≤ left
    → n * suc size ≤ left - suc size + size
    → suc n * suc size ≤ left + size
count_suc n size left some_left h = elim (le_or (suc size) left) [
  | inl whole ↦ omega (arith, suc-mul n (suc size))
  | inr last ↦ omega (arith, suc-mul n (suc size), no_whole n size (omega arith))
]

split_from-count :
    (rounds : ℕ) (input : List ℕ) (size i : ℕ)
    → length (split_from rounds input (suc size) i) * suc size ≤ length input - i + size
unfolding split_from
split_from-count zero input size i = omega (arith, zero-mul (suc size))
split_from-count (suc rounds) input size i = elim (Bool-cases (ltb i (length input))) [
  | inr done ↦ rw done (omega (arith, zero-mul (suc size)))
  | inl more ↦ rw more (
      count_suc (length (split_from rounds input (suc size) (i + suc size))) size (length input - i)
        (ground arith) (omega (arith, split_from-count rounds input size (i + suc size))))
]

-- For a size above zero split_vec cuts a vector into chunks of at most that size, which hold its
-- bytes in order; there are no more of them than hold the vector when all but the last are full.
pub split_vec-chunks :
    (input : List ℕ) (size : ℕ)
    → (join (split_vec input (suc size)) ≡ input)
      × (All (λ c. length c ≤ suc size) (split_vec input (suc size)))
      × (length (split_vec input (suc size)) * suc size ≤ length input + size)
unfolding split_vec
split_vec-chunks input size = (
  split_from-join (length input) input size 0 (omega arith),
  split_from-sizes (length input) input (suc size) 0,
  omega (arith, split_from-count (length input) input size 0),
)

split_from-done :
    (rounds : ℕ) (input : List ℕ) (size i : ℕ)
    → length input ≤ i
    → split_from rounds input size i ≡ []
unfolding split_from
split_from-done zero input size i past = refl
split_from-done (suc rounds) input size i past =
    let done : ltb i (length input) ≡ false = ground arith in rw done refl

-- A full chunk, and the last one.
grown_whole :
    (size pad : ℕ) (rest behind : List ℕ)
    → size ≤ length rest
    → behind ≡ drop size rest ++ replicate pad 0
    → resize size (take size rest) ++ behind ≡ rest ++ replicate pad 0
grown_whole size pad rest behind enough h =
    rw (resize_same size (take size rest) (omega (arith, length-take {A = ℕ} size rest)), h)
      (sym (append_assoc (take size rest) (drop size rest) (replicate pad 0))
        ∙ ap (◌++ replicate pad 0) (take-append-drop size rest))

grown_last :
    (size : ℕ) (rest behind : List ℕ)
    → length rest ≤ size
    → behind ≡ []
    → resize size (take size rest) ++ behind ≡ rest ++ replicate (size - length rest) 0
grown_last size rest behind few h =
    rw (h, take_all size rest few, resize_grow size rest few)
      (append-nil (rest ++ replicate (size - length rest) 0))

-- The chunks grown to the full size hold the bytes and then zeros.
pub grown_chunks :
    (rounds : ℕ) (input : List ℕ) (size i : ℕ)
    → length input ≤ i + rounds
    → (pad : ℕ) × (join (map (resize (suc size)) (split_from rounds input (suc size) i))
        ≡ drop i input ++ replicate pad 0)
unfolding split_from
grown_chunks zero input size i enough =
    (0, sym (append-nil (drop i input) ∙ drop_all i input (omega arith)))
grown_chunks (suc rounds) input size i enough =
    let behind =
      join (map (resize (suc size)) (split_from rounds input (suc size) (i + suc size))) in
    elim (Bool-cases (ltb i (length input))) [
      | inr done ↦ (0, rw done (sym (append-nil (drop i input) ∙ drop_all i input (ground arith))))
      | inl more ↦ elim (le_or (suc size) (length input - i)) [
        | inl whole ↦
            let (pad, rest) = grown_chunks rounds input size (i + suc size) (omega arith) in
            (
              pad,
              rw more (
                  ap (λ c. resize (suc size) c ++ behind) (take_up_to (suc size) i input)
                  ∙ grown_whole (suc size) pad (drop i input) _
                      (omega (arith, length-drop {A = ℕ} i input))
                      (rest ∙ ap (◌++ replicate pad 0) (drop-add i (suc size) input))),
            )
        | inr last ↦ (
          suc size - length (drop i input),
          rw more (
              ap (λ c. resize (suc size) c ++ behind) (take_up_to (suc size) i input)
              ∙ grown_last (suc size) (drop i input) _ (omega (arith, length-drop {A = ℕ} i input))
                  (ap (λ cs. join (map (resize (suc size)) cs))
                    (split_from-done rounds input (suc size) (i + suc size) (omega arith)))),
        )
      ]
    ]

-- Chunks of at most a size hold at most so many bytes.
pub length-join_chunks :
    (size : ℕ) (chunks : List (List ℕ))
    → All (λ c. length c ≤ size) chunks
    → length (join chunks) ≤ length chunks * size
length-join_chunks size [] sizes = omega arith
length-join_chunks size (chunk ∷ chunks) (fits, sizes) = omega (
  arith,
  length-append {A = ℕ} chunk (join chunks),
  suc-mul (length chunks) size,
  length-join_chunks size chunks sizes,
)
