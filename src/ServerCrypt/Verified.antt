-- ===== src/ServerCrypt/Verified.antt =====
-- srv/Crypt.cpp: what `decipher` has checked of a text, and packs that it reads too far.
use vjft.Prelude.{ℕ, suc, ◌+◌, ◌<◌, ◌≡◌, ◌≢◌, refl, ◌⊎◌, inl, inr, List, []}
use vjft.Prelude.{◌∷◌, true, false, Option, none, some, ok, fault, ◌>>=◌}
use vjft.Prelude.{length, drop, join, get_elem?, arith, leb, Bool-cases, Option-cases, length-drop}
use vjft.Prelude.{ok->>=, ok-injective, ◌*◌, ◌≤◌, take}
use vjft.Crypt.{OpenSsl, hash_size, sig_size}
use vjft.Crypt.Envelope.{copy_bytes}
use vjft.ServerCrypt.{vec_at, number_at, range, Parts, extract_parts, extract_chunks, decrypt_all}
use vjft.ServerCrypt.{
  accept, join_chunks, verify_signature, verify_checksum, check_envelope, decipher,
}

vec_at-cases :
    (bytes : List ℕ) (i : ℕ) → (vec_at bytes i ≡ fault) ⊎ ((b : ℕ) × (vec_at bytes i ≡ ok b))
unfolding vec_at
vec_at-cases bytes i = elim (Option-cases (get_elem? bytes i)) [
  | inl missing ↦ inl (rw missing refl)
  | inr (b, here) ↦ inr (b, rw here refl)
]

number_at-cases :
    (bytes : List ℕ) (i : ℕ) → (number_at bytes i ≡ fault) ⊎ ((n : ℕ) × (number_at bytes i ≡ ok n))
unfolding number_at
number_at-cases bytes i = elim (vec_at-cases bytes i) [
  | inl missing ↦ inl (rw missing refl)
  | inr (lo, here) ↦ elim (vec_at-cases bytes (suc i)) [
    | inl missing ↦ inl (rw (here, ◌>>=◌, missing) refl)
    | inr (hi, there) ↦ inr (lo + 256 * hi, rw (here, ◌>>=◌, there) refl)
  ]
]

range-cases :
    (bytes : List ℕ) (i n : ℕ)
    → (range bytes i n ≡ fault) ⊎ ((xs : List ℕ) × (range bytes i n ≡ ok xs))
unfolding range copy_bytes
range-cases bytes i n = elim (Bool-cases (leb n (length (drop i bytes)))) [
  | inl fits ↦ inr (take n (drop i bytes), rw fits refl)
  | inr short ↦ inl (rw short refl)
]

range_short : (bytes : List ℕ) (i n : ℕ) → length bytes < i + n → 1 ≤ n → range bytes i n ≡ fault
unfolding range copy_bytes
range_short bytes i n short some_byte =
    let past : leb n (length (drop i bytes)) ≡ false =
      ground (arith, length-drop {A = ℕ} i bytes) in
    rw past refl

-- Where the chunks hold less than the 547 bytes of the other fields, reading them from the vector goes
-- behind its end.
pub extract_parts_short :
    (envelope : List ℕ) → length envelope < 547 → extract_parts envelope ≡ fault
unfolding extract_parts
extract_parts_short envelope short = elim (vec_at-cases envelope 0) [
  | inl missing ↦ rw missing refl
  | inr (random_len, here) ↦ elim (number_at-cases envelope (suc random_len)) [
    | inl missing ↦ rw (here, ◌>>=◌, missing) refl
    | inr (msg_size, there) ↦ elim (range-cases envelope (random_len + 3) hash_size) [
      | inl missing ↦ rw (here, ◌>>=◌, there, ◌>>=◌, missing) refl
      | inr (crc, read) ↦
          rw
            (
              here,
              ◌>>=◌,
              there,
              ◌>>=◌,
              read,
              ◌>>=◌,
              range_short envelope (random_len + 35) sig_size (omega arith) (omega arith),
            )
            refl
    ]
  ]
]

nothing : (b : ℕ) (msg : List ℕ) → [] ≢ b ∷ msg
nothing b msg e = cc

module _ {Key : Type 0} (ssl : OpenSsl Key) where
  -- A pack whose chunks decrypt to less than 547 bytes, as those of no more than two chunks do,
  -- makes the C++ decipher read behind the end of the envelope: the code tests no length there.
  pub server_decipher_overreads :
      (private_key public_key : Key) (pack : List ℕ) (count : ℕ) (encs chunks : List (List ℕ))
      → number_at pack 0 ≡ ok count
      → extract_chunks count (drop 2 pack) ≡ ok encs
      → decrypt_all ssl private_key encs ≡ some chunks
      → length (join chunks) < 547
      → decipher ssl private_key public_key pack ≡ fault
  unfolding decipher check_envelope join_chunks
  server_decipher_overreads private_key public_key pack count encs chunks counted extracted
        decrypted short =
      rw
        (
          decipher,
          counted,
          ◌>>=◌,
          extracted,
          ◌>>=◌,
          decrypted,
          join_chunks,
          check_envelope,
          extract_parts_short (join chunks) short,
        )
        refl

  accept-checked :
      (public_key : Key) (parts : Parts) (b : ℕ) (msg : List ℕ)
      → accept ssl public_key parts ≡ b ∷ msg
      → (parts.msg ≡ b ∷ msg)
        × (verify_signature ssl parts.msg parts.msg_sign public_key ≡ true)
        × (verify_checksum ssl parts.msg parts.msg_crc ≡ true)
  unfolding accept
  accept-checked public_key parts b msg e =
      elim (Bool-cases (verify_signature ssl parts.msg parts.msg_sign public_key)) [
        | inr wrong ↦ absurd (nothing b msg (rw (accept, wrong) at e))
        | inl signed ↦ elim (Bool-cases (verify_checksum ssl parts.msg parts.msg_crc)) [
          | inr wrong ↦ absurd (nothing b msg (rw (accept, signed, wrong) at e))
          | inl hashed ↦ (rw (accept, signed, hashed) at e, signed, hashed)
        ]
      ]

  join_chunks-accept :
      (public_key : Key) (decrypted : Option (List (List ℕ))) (b : ℕ) (msg : List ℕ)
      → join_chunks ssl public_key decrypted ≡ ok (b ∷ msg)
      → (chunks : List (List ℕ)) × (parts : Parts) × (decrypted ≡ some chunks)
        × (extract_parts (join chunks) ≡ ok parts)
        × (accept ssl public_key parts ≡ b ∷ msg)
  unfolding join_chunks check_envelope
  join_chunks-accept public_key none b msg e = absurd (nothing b msg (ok-injective e))
  join_chunks-accept public_key (some chunks) b msg e =
      let (parts, extracted, accepted) =
        ok->>= (extract_parts (join chunks)) (λ parts. ok (accept ssl public_key parts)) (b ∷ msg)
          e in
      (chunks, parts, refl, extracted, ok-injective accepted)

  -- A text that is not empty comes out of the C++ decipher only if it was extracted from the
  -- chunks of the pack together with a signature, which the public key verifies of it, and a
  -- checksum, which is its own.
  pub server_decipher-IsChecked :
      (private_key public_key : Key) (pack : List ℕ) (b : ℕ) (msg : List ℕ)
      → decipher ssl private_key public_key pack ≡ ok (b ∷ msg)
      → (count : ℕ) × (encs chunks : List (List ℕ)) × (parts : Parts) × (number_at pack 0
          ≡ ok count)
        × (extract_chunks count (drop 2 pack) ≡ ok encs)
        × (decrypt_all ssl private_key encs ≡ some chunks)
        × (extract_parts (join chunks) ≡ ok parts)
        × (parts.msg ≡ b ∷ msg)
        × (verify_signature ssl parts.msg parts.msg_sign public_key ≡ true)
        × (verify_checksum ssl parts.msg parts.msg_crc ≡ true)
  unfolding decipher
  server_decipher-IsChecked private_key public_key pack b msg e =
      let (count, counted, rest) =
        ok->>= (number_at pack 0)
          (λ count. extract_chunks count (drop 2 pack) >>= λ encs.
            join_chunks ssl public_key (decrypt_all ssl private_key encs))
          (b ∷ msg) e in
      let (encs, extracted, joined) =
        ok->>= (extract_chunks count (drop 2 pack))
          (λ encs. join_chunks ssl public_key (decrypt_all ssl private_key encs)) (b ∷ msg) rest in
      let (chunks, parts, decrypted, read, accepted) =
        join_chunks-accept public_key (decrypt_all ssl private_key encs) b msg joined in
      let (same, signed, hashed) = accept-checked public_key parts b msg accepted in
      (count, encs, chunks, parts, counted, extracted, decrypted, read, same, signed, hashed)
