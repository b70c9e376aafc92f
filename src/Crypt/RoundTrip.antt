-- ===== src/Crypt/RoundTrip.antt =====
-- term/crypt.c: `decipher` gives back the message of `encipher`.
use vjft.Keyboard.{c_string}
use vjft.Prelude.{ℕ, suc, ◌+◌, ◌-◌, ◌*◌, ◌%◌, ◌<◌, ◌≤◌, ◌≢◌, ◌≡◌, refl, List, []}
use vjft.Prelude.{
  ◌∷◌, ◌++◌, append-nil, some, ok, ◌>>=◌, Run, Option, fault, length, drop, join, replicate, pos,
}
use vjft.Prelude.{arith, true, false, length-append, take-append_length, ◌==◌, eqb_ℤ}
use vjft.Crypt.{
  OpenSsl, chunk_size, hash_size, sig_size, calc_crc, calc_sign, verify_sign, and_then,
}
use vjft.Crypt.{split_buffer}
use vjft.Crypt.Chunks.{split_buffer-chunks}
use vjft.Crypt.Working.{IsDigest, IsSigner, IsCipher, calc_crc-IsDigest, calc_sign-IsSigner}
use vjft.Crypt.Envelope.{copy_bytes, or_exit, to_uint16, uint16_bytes, rnd_size, rnd_arr, envelope}
use vjft.Crypt.Envelope.{
  has_zero, encrypt_chunks, encipher, decrypt_chunks, check_parts, open_envelope, decipher,
}
use vjft.Crypt.Parse.{copy_bytes-append, uint16_at-uint16_bytes, length-rnd_arr, rnd_size-bounds}
use vjft.Crypt.Parse.{has_zero-append, parse_envelope-envelope}
use vjft.Crypt.Packing.{decrypt_chunks-encrypt_chunks}
use vjft.Key.{same_bytes}
use vjft.Prelude.{Bool-cases, inl, inr, ap}

pub same_bytes_refl : (s : List ℕ) → same_bytes s s ≡ true
unfolding same_bytes
same_bytes_refl [] = refl
same_bytes_refl (b ∷ s) = ground (arith, same_bytes_refl s)

zeros-has_zero : (pad : ℕ) → has_zero (replicate (suc pad) 0) ≡ true
unfolding has_zero
zeros-has_zero pad = refl

-- The size that the code calls `env_size`.
length-envelope :
    (rand : ℕ → ℕ) (n : ℕ) (crc sign msg : List ℕ)
    → length crc ≡ hash_size
    → length sign ≡ sig_size
    → length (envelope rand n crc sign msg) ≡ 547 + rnd_size rand + length msg
unfolding envelope uint16_bytes
length-envelope rand n crc sign msg crc_size sign_size = omega (
  arith,
  length-append (rnd_arr rand 1 (rnd_size rand)) (uint16_bytes n ++ (crc ++ (sign ++ msg))),
  length-rnd_arr rand 1 (rnd_size rand),
  length-append crc (sign ++ msg),
  length-append sign msg,
)

no_padding :
    (count n : ℕ) → n % 255 ≡ 0 → n ≤ count * 255 → count * 255 < n + 255 → count * 255 - n ≡ 0
no_padding count n full enough few = omega arith

padding :
    (count n : ℕ) → n % 255 ≢ 0 → n ≤ count * 255 → count * 255 - n ≡ suc (count * 255 - n - 1)
padding count n not_full enough = omega arith

c_string-text : (msg : List ℕ) → has_zero msg ≡ false → c_string msg ≡ msg
unfolding c_string has_zero
c_string-text [] h = refl
c_string-text (b ∷ msg) h = elim (Bool-cases (b == 0)) [
  | inl zero ↦ absurd (ground (arith, zero, h))
  | inr other ↦ rw other (ap (b ∷◌) (c_string-text msg (ground (arith, other, h))))
]

module _ {Key : Type 0} (ssl : OpenSsl Key) where
  open_envelope-envelope :
      (public_key : Key) (rand : ℕ → ℕ) (crc sign msg : List ℕ) (pad : ℕ)
      → length msg < 65536
      → length crc ≡ hash_size
      → length sign ≡ sig_size
      → calc_crc ssl msg ≡ some crc
      → verify_sign ssl msg sign public_key ≡ pos 1
      → open_envelope ssl public_key
          (envelope rand (length msg) crc sign msg ++ replicate (suc pad) 0)
        ≡ ok (some msg)
  unfolding open_envelope check_parts
  open_envelope-envelope public_key rand crc sign msg pad small crc_size sign_size hashed verified =
      let zeros = replicate (suc pad) 0 in
      let ends : has_zero (msg ++ zeros) ≡ true = has_zero-append msg zeros (zeros-has_zero pad) in
      rw
        (
          open_envelope,
          parse_envelope-envelope rand (length msg) crc sign msg zeros small crc_size sign_size
              refl,
          check_parts,
          ends,
          take-append_length msg zeros,
          hashed,
          and_then,
          same_bytes_refl crc,
          verified,
        )
        refl

  open_envelope-full :
      (public_key : Key) (rand : ℕ → ℕ) (crc sign msg : List ℕ)
      → length msg < 65536
      → length crc ≡ hash_size
      → length sign ≡ sig_size
      → has_zero msg ≡ false
      → open_envelope ssl public_key (envelope rand (length msg) crc sign msg) ≡ fault
  unfolding open_envelope check_parts
  open_envelope-full public_key rand crc sign msg small crc_size sign_size text =
      let parsed =
        parse_envelope-envelope rand (length msg) crc sign msg [] small crc_size sign_size refl in
      rw (open_envelope, rw (append-nil, append-nil) at parsed, check_parts, text) refl

  module _ (alice_private alice_public bob_private bob_public : Key) (digest : IsDigest ssl)
      (signer : IsSigner ssl alice_private alice_public)
      (cipher : IsCipher ssl bob_private bob_public) where
    decipher_chunks :
        (chunks encs : List (List ℕ)) (result : Run (Option (List ℕ)))
        → length chunks < 65536
        → length encs ≡ length chunks
        → decrypt_chunks ssl bob_private (length chunks) (join encs) ≡ ok (some chunks)
        → open_envelope ssl alice_public (join chunks) ≡ result
        → decipher ssl bob_private alice_public (uint16_bytes (length encs) ++ join encs) ≡ result
    unfolding decipher
    decipher_chunks chunks encs result small count decrypted opened =
        let behind : drop 2 (uint16_bytes (length encs) ++ join encs) ≡ join encs =
          unfold uint16_bytes in refl in
        rw
          (
            uint16_at-uint16_bytes (length encs) (join encs) (omega arith),
            ◌>>=◌,
            behind,
            count,
            decrypted,
            ◌>>=◌,
            opened,
          )
          refl

    encipher_packs :
        (rand : ℕ → ℕ) (msg crc sign : List ℕ) (chunks encs : List (List ℕ))
        → length msg < 65536
        → calc_crc ssl msg ≡ some crc
        → calc_sign ssl msg alice_private ≡ some sign
        → length sign ≡ sig_size
        → split_buffer (envelope rand (length msg) crc sign msg) chunk_size ≡ some chunks
        → encrypt_chunks ssl bob_public chunks ≡ ok encs
        → length encs < 65536
        → encipher ssl rand alice_private bob_public msg (pos (length msg))
          ≡ ok (uint16_bytes (length encs) ++ join encs)
    unfolding encipher
    encipher_packs rand msg crc sign chunks encs small hashed signed size split encrypted few =
        let narrow : to_uint16 (pos (length msg)) ≡ length msg = unfold to_uint16 in omega arith in
        let same : eqb_ℤ (pos (length msg)) (pos (length msg)) ≡ true = ground arith in
        let counted : (length encs % 65536 == length encs) ≡ true = ground arith in
        let copied : copy_bytes sig_size sign ≡ ok sign =
          rw (append-nil sign) at (copy_bytes-append sig_size sign [] size) in
        rw
          (
            encipher,
            narrow,
            same,
            narrow,
            copy_bytes-append (length msg) msg (0 ∷ []) refl,
            ◌>>=◌,
            hashed,
            or_exit,
            ◌>>=◌,
            signed,
            or_exit,
            ◌>>=◌,
            copied,
            ◌>>=◌,
            split,
            or_exit,
            ◌>>=◌,
            encrypted,
            ◌>>=◌,
            counted,
          )
          refl

    -- Where OpenSSL works, Bob's private key and Alice's public key decipher what Alice enciphers:
    -- a message without zero bytes, of less than 65536 bytes, if its envelope does not fill its
    -- chunks to the last byte.
    pub decipher-encipher :
        (rand : ℕ → ℕ) (msg : List ℕ)
        → length msg < 65536
        → (547 + rnd_size rand + length msg) % chunk_size ≢ 0
        → has_zero msg ≡ false
        → (pack : List ℕ) × (encipher ssl rand alice_private bob_public msg (pos (length msg))
            ≡ ok pack)
          × (decipher ssl bob_private alice_public pack ≡ ok (some msg))
    unfolding encipher
    decipher-encipher rand msg small not_full text =
        let (crc, hashed, crc_size) = calc_crc-IsDigest ssl digest msg in
        let (sign, signed, sign_size, verified) =
          calc_sign-IsSigner ssl alice_private alice_public msg digest signer
            (c_string-text msg text) in
        let env = envelope rand (length msg) crc sign msg in
        let (chunks, split, sizes, joined, enough, few) = split_buffer-chunks env 254 in
        let (encs, encrypted, count, decrypted) =
          decrypt_chunks-encrypt_chunks ssl bob_private bob_public cipher chunks sizes in
        let size = length-envelope rand (length msg) crc sign msg crc_size sign_size in
        let rnd = rnd_size-bounds rand in
        let count_small : length chunks < 65536 = omega arith in
        let not_full' : length env % 255 ≢ 0 = rw size not_full in
        let pad = length chunks * 255 - length env - 1 in
        let padded = padding (length chunks) (length env) not_full' enough in
        (
          uint16_bytes (length encs) ++ join encs,
          encipher_packs rand msg crc sign chunks encs small hashed signed sign_size split encrypted
              (omega arith),
          decipher_chunks chunks encs (ok (some msg)) count_small count decrypted (
              rw (joined, padded)
                (open_envelope-envelope alice_public rand crc sign msg pad small crc_size sign_size
                  hashed verified)),
        )

    -- Where OpenSSL works, a message without zero bytes, of less than 65536 bytes, whose envelope
    -- fills its chunks to the last byte, is enciphered, but decipher reads behind its envelope.
    pub decipher_overreads :
        (rand : ℕ → ℕ) (msg : List ℕ)
        → length msg < 65536
        → (547 + rnd_size rand + length msg) % chunk_size ≡ 0
        → has_zero msg ≡ false
        → (pack : List ℕ) × (encipher ssl rand alice_private bob_public msg (pos (length msg))
            ≡ ok pack)
          × (decipher ssl bob_private alice_public pack ≡ fault)
    decipher_overreads rand msg small full text =
        let (crc, hashed, crc_size) = calc_crc-IsDigest ssl digest msg in
        let (sign, signed, sign_size, verified) =
          calc_sign-IsSigner ssl alice_private alice_public msg digest signer
            (c_string-text msg text) in
        let env = envelope rand (length msg) crc sign msg in
        let (chunks, split, sizes, joined, enough, few) = split_buffer-chunks env 254 in
        let (encs, encrypted, count, decrypted) =
          decrypt_chunks-encrypt_chunks ssl bob_private bob_public cipher chunks sizes in
        let size = length-envelope rand (length msg) crc sign msg crc_size sign_size in
        let rnd = rnd_size-bounds rand in
        let count_small : length chunks < 65536 = omega arith in
        let full' : length env % 255 ≡ 0 = rw size full in
        let exact = no_padding (length chunks) (length env) full' enough few in
        (
          uint16_bytes (length encs) ++ join encs,
          encipher_packs rand msg crc sign chunks encs small hashed signed sign_size split encrypted
              (omega arith),
          decipher_chunks chunks encs fault count_small count decrypted (
              rw (joined, exact, append-nil env)
                (open_envelope-full alice_public rand crc sign msg small crc_size sign_size text)),
        )
