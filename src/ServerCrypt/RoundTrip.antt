-- ===== src/ServerCrypt/RoundTrip.antt =====
-- srv/Crypt.cpp: `decipher` gives back the message of `encipher`.
use vjft.Prelude.{◌*◌, ℕ, ◌+◌, ◌%◌, ◌<◌, ◌≤◌, ◌≡◌, refl, ap, ◌∙◌, List, []}
use vjft.Prelude.{◌++◌, some, ok, ◌>>=◌, length, drop, join, map, replicate, arith, true}
use vjft.Prelude.{length-append}
use vjft.Crypt.{OpenSsl, chunk_size, hash_size, sig_size}
use vjft.Crypt.Envelope.{or_exit, rnd_arr}
use vjft.Crypt.Parse.{length-rnd_arr}
use vjft.Crypt.Working.{IsDigest, IsSigner}
use vjft.Crypt.RoundTrip.{same_bytes_refl}
use vjft.ServerCrypt.{resize, len_bytes, cast_uint16, form_envelope, split_vec}
use vjft.ServerCrypt.{extract_chunks, calc_crc, sign, decrypt_all}
use vjft.ServerCrypt.{
  accept, join_chunks, verify_signature, verify_checksum, check_envelope, encipher, decipher,
}
use vjft.ServerCrypt.Splitting.{split_vec-chunks, grown_chunks, length-join_chunks}
use vjft.ServerCrypt.Working.{IsRsa, SignsWhole, sign-IsSigner, calc_crc-IsDigest}
use vjft.ServerCrypt.Reading.{
  extract_parts-form_envelope, decrypt_all-encrypt_all, number_at-len_bytes,
}

length-form_envelope :
    (rand : ℕ → ℕ) (msg crc sign : List ℕ)
    → length crc ≡ hash_size
    → length sign ≡ sig_size
    → length (form_envelope rand msg crc sign) ≡ 547 + rand 0 % 256 + length msg
unfolding form_envelope len_bytes
length-form_envelope rand msg crc sign crc_size sign_size = omega (
  arith,
  length-append (rnd_arr rand 1 (rand 0 % 256))
      (len_bytes (cast_uint16 (length msg)) ++ (crc ++ (sign ++ msg))),
  length-rnd_arr rand 1 (rand 0 % 256),
  length-append crc (sign ++ msg),
  length-append sign msg,
)

module _ {Key : Type 0} (ssl : OpenSsl Key) where
  check_envelope-form_envelope :
      (public_key : Key) (rand : ℕ → ℕ) (msg s zeros : List ℕ)
      → length msg < 65536
      → length (calc_crc ssl msg) ≡ hash_size
      → length s ≡ sig_size
      → verify_signature ssl msg s public_key ≡ true
      → check_envelope ssl public_key (form_envelope rand msg (calc_crc ssl msg) s ++ zeros)
        ≡ ok msg
  unfolding check_envelope accept verify_checksum
  check_envelope-form_envelope public_key rand msg s zeros small crc_size sign_size verified =
      rw
        (
          extract_parts-form_envelope rand msg (calc_crc ssl msg) s zeros small crc_size sign_size,
          ◌>>=◌,
          verified,
          same_bytes_refl (calc_crc ssl msg),
        )
        refl

  decipher_chunks :
      (private_key public_key : Key) (encs chunks : List (List ℕ)) (msg : List ℕ)
      → length encs < 65536
      → extract_chunks (length encs) (join encs) ≡ ok encs
      → decrypt_all ssl private_key encs ≡ some chunks
      → check_envelope ssl public_key (join chunks) ≡ ok msg
      → decipher ssl private_key public_key (len_bytes (length encs) ++ join encs) ≡ ok msg
  unfolding decipher join_chunks
  decipher_chunks private_key public_key encs chunks msg small extracted decrypted checked =
      let behind : drop 2 (len_bytes (length encs) ++ join encs) ≡ join encs =
        unfold len_bytes in refl in
      rw
        (
          decipher,
          number_at-len_bytes [] (length encs) (join encs) small,
          ◌>>=◌,
          behind,
          extracted,
          ◌>>=◌,
          decrypted,
        )
        checked

  module _ (alice_private alice_public bob_private bob_public : Key) (digest : IsDigest ssl)
      (signer : IsSigner ssl alice_private alice_public) (whole : SignsWhole ssl alice_private)
      (rsa : IsRsa ssl bob_private bob_public) where
    -- The pack of a message, with its size.
    pub encipher-sized :
        (rand : ℕ → ℕ) (msg : List ℕ)
        → length msg < 65536
        → (pack : List ℕ) × (count : ℕ) × (encipher ssl rand alice_private bob_public msg ≡ ok pack)
          × (decipher ssl bob_private alice_public pack ≡ ok msg)
          × (length pack ≡ 2 + count * 512)
          × (547 + length msg ≤ count * 255)
          × (count * 255 ≤ 1056 + length msg)
    unfolding encipher decipher split_vec len_bytes
    encipher-sized rand msg small =
        let (s, signed, sign_size, verified) =
          sign-IsSigner ssl alice_private alice_public msg digest signer whole in
        let crc = calc_crc ssl msg in
        let crc_size = calc_crc-IsDigest ssl msg digest in
        let env = form_envelope rand msg crc s in
        let env_size = length-form_envelope rand msg crc s crc_size sign_size in
        let (joined, sizes, few) = split_vec-chunks env 254 in
        let chunks = split_vec env chunk_size in
        let (encs, encrypted, count, bytes, extracted, decrypted) =
          decrypt_all-encrypt_all ssl bob_private bob_public rsa chunks sizes in
        let held : length env ≤ length chunks * 255 =
          rw joined at (length-join_chunks 255 chunks sizes) in
        let (pad, grown) = grown_chunks (length env) env 254 0 (omega arith) in
        let narrow : cast_uint16 (length encs) ≡ length encs = omega arith in
        let extracted' : extract_chunks (length encs) (join encs) ≡ ok encs =
          ap (λ k. extract_chunks k (join encs)) count ∙ extracted in
        (
          len_bytes (length encs) ++ join encs,
          length chunks,
          rw (signed, or_exit, ◌>>=◌, encrypted, ◌>>=◌)
              (ap (λ k. ok (len_bytes k ++ join encs)) narrow),
          decipher_chunks bob_private alice_public encs (map (resize chunk_size) chunks) msg
              (omega arith) extracted' decrypted
              (ap (check_envelope ssl alice_public) grown
                ∙ check_envelope-form_envelope alice_public rand msg s (replicate pad 0) small
                    crc_size sign_size verified),
          omega (arith, bytes),
          omega (arith, held),
          omega arith,
        )

    -- Where OpenSSL works, the C++ encipher makes a pack of each message of less than 65536 bytes,
    -- and Bob's private key and Alice's public key decipher it to the message, however many random
    -- bytes there are, none included, and whether or not the envelope fills its chunks.
    pub server_decipher-encipher :
        (rand : ℕ → ℕ) (msg : List ℕ)
        → length msg < 65536
        → (pack : List ℕ) × (encipher ssl rand alice_private bob_public msg ≡ ok pack)
          × (decipher ssl bob_private alice_public pack ≡ ok msg)
    server_decipher-encipher rand msg small =
        let (pack, count, sealed, opened, size, enough, few) = encipher-sized rand msg small in
        (pack, sealed, opened)
