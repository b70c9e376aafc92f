-- ===== src/ServerCrypt.antt =====
-- srv/Crypt.cpp, with `split_vec` of srv/Utils.cpp: the packs of the C++ chat. OpenSSL is that of Crypt,
-- and a call that writes into a vector leaves the vector as long as it was made. `exit` is an
-- exception, which ends the program, and `fault` is an access behind the end of a vector.
pub mod Splitting
pub mod Working
pub mod Reading
pub mod RoundTrip
pub mod Verified
use vjft.Prelude.{ℕ, zero, suc, ◌+◌, ◌-◌, ◌*◌, ◌/◌, ◌%◌, min, List, [], ◌∷◌, ◌++◌, Bool, true}
use vjft.Prelude.{false, not, ltb, ◌==◌, if◌then◌else◌, ℤ, pos, eqb_ℤ, Option, none, some}
use vjft.Prelude.{
  Run, ok, exit, fault, ◌>>=◌, deref, length, take, drop, replicate, join, get_elem?,
}
use vjft.Crypt.{
  OpenSsl, require, and_then, positive, sig_size, hash_size, chunk_size, enc_chunk_size,
}
use vjft.Crypt.Envelope.{copy_bytes, or_exit, rnd_arr}
use vjft.Key.{same_bytes}

-- `resize` of a vector of bytes
unfoldable pub resize : ℕ → List ℕ → List ℕ
resize n bytes = take n (bytes ++ replicate n 0)

-- The two bytes of a uint16_t, the low one first.
unfoldable pub len_bytes : ℕ → List ℕ
len_bytes n = (n % 256) ∷ ((n / 256 % 256) ∷ [])

-- `static_cast<uint16_t>`
abbrev pub cast_uint16 : ℕ → ℕ
cast_uint16 n = n % 65536

-- The loop of `split_vec`, with the rounds that it may take.
unfoldable pub split_from : ℕ → List ℕ → ℕ → ℕ → List (List ℕ)
split_from zero input size i = []
split_from (suc rounds) input size i =
    let rest = split_from rounds input size (i + size) in
    if ltb i (length input) then take (min size (length input - i)) (drop i input) ∷ rest else []

unfoldable pub split_vec : List ℕ → ℕ → List (List ℕ)
unfolding split_from
split_vec input size = split_from (length input) input size 0

-- `vec[i]`
unfoldable pub vec_at : List ℕ → ℕ → Run ℕ
vec_at bytes i = deref (get_elem? bytes i)

-- The number in two bytes from `offset` on.
unfoldable pub number_at : List ℕ → ℕ → Run ℕ
unfolding vec_at
number_at bytes offset =
    vec_at bytes offset >>= λ lo. vec_at bytes (suc offset) >>= λ hi. ok (lo + 256 * hi)

-- The vector of the `n` bytes from `begin() + offset` on.
unfoldable pub range : List ℕ → ℕ → ℕ → Run (List ℕ)
unfolding copy_bytes
range bytes offset n = copy_bytes n (drop offset bytes)

unfoldable pub form_envelope : (ℕ → ℕ) → List ℕ → List ℕ → List ℕ → List ℕ
unfolding rnd_arr len_bytes
form_envelope rand msg msg_crc msg_sign =
    let random_len = rand 0 % 256 in
    random_len
    ∷ (rnd_arr rand 1 random_len
        ++ (len_bytes (cast_uint16 (length msg)) ++ (msg_crc ++ (msg_sign ++ msg))))

-- The loop that extracts the encrypted chunks.
unfoldable pub extract_chunks : ℕ → List ℕ → Run (List (List ℕ))
extract_chunks zero pack = ok []
extract_chunks (suc count) pack = elim (ltb (length pack) enc_chunk_size) [
  | true ↦ exit
  | false ↦ extract_chunks count (drop enc_chunk_size pack) >>= λ chunks.
      ok (take enc_chunk_size pack ∷ chunks)
]

-- What `decipher` extracts from the envelope.
pub record Parts : Type 0 where
  pub msg_crc : List ℕ
  pub msg_sign : List ℕ
  pub msg : List ℕ

unfoldable pub extract_parts : List ℕ → Run Parts
unfolding vec_at number_at range
extract_parts envelope = vec_at envelope 0 >>= λ random_len.
    number_at envelope (suc random_len) >>= λ msg_size.
    range envelope (random_len + 3) hash_size >>= λ msg_crc.
    range envelope (random_len + 35) sig_size >>= λ msg_sign.
    range envelope (random_len + 547) msg_size >>= λ msg.
    ok (record { msg_crc = msg_crc; msg_sign = msg_sign; msg = msg })

module _ {Key : Type 0} (ssl : OpenSsl Key) where
  -- The array is zero where a call failed.
  unfoldable pub calc_crc : List ℕ → List ℕ
  calc_crc message =
      let zeros = replicate hash_size 0 in
      if not ssl.md_ctx_new
      then zeros
      else if not ssl.digest_init
      then zeros
      else elim (ssl.digest_final message) [ none ↦ zeros | some hash ↦ hash ]

  unfoldable pub verify_checksum : List ℕ → List ℕ → Bool
  unfolding calc_crc same_bytes
  verify_checksum message checksum = same_bytes (calc_crc message) checksum

  unfoldable pub sign : List ℕ → Key → Option (List ℕ)
  unfolding resize
  sign message private_key = require ssl.md_ctx_new (
      require (ssl.digest_sign_init private_key) (
        and_then (ssl.digest_sign_length private_key message) (λ siglen.
          require (siglen == sig_size) (
            and_then (ssl.digest_sign_final private_key message)
              (λ signature. some (resize sig_size signature))))))

  unfoldable pub encrypt : List ℕ → Key → Option (List ℕ)
  unfolding resize
  encrypt packed public_key = require (ssl.pkey_ctx_new public_key) (
      require (positive (ssl.encrypt_init public_key)) (
        require (positive (ssl.set_rsa_padding public_key)) (
          and_then (ssl.encrypt_length public_key packed) (λ encrypted_length.
            and_then (ssl.encrypt public_key packed)
              (λ encrypted. some (resize encrypted_length encrypted))))))

  unfoldable pub decrypt : List ℕ → Key → Option (List ℕ)
  unfolding resize
  decrypt encrypted_chunk private_key = require (ssl.pkey_ctx_new private_key) (
      require (positive (ssl.decrypt_init private_key)) (
        require (positive (ssl.set_rsa_padding private_key)) (
          and_then (ssl.decrypt_length private_key encrypted_chunk) (λ outlen.
            and_then (ssl.decrypt private_key encrypted_chunk) (λ out. some (resize outlen out))))))

  unfoldable pub sign_msg : List ℕ → Key → Option (List ℕ)
  sign_msg message private_key = require ssl.md_ctx_new (
      require (ssl.digest_sign_init private_key) (
        and_then (ssl.digest_sign_length private_key message)
          (λ siglen. ssl.digest_sign_final private_key message)))

  unfoldable pub verify_signature : List ℕ → List ℕ → Key → Bool
  verify_signature message signature public_key =
      if not ssl.md_ctx_new
      then false
      else if not (ssl.digest_verify_init public_key)
      then false
      else if not (ssl.digest_verify_update message)
      then false
      else eqb_ℤ (ssl.digest_verify_final public_key message signature) (pos 1)

  -- The loop that encrypts the chunks.
  unfoldable pub encrypt_all : Key → List (List ℕ) → Run (List (List ℕ))
  unfolding encrypt
  encrypt_all public_key [] = ok []
  encrypt_all public_key (chunk ∷ chunks) = or_exit (encrypt chunk public_key) >>= λ enc_chunk.
      encrypt_all public_key chunks >>= λ enc_chunks. ok (enc_chunk ∷ enc_chunks)

  unfoldable pub encipher : (ℕ → ℕ) → Key → Key → List ℕ → Run (List ℕ)
  unfolding calc_crc sign form_envelope split_vec encrypt_all len_bytes
  encipher rand private_key public_key msg = or_exit (sign msg private_key) >>= λ msg_sign.
      encrypt_all public_key (split_vec (form_envelope rand msg (calc_crc msg) msg_sign) chunk_size)
      >>= λ enc_chunks. ok (len_bytes (cast_uint16 (length enc_chunks)) ++ join enc_chunks)

  -- The loop that decrypts the chunks.
  unfoldable pub decrypt_all : Key → List (List ℕ) → Option (List (List ℕ))
  unfolding decrypt resize
  decrypt_all private_key [] = some []
  decrypt_all private_key (chunk ∷ chunks) = and_then (decrypt chunk private_key) (λ dec_chunk.
      and_then (decrypt_all private_key chunks)
        (λ dec_chunks. some (resize chunk_size dec_chunk ∷ dec_chunks)))

  -- The checks of `decipher`; the empty text is an error.
  unfoldable pub accept : Key → Parts → List ℕ
  unfolding verify_signature verify_checksum
  accept public_key parts =
      if not (verify_signature parts.msg parts.msg_sign public_key)
      then []
      else if not (verify_checksum parts.msg parts.msg_crc)
      then []
      else parts.msg

  -- `decipher` from the envelope on.
  unfoldable pub check_envelope : Key → List ℕ → Run (List ℕ)
  unfolding extract_parts accept
  check_envelope public_key envelope =
      extract_parts envelope >>= λ parts. ok (accept public_key parts)

  -- `decipher` from the decrypted chunks on.
  unfoldable pub join_chunks : Key → Option (List (List ℕ)) → Run (List ℕ)
  unfolding check_envelope
  join_chunks public_key none = ok []
  join_chunks public_key (some chunks) = check_envelope public_key (join chunks)

  unfoldable pub decipher : Key → Key → List ℕ → Run (List ℕ)
  unfolding number_at extract_chunks decrypt_all join_chunks
  decipher private_key public_key pack = number_at pack 0 >>= λ envelope_chunk_size.
      extract_chunks envelope_chunk_size (drop 2 pack) >>= λ enc_chunks.
      join_chunks public_key (decrypt_all private_key enc_chunks)
