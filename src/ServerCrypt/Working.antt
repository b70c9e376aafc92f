-- ===== src/ServerCrypt/Working.antt =====
-- What srv/Crypt.cpp relies on of OpenSSL where no call of it fails, beyond what Crypt.Working says of
-- digests and signatures: with RSA keys of 4096 bits an encrypted chunk and a signature have 512 bytes,
-- a chunk of up to 255 bytes leaves room for the OAEP padding, and the buffer for a decrypted chunk is
-- no smaller than a chunk.
use vjft.Prelude.{ℕ, zero, suc, ◌+◌, ◌-◌, ◌≤◌, ◌≡◌, refl, sym, ap, List, [], ◌∷◌, ◌++◌}
use vjft.Prelude.{
  true, some, pos, length, take, replicate, take-append_length, append_assoc, replicate-add, arith,
}
use vjft.Crypt.{OpenSsl}
use vjft.Crypt.Working.{IsDigest, IsSigner}
use vjft.ServerCrypt.{resize, sign, encrypt, decrypt, calc_crc, verify_signature}

-- A vector that has its size, and one that grows.
pub resize_same : (n : ℕ) (bytes : List ℕ) → length bytes ≡ n → resize n bytes ≡ bytes
unfolding resize
resize_same n bytes size = rw (sym size) (take-append_length bytes (replicate (length bytes) 0))

take-replicate : (n m : ℕ) → n ≤ m → take {A = ℕ} n (replicate m 0) ≡ replicate n 0
take-replicate zero m h = refl
take-replicate (suc n) zero h = absurd (omega arith)
take-replicate (suc n) (suc m) h = ap (0 ∷◌) (take-replicate n m (omega arith))

take_padded :
    (n m : ℕ) (bytes : List ℕ)
    → length bytes ≤ n
    → n ≤ length bytes + m
    → take n (bytes ++ replicate m 0) ≡ bytes ++ replicate (n - length bytes) 0
take_padded n m [] h k =
    let same : n - 0 ≡ n = omega arith in rw same (take-replicate n m (omega arith))
take_padded zero m (b ∷ bytes) h k = absurd (omega arith)
take_padded (suc n) m (b ∷ bytes) h k =
    let same : suc n - suc (length bytes) ≡ n - length bytes = omega arith in
    rw same (ap (b ∷◌) (take_padded n m bytes (omega arith) (omega arith)))

pub resize_grow :
    (n : ℕ) (bytes : List ℕ)
    → length bytes ≤ n
    → resize n bytes ≡ bytes ++ replicate (n - length bytes) 0
unfolding resize
resize_grow n bytes h = take_padded n n bytes h (omega arith)

cut :
    (n left : ℕ) (bytes : List ℕ)
    → length bytes ≤ n
    → n ≤ length bytes + left
    → resize n (bytes ++ replicate left 0) ≡ bytes ++ replicate (n - length bytes) 0
unfolding resize
cut n left bytes h k =
    rw (append_assoc bytes (replicate left 0) (replicate n 0), sym (replicate-add {A = ℕ} left n 0))
      (take_padded n (left + n) bytes h (omega arith))

-- Growing first and cutting then is growing to the second size.
pub resize-resize :
    (n m : ℕ) (bytes : List ℕ)
    → length bytes ≤ n
    → n ≤ m
    → resize n (resize m bytes) ≡ resize n bytes
resize-resize n m bytes h k =
    rw (resize_grow m bytes (omega arith), resize_grow n bytes h)
      (cut n (m - length bytes) bytes h (omega arith))

module _ {Key : Type 0} (ssl : OpenSsl Key) where
  pub record IsRsa (private_key public_key : Key) : Type 0 where
    pub encrypt_context : ssl.pkey_ctx_new public_key ≡ true
    pub decrypt_context : ssl.pkey_ctx_new private_key ≡ true
    pub encrypt_init : ssl.encrypt_init public_key ≡ pos 1
    pub decrypt_init : ssl.decrypt_init private_key ≡ pos 1
    pub encrypt_padding : ssl.set_rsa_padding public_key ≡ pos 1
    pub decrypt_padding : ssl.set_rsa_padding private_key ≡ pos 1
    pub encrypt_length : (chunk : List ℕ) → ssl.encrypt_length public_key chunk ≡ some 512
    pub decrypt_length :
        (enc : List ℕ) → (n : ℕ) × (ssl.decrypt_length private_key enc ≡ some n) × (255 ≤ n)
    pub encrypt :
        (chunk : List ℕ)
        → length chunk ≤ 255
        → (enc : List ℕ) × (ssl.encrypt public_key chunk ≡ some enc)
          × (length enc ≡ 512)
          × (ssl.decrypt private_key enc ≡ some chunk)

  pub encrypt-IsRsa :
      (private_key public_key : Key) (chunk : List ℕ)
      → IsRsa private_key public_key
      → length chunk ≤ 255
      → (enc : List ℕ) × (n : ℕ) × (encrypt ssl chunk public_key ≡ some enc)
        × (length enc ≡ 512)
        × (decrypt ssl enc private_key ≡ some (resize n chunk))
        × (255 ≤ n)
  unfolding encrypt decrypt
  encrypt-IsRsa private_key public_key chunk rsa size =
      let (enc, found, enc_size, back) = rsa.encrypt chunk size in
      let (n, known, room) = rsa.decrypt_length enc in
      (
        enc,
        n,
        rw
            (
              rsa.encrypt_context,
              rsa.encrypt_init,
              rsa.encrypt_padding,
              rsa.encrypt_length chunk,
              found,
            )
            (ap some (resize_same 512 enc enc_size)),
        enc_size,
        rw (rsa.decrypt_context, rsa.decrypt_init, rsa.decrypt_padding, known, back) refl,
        room,
      )

  -- The first call of `EVP_DigestSignFinal` gives the size of a signature.
  unfoldable pub SignsWhole : Key → Type 0
  SignsWhole private_key = (msg : List ℕ) → ssl.digest_sign_length private_key msg ≡ some 512

  pub sign-IsSigner :
      (private_key public_key : Key) (msg : List ℕ)
      → IsDigest ssl
      → IsSigner ssl private_key public_key
      → SignsWhole private_key
      → (s : List ℕ) × (sign ssl msg private_key ≡ some s)
        × (length s ≡ 512)
        × (verify_signature ssl msg s public_key ≡ true)
  unfolding sign verify_signature SignsWhole
  sign-IsSigner private_key public_key msg digest signer whole =
      let (s, found, size, verified) = signer.sign msg in
      (
        s,
        rw (digest.context, signer.sign_init, whole msg, found) (ap some (resize_same 512 s size)),
        size,
        rw (digest.context, signer.verify_init, signer.update msg, verified) refl,
      )

  pub calc_crc-IsDigest : (msg : List ℕ) → IsDigest ssl → length (calc_crc ssl msg) ≡ 32
  unfolding calc_crc
  calc_crc-IsDigest msg digest =
      let (h, found, size) = digest.hash msg in rw (digest.context, digest.init, found) size
