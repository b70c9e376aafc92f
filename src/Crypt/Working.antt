-- ===== src/Crypt/Working.antt =====
-- What term/crypt.c relies on of OpenSSL where no call of it fails: SHA-256 gives 32 bytes, and the
-- keys are pairs of RSA keys of 4096 bits, so that signatures and encrypted chunks have 512 bytes,
-- and a chunk of 255 bytes leaves room for the OAEP padding.
use vjft.Keyboard.{c_string}
use vjft.Prelude.{ℕ, ◌≡◌, refl, List, true, some, pos, length}
use vjft.Crypt.{OpenSsl, calc_crc, calc_sign, encrypt_chunk, decrypt_chunk, verify_sign}

module _ {Key : Type 0} (ssl : OpenSsl Key) where
  pub record IsDigest : Type 0 where
    pub context : ssl.md_ctx_new ≡ true
    pub init : ssl.digest_init ≡ true
    pub hash : (msg : List ℕ) → (h : List ℕ) × (ssl.digest_final msg ≡ some h) × (length h ≡ 32)

  -- The public key checks what the private key signs.
  pub record IsSigner (private_key public_key : Key) : Type 0 where
    pub sign_init : ssl.digest_sign_init private_key ≡ true
    pub verify_init : ssl.digest_verify_init public_key ≡ true
    pub update : (msg : List ℕ) → ssl.digest_verify_update msg ≡ true
    pub sign_length : (msg : List ℕ) → (n : ℕ) × (ssl.digest_sign_length private_key msg ≡ some n)
    pub sign :
        (msg : List ℕ)
        → (s : List ℕ) × (ssl.digest_sign_final private_key msg ≡ some s)
          × (length s ≡ 512)
          × (ssl.digest_verify_final public_key msg s ≡ pos 1)

  -- The private key decrypts what the public key encrypts.
  pub record IsCipher (private_key public_key : Key) : Type 0 where
    pub encrypt_context : ssl.pkey_ctx_new public_key ≡ true
    pub decrypt_context : ssl.pkey_ctx_new private_key ≡ true
    pub encrypt_init : ssl.encrypt_init public_key ≡ pos 1
    pub decrypt_init : ssl.decrypt_init private_key ≡ pos 1
    pub encrypt_padding : ssl.set_rsa_padding public_key ≡ pos 1
    pub decrypt_padding : ssl.set_rsa_padding private_key ≡ pos 1
    pub encrypt_length : (chunk : List ℕ) → (n : ℕ) × (ssl.encrypt_length public_key chunk ≡ some n)
    pub decrypt_length : (enc : List ℕ) → (n : ℕ) × (ssl.decrypt_length private_key enc ≡ some n)
    pub encrypt :
        (chunk : List ℕ)
        → length chunk ≡ 255
        → (enc : List ℕ) × (ssl.encrypt public_key chunk ≡ some enc)
          × (length enc ≡ 512)
          × (ssl.decrypt private_key enc ≡ some chunk)

  pub calc_crc-IsDigest :
      IsDigest → (msg : List ℕ) → (h : List ℕ) × (calc_crc ssl msg ≡ some h) × (length h ≡ 32)
  unfolding calc_crc
  calc_crc-IsDigest digest msg =
      let (h, found, size) = digest.hash msg in
      (h, rw (digest.context, digest.init, found, size) refl, size)

  pub calc_sign-IsSigner :
      (private_key public_key : Key) (msg : List ℕ)
      → IsDigest
      → IsSigner private_key public_key
      → c_string msg ≡ msg
      → (s : List ℕ) × (calc_sign ssl msg private_key ≡ some s)
        × (length s ≡ 512)
        × (verify_sign ssl msg s public_key ≡ pos 1)
  unfolding calc_sign verify_sign
  calc_sign-IsSigner private_key public_key msg digest signer text =
      let (s, found, size, verified) = signer.sign msg in
      let (n, known) = signer.sign_length msg in
      (
        s,
        rw (calc_sign, text, digest.context, signer.sign_init, known, found) refl,
        size,
        rw (digest.context, signer.verify_init, signer.update msg, verified) refl,
      )

  pub encrypt_chunk-IsCipher :
      (private_key public_key : Key) (chunk : List ℕ)
      → IsCipher private_key public_key
      → length chunk ≡ 255
      → (enc : List ℕ) × (encrypt_chunk ssl chunk public_key ≡ some enc)
        × (length enc ≡ 512)
        × (decrypt_chunk ssl enc private_key ≡ some chunk)
  unfolding encrypt_chunk decrypt_chunk
  encrypt_chunk-IsCipher private_key public_key chunk cipher size =
      let (enc, found, enc_size, back) = cipher.encrypt chunk size in
      let (n, known) = cipher.encrypt_length chunk in
      let (m, known') = cipher.decrypt_length enc in
      (
        enc,
        rw (cipher.encrypt_context, cipher.encrypt_init, cipher.encrypt_padding, known, found) refl,
        enc_size,
        rw (cipher.decrypt_context, cipher.decrypt_init, cipher.decrypt_padding, known', back) refl,
      )
