-- ===== src/Crypt.antt =====
-- term/crypt.c: the calls of OpenSSL, each with its guards, and the split into chunks. Memory is not
-- exhausted. A result `none` is the null pointer or the -1 of a call that failed.
pub mod Chunks
pub mod Working
pub mod Envelope
pub mod Parse
pub mod Packing
pub mod RoundTrip
pub mod Verified
use vjft.Keyboard.{c_string}
use vjft.Prelude.{
  ℕ, zero, suc, ◌+◌, ◌-◌, ◌/◌, ◌%◌, List, [], ◌∷◌, ◌++◌, Bool, true, false, not, ltb,
}
use vjft.Prelude.{leb, ◌==◌, if◌then◌else◌, ℤ, pos, negsuc, leb_ℤ, eqb_ℤ, Option, none, some}
use vjft.Prelude.{Run, ok, fault, length, take, drop, replicate, ◌≡◌}

-- term/defs.h
abbrev pub sig_size : ℕ
sig_size = 512

abbrev pub hash_size : ℕ
hash_size = 32

abbrev pub chunk_size : ℕ
chunk_size = 255

abbrev pub enc_chunk_size : ℕ
enc_chunk_size = 512

-- What the code calls of OpenSSL, with the keys that it hands on. A call that writes bytes returns
-- them, or `none` if it reports an error; a length in front is the call with a null buffer.
pub record OpenSsl (Key : Type 0) : Type 0 where
  pub md_ctx_new : Bool
  pub digest_init : Bool
  -- EVP_DigestUpdate and EVP_DigestFinal_ex with SHA-256
  pub digest_final : List ℕ → Option (List ℕ)
  pub digest_sign_init : Key → Bool
  -- EVP_DigestSignUpdate and EVP_DigestSignFinal with SHA-256
  pub digest_sign_length : Key → List ℕ → Option ℕ
  pub digest_sign_final : Key → List ℕ → Option (List ℕ)
  pub digest_verify_init : Key → Bool
  -- EVP_DigestVerifyUpdate and EVP_DigestVerifyFinal: message, signature
  pub digest_verify_update : List ℕ → Bool
  pub digest_verify_final : Key → List ℕ → List ℕ → ℤ
  pub pkey_ctx_new : Key → Bool
  pub set_rsa_padding : Key → ℤ
  pub encrypt_init : Key → ℤ
  pub encrypt_length : Key → List ℕ → Option ℕ
  pub encrypt : Key → List ℕ → Option (List ℕ)
  pub decrypt_init : Key → ℤ
  pub decrypt_length : Key → List ℕ → Option ℕ
  pub decrypt : Key → List ℕ → Option (List ℕ)

-- A guard with an early return of an error.
abbrev pub require {ℓ} : {A : Type ℓ} → Bool → Option A → Option A
require true rest = rest
require false rest = none

-- The next step, if the one before succeeded.
abbrev pub and_then {ℓ κ} : {A : Type ℓ} {B : Type κ} → Option A → (A → Option B) → Option B
and_then none next = none
and_then (some a) next = next a

-- `ret > 0`
abbrev pub positive : ℤ → Bool
positive ret = not (leb_ℤ ret (pos 0))

module _ {Key : Type 0} (ssl : OpenSsl Key) where
  unfoldable pub calc_crc : List ℕ → Option (List ℕ)
  calc_crc msg = require ssl.md_ctx_new (
      require ssl.digest_init
        (and_then (ssl.digest_final msg) (λ hash. require (length hash == hash_size) (some hash))))

  -- The length of what is signed comes from `strlen`.
  unfoldable pub calc_sign : List ℕ → Key → Option (List ℕ)
  calc_sign msg key = require ssl.md_ctx_new (
      require (ssl.digest_sign_init key) (
        and_then (ssl.digest_sign_length key (c_string msg))
          (λ sign_len. ssl.digest_sign_final key (c_string msg))))

  unfoldable pub encrypt_chunk : List ℕ → Key → Option (List ℕ)
  encrypt_chunk chunk public_key = require (ssl.pkey_ctx_new public_key) (
      require (positive (ssl.encrypt_init public_key)) (
        require (positive (ssl.set_rsa_padding public_key)) (
          and_then (ssl.encrypt_length public_key chunk)
            (λ encrypted_length. ssl.encrypt public_key chunk))))

  unfoldable pub decrypt_chunk : List ℕ → Key → Option (List ℕ)
  decrypt_chunk encrypted_chunk private_key = require (ssl.pkey_ctx_new private_key) (
      require (positive (ssl.decrypt_init private_key)) (
        require (positive (ssl.set_rsa_padding private_key)) (
          and_then (ssl.decrypt_length private_key encrypted_chunk)
            (λ outlen. ssl.decrypt private_key encrypted_chunk))))

  unfoldable pub verify_sign : List ℕ → List ℕ → Key → ℤ
  verify_sign msg sign key =
      if not ssl.md_ctx_new
      then negsuc 0
      else if not (ssl.digest_verify_init key)
      then negsuc 0
      else if not (ssl.digest_verify_update msg)
      then negsuc 0
      else if not (eqb_ℤ (ssl.digest_verify_final key msg sign) (pos 1))
      then negsuc 0
      else pos 1

-- The loop of `split_buffer`, with the chunks that are left as rounds.
unfoldable pub split_loop : ℕ → List ℕ → ℕ → ℕ → List (List ℕ)
split_loop zero buffer size offset = []
split_loop (suc rounds) buffer size offset =
    let bytes_to_copy =
      if ltb (length buffer) (offset + size) then length buffer - offset else size in
    (take bytes_to_copy (drop offset buffer) ++ replicate (size - bytes_to_copy) 0)
    ∷ split_loop rounds buffer size (offset + bytes_to_copy)

unfoldable pub num_chunks : ℕ → ℕ → ℕ
num_chunks buffer_length size =
    if buffer_length % size == 0 then buffer_length / size else buffer_length / size + 1

-- `split_buffer` of a buffer that is not null, with its size as `buffer_length`.
unfoldable pub split_buffer : List ℕ → ℕ → Option (List (List ℕ))
unfolding split_loop num_chunks
split_buffer buffer zero = none
split_buffer buffer (suc size) =
    some (split_loop (num_chunks (length buffer) (suc size)) buffer (suc size) 0)
