-- ===== src/Crypt/Packing.antt =====
-- term/crypt.c: the chunks that `decipher` decrypts are those that `encipher` encrypted.
use vjft.Prelude.{ℕ, suc, ◌≡◌, refl, ap, ◌>>=◌, List, [], ◌∷◌, ◌++◌, ok, some, length, drop, join}
use vjft.Prelude.{All, ◌==◌, true, arith, drop-append_length}
use vjft.Crypt.{OpenSsl, chunk_size, enc_chunk_size, decrypt_chunk}
use vjft.Crypt.Working.{IsCipher, encrypt_chunk-IsCipher}
use vjft.Crypt.Envelope.{encrypt_chunks, decrypt_chunks, or_exit}
use vjft.Crypt.Parse.{copy_bytes-append}

module _ {Key : Type 0} (ssl : OpenSsl Key) (private_key public_key : Key)
    (cipher : IsCipher ssl private_key public_key) where
  decrypt_chunks-suc :
      (enc chunk rest : List ℕ) (n : ℕ)
      → length enc ≡ enc_chunk_size
      → length chunk ≡ chunk_size
      → decrypt_chunk ssl enc private_key ≡ some chunk
      → (chunks : List (List ℕ)) → decrypt_chunks ssl private_key n rest ≡ ok (some chunks)
      → decrypt_chunks ssl private_key (suc n) (enc ++ rest) ≡ ok (some (chunk ∷ chunks))
  unfolding decrypt_chunks
  decrypt_chunks-suc enc chunk rest n enc_size size back chunks h =
      let whole : (length chunk == chunk_size) ≡ true = ground arith in
      let behind : drop enc_chunk_size (enc ++ rest) ≡ rest =
        rw enc_size at (drop-append_length enc rest) in
      rw (copy_bytes-append enc_chunk_size enc rest enc_size, ◌>>=◌, back, whole, behind, h) refl

  -- Whole chunks are encrypted without an error, to as many chunks; put in a row, they are decrypted
  -- to the chunks they were made of.
  pub decrypt_chunks-encrypt_chunks :
      (chunks : List (List ℕ))
      → All (λ c. length c ≡ chunk_size) chunks
      → (encs : List (List ℕ)) × (encrypt_chunks ssl public_key chunks ≡ ok encs)
        × (length encs ≡ length chunks)
        × (decrypt_chunks ssl private_key (length chunks) (join encs) ≡ ok (some chunks))
  unfolding encrypt_chunks decrypt_chunks
  decrypt_chunks-encrypt_chunks [] sizes = ([], refl, refl, refl)
  decrypt_chunks-encrypt_chunks (chunk ∷ chunks) (size, sizes) =
      let (enc, found, enc_size, back) =
        encrypt_chunk-IsCipher ssl private_key public_key chunk cipher size in
      let (encs, founds, count, backs) = decrypt_chunks-encrypt_chunks chunks sizes in
      let whole : (length enc == enc_chunk_size) ≡ true = ground arith in
      (
        enc ∷ encs,
        rw (found, or_exit, ◌>>=◌, whole, founds) refl,
        ap suc count,
        decrypt_chunks-suc enc chunk (join encs) (length chunks) enc_size size back chunks backs,
      )
