-- ===== src/Tests/Ciphers.antt =====
-- The theorems on envelopes with a cipher that only pads.
use vjft.Prelude.{
  ℕ, ◌+◌, ◌%◌, ◌≢◌, ◌≡◌, refl, ap, false, List, ◌++◌, true, some, ok, fault, pos, codes,
}
use vjft.Prelude.{take, replicate, length-replicate, length-append, arith}
use vjft.Prelude.{take-append_length}
use vjft.Crypt.{OpenSsl}
use vjft.Crypt.Working.{IsDigest, IsSigner, IsCipher}
use vjft.Crypt.Envelope.{rnd_size, encipher, decipher, has_zero}
use vjft.Crypt.RoundTrip.{decipher-encipher, decipher_overreads}
use vjft.Crypt.Verified.{IsChecked, decipher-IsChecked}

abbrev pub padding_ssl : OpenSsl ℕ
padding_ssl = record {
  md_ctx_new = true;
  digest_init = true;
  digest_final = λ msg. some (replicate 32 7);
  digest_sign_init = λ key. true;
  digest_sign_length = λ key msg. some 512;
  digest_sign_final = λ key msg. some (replicate 512 key);
  digest_verify_init = λ key. true;
  digest_verify_update = λ msg. true;
  digest_verify_final = λ key msg sign. pos 1;
  pkey_ctx_new = λ key. true;
  set_rsa_padding = λ key. pos 1;
  encrypt_init = λ key. pos 1;
  encrypt_length = λ key chunk. some 512;
  encrypt = λ key chunk. some (chunk ++ replicate 257 0);
  decrypt_init = λ key. pos 1;
  decrypt_length = λ key enc. some 255;
  decrypt = λ key enc. some (take 255 enc);
}

padding_ssl-IsDigest : IsDigest padding_ssl
padding_ssl-IsDigest = record {
  context = refl;
  init = refl;
  hash = λ msg. (replicate 32 7, refl, length-replicate {A = ℕ} 32 7);
}

padding_ssl-IsSigner : (private_key public_key : ℕ) → IsSigner padding_ssl private_key public_key
padding_ssl-IsSigner private_key public_key = record {
  sign_init = refl;
  verify_init = refl;
  update = λ msg. refl;
  sign_length = λ msg. (512, refl);
  sign = λ msg. (replicate 512 private_key, refl, length-replicate {A = ℕ} 512 private_key, refl);
}

padding_ssl-IsCipher : (private_key public_key : ℕ) → IsCipher padding_ssl private_key public_key
padding_ssl-IsCipher private_key public_key = record {
  encrypt_context = refl;
  decrypt_context = refl;
  encrypt_init = refl;
  decrypt_init = refl;
  encrypt_padding = refl;
  decrypt_padding = refl;
  encrypt_length = λ chunk. (512, refl);
  decrypt_length = λ enc. (255, refl);
  encrypt = λ chunk size. (
    chunk ++ replicate 257 0,
    refl,
    omega (arith, length-append chunk (replicate 257 0), length-replicate {A = ℕ} 257 0),
    ap some (rw size at (take-append_length chunk (replicate 257 0))),
  );
}

not_full : (547 + rnd_size (λ i. 5) + 2) % 255 ≢ 0
unfolding rnd_size
not_full = omega arith

full : (547 + rnd_size (λ i. 216) + 2) % 255 ≡ 0
unfolding rnd_size
full = refl

text : has_zero (codes "hi") ≡ false
unfolding has_zero
text = refl

decipher-encipher_example :
    (pack : List ℕ) × (encipher padding_ssl (λ i. 5) 1 2 (codes "hi") (pos 2) ≡ ok pack)
    × (decipher padding_ssl 3 4 pack ≡ ok (some (codes "hi")))
decipher-encipher_example =
    decipher-encipher padding_ssl 1 4 3 2 padding_ssl-IsDigest (padding_ssl-IsSigner 1 4)
      (padding_ssl-IsCipher 3 2) (λ i. 5) (codes "hi") (omega arith) not_full text

decipher_overreads_example :
    (pack : List ℕ) × (encipher padding_ssl (λ i. 216) 1 2 (codes "hi") (pos 2) ≡ ok pack)
    × (decipher padding_ssl 3 4 pack ≡ fault)
decipher_overreads_example =
    decipher_overreads padding_ssl 1 4 3 2 padding_ssl-IsDigest (padding_ssl-IsSigner 1 4)
      (padding_ssl-IsCipher 3 2) (λ i. 216) (codes "hi") (omega arith) full text

decipher-IsChecked_example : IsChecked padding_ssl 3 4 decipher-encipher_example.0 (codes "hi")
decipher-IsChecked_example =
    decipher-IsChecked padding_ssl 3 4 decipher-encipher_example.0 (codes "hi")
      decipher-encipher_example.2
