-- ===== src/Tests/Packs.antt =====
-- The theorems on the packs of the C++ chat, with a cipher that writes the length of a chunk in front.
use vjft.Prelude.{ℕ, ◌-◌, ◌≡◌, refl, ap, List, [], ◌∷◌, ◌++◌, true, Option, none, some}
use vjft.Prelude.{ok, fault, codes, length, take, drop, join, replicate, length-replicate, arith}
use vjft.Prelude.{length-append, take-append_length}
use vjft.Crypt.{OpenSsl}
use vjft.Crypt.Working.{IsDigest, IsSigner}
use vjft.Tests.Ciphers.{padding_ssl}
use vjft.ServerCrypt.{encipher, decipher, number_at, extract_chunks, decrypt_all, vec_at, Parts}
use vjft.ServerCrypt.{extract_parts, verify_signature, verify_checksum}
use vjft.ServerCrypt.Working.{IsRsa, SignsWhole}
use vjft.ServerCrypt.RoundTrip.{server_decipher-encipher}
use vjft.ServerCrypt.Verified.{server_decipher_overreads, server_decipher-IsChecked}

unfoldable pub unlocked : List ℕ → Option (List ℕ)
unlocked [] = none
unlocked (n ∷ bytes) = some (take n bytes)

abbrev pub length_ssl : OpenSsl ℕ
length_ssl = record padding_ssl {
  encrypt = λ key chunk. some (length chunk ∷ (chunk ++ replicate (511 - length chunk) 0));
  decrypt_length = λ key enc. some 512;
  decrypt = λ key enc. unlocked enc;
}

pub length_ssl-IsDigest : IsDigest length_ssl
length_ssl-IsDigest = record {
  context = refl;
  init = refl;
  hash = λ msg. (replicate 32 7, refl, length-replicate {A = ℕ} 32 7);
}

pub length_ssl-IsSigner : (private_key public_key : ℕ) → IsSigner length_ssl private_key public_key
length_ssl-IsSigner private_key public_key = record {
  sign_init = refl;
  verify_init = refl;
  update = λ msg. refl;
  sign_length = λ msg. (512, refl);
  sign = λ msg. (replicate 512 private_key, refl, length-replicate {A = ℕ} 512 private_key, refl);
}

pub length_ssl-SignsWhole : (private_key : ℕ) → SignsWhole length_ssl private_key
unfolding SignsWhole
length_ssl-SignsWhole private_key msg = refl

pub length_ssl-IsRsa : (private_key public_key : ℕ) → IsRsa length_ssl private_key public_key
unfolding unlocked
length_ssl-IsRsa private_key public_key = record {
  encrypt_context = refl;
  decrypt_context = refl;
  encrypt_init = refl;
  decrypt_init = refl;
  encrypt_padding = refl;
  decrypt_padding = refl;
  encrypt_length = λ chunk. refl;
  decrypt_length = λ enc. (512, refl, omega arith);
  encrypt = λ chunk size. (
    length chunk ∷ (chunk ++ replicate (511 - length chunk) 0),
    refl,
    omega (
      arith,
      length-append chunk (replicate (511 - length chunk) 0),
      length-replicate {A = ℕ} (511 - length chunk) 0,
    ),
    ap some (take-append_length chunk (replicate (511 - length chunk) 0)),
  );
}

server_decipher-encipher_example :
    (pack : List ℕ) × (encipher length_ssl (λ i. 0) 1 2 (codes "hi") ≡ ok pack)
    × (decipher length_ssl 3 4 pack ≡ ok (codes "hi"))
server_decipher-encipher_example =
    server_decipher-encipher length_ssl 1 4 3 2 length_ssl-IsDigest (length_ssl-IsSigner 1 4)
      (length_ssl-SignsWhole 1) (length_ssl-IsRsa 3 2) (λ i. 0) (codes "hi") (omega arith)

server_decipher-IsChecked_example :
    (count : ℕ) × (encs chunks : List (List ℕ)) × (parts : Parts) × (number_at
        server_decipher-encipher_example.0 0
      ≡ ok count)
    × (extract_chunks count (drop 2 server_decipher-encipher_example.0) ≡ ok encs)
    × (decrypt_all length_ssl 3 encs ≡ some chunks)
    × (extract_parts (join chunks) ≡ ok parts)
    × (parts.msg ≡ codes "hi")
    × (verify_signature length_ssl parts.msg parts.msg_sign 4 ≡ true)
    × (verify_checksum length_ssl parts.msg parts.msg_crc ≡ true)
server_decipher-IsChecked_example =
    server_decipher-IsChecked length_ssl 3 4 server_decipher-encipher_example.0 b'h' (codes "i")
      server_decipher-encipher_example.2

-- A pack without chunks.
no_chunks : number_at (0 ∷ (0 ∷ [])) 0 ≡ ok 0
unfolding number_at vec_at
no_chunks = refl

none_extracted : extract_chunks 0 [] ≡ ok []
unfolding extract_chunks
none_extracted = refl

none_decrypted : decrypt_all length_ssl 3 [] ≡ some []
unfolding decrypt_all
none_decrypted = refl

server_decipher_overreads_example : decipher length_ssl 3 4 (0 ∷ (0 ∷ [])) ≡ fault
server_decipher_overreads_example =
    server_decipher_overreads length_ssl 3 4 (0 ∷ (0 ∷ [])) 0 [] [] no_chunks none_extracted
      none_decrypted (omega arith)
