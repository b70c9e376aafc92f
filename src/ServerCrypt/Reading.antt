-- ===== src/ServerCrypt/Reading.antt =====
-- srv/Crypt.cpp: `decipher` extracts what `encipher` wrote.
use vjft.Prelude.{◌*◌, ℕ, suc, ◌+◌, ◌/◌, ◌%◌, ◌<◌, ◌≤◌, ◌≡◌, refl, sym, ap, ◌∙◌, List, []}
use vjft.Prelude.{◌∷◌, ◌++◌, append_assoc, some, ok, ◌>>=◌, deref, length, drop, take}
use vjft.Prelude.{join, get_elem?, arith, false, ltb, All, map}
use vjft.Prelude.{length-append, take-append_length, drop-append_length}
use native.Mathlib.Nat.{suc-mul}
use vjft.Crypt.{OpenSsl, chunk_size, enc_chunk_size, hash_size, sig_size, and_then}
use vjft.Crypt.Envelope.{rnd_arr, or_exit}
use vjft.Crypt.Parse.{copy_bytes-append, length-rnd_arr}
use vjft.ServerCrypt.{resize, len_bytes, cast_uint16, vec_at, number_at, range, form_envelope}
use vjft.ServerCrypt.{extract_chunks, extract_parts, encrypt_all, decrypt_all}
use vjft.ServerCrypt.Working.{IsRsa, encrypt-IsRsa, resize-resize}

get_elem?-append : (xs ys : List ℕ) (i : ℕ) → get_elem? (xs ++ ys) (length xs + i) ≡ get_elem? ys i
get_elem?-append [] ys i = ap (get_elem? ys) (omega arith)
get_elem?-append (x ∷ xs) ys i =
    let here : suc (length xs) + i ≡ suc (length xs + i) = omega arith in
    rw here (get_elem?-append xs ys i)

-- The number behind some bytes.
pub number_at-len_bytes :
    (xs : List ℕ) (n : ℕ) (rest : List ℕ)
    → n < 65536
    → number_at (xs ++ (len_bytes n ++ rest)) (length xs) ≡ ok n
unfolding number_at vec_at len_bytes
number_at-len_bytes xs n rest small =
    let bytes = (n % 256) ∷ ((n / 256 % 256) ∷ rest) in
    let lo : get_elem? (xs ++ bytes) (length xs) ≡ some (n % 256) =
      ap (get_elem? (xs ++ bytes)) {x = length xs} {y = length xs + 0} (omega arith)
      ∙ get_elem?-append xs bytes 0 in
    let hi : get_elem? (xs ++ bytes) (suc (length xs)) ≡ some (n / 256 % 256) =
      ap (get_elem? (xs ++ bytes)) {x = suc (length xs)} {y = length xs + 1} (omega arith)
      ∙ get_elem?-append xs bytes 1 in
    rw (lo, deref, ◌>>=◌, hi, deref, ◌>>=◌) (ap ok (omega arith))

range-append :
    (before xs rest : List ℕ) (offset n : ℕ)
    → length before ≡ offset
    → length xs ≡ n
    → range (before ++ (xs ++ rest)) offset n ≡ ok xs
unfolding range
range-append before xs rest offset n at size =
    rw (sym at, drop-append_length before (xs ++ rest)) (copy_bytes-append n xs rest size)

extract_parts-layout :
    (n : ℕ) (rnd msg crc sign zeros : List ℕ)
    → length rnd ≡ n
    → length msg < 65536
    → length crc ≡ hash_size
    → length sign ≡ sig_size
    → extract_parts ((n ∷ rnd) ++ (len_bytes (length msg) ++ (crc ++ (sign ++ (msg ++ zeros)))))
      ≡ ok (record { msg_crc = crc; msg_sign = sign; msg = msg })
unfolding extract_parts vec_at
extract_parts-layout n rnd msg crc sign zeros rnd_size small crc_size sign_size =
    let head = n ∷ rnd in
    let two = len_bytes (length msg) in
    let two_size : length two ≡ 2 = unfold len_bytes in refl in
    let e = head ++ (two ++ (crc ++ (sign ++ (msg ++ zeros)))) in
    let before_crc = head ++ two in
    let before_sign = before_crc ++ crc in
    let before_msg = before_sign ++ sign in
    let at_crc : e ≡ before_crc ++ (crc ++ (sign ++ (msg ++ zeros))) = simp append_assoc in
    let at_sign : e ≡ before_sign ++ (sign ++ (msg ++ zeros)) = simp append_assoc in
    let at_msg : e ≡ before_msg ++ (msg ++ zeros) = simp append_assoc in
    let crc_offset : length before_crc ≡ n + 3 =
      omega (arith, length-append {A = ℕ} head two, two_size) in
    let sign_offset : length before_sign ≡ n + 35 =
      omega (arith, length-append {A = ℕ} before_crc crc) in
    let msg_offset : length before_msg ≡ n + 547 =
      omega (arith, length-append {A = ℕ} before_sign sign) in
    let number : number_at e (suc n) ≡ ok (length msg) =
      rw rnd_size at
        (number_at-len_bytes head (length msg) (crc ++ (sign ++ (msg ++ zeros))) small) in
    let crc_read : range e (n + 3) hash_size ≡ ok crc =
      ap (λ b. range b (n + 3) hash_size) at_crc
      ∙ range-append before_crc crc _ (n + 3) hash_size crc_offset crc_size in
    let sign_read : range e (n + 35) sig_size ≡ ok sign =
      ap (λ b. range b (n + 35) sig_size) at_sign
      ∙ range-append before_sign sign _ (n + 35) sig_size sign_offset sign_size in
    let msg_read : range e (n + 547) (length msg) ≡ ok msg =
      ap (λ b. range b (n + 547) (length msg)) at_msg
      ∙ range-append before_msg msg zeros (n + 547) (length msg) msg_offset refl in
    rw (number, ◌>>=◌, crc_read, ◌>>=◌, sign_read, ◌>>=◌, msg_read, ◌>>=◌) refl

flatten :
    (head two crc sign msg zeros : List ℕ)
    → (head ++ (two ++ (crc ++ (sign ++ msg)))) ++ zeros
      ≡ head ++ (two ++ (crc ++ (sign ++ (msg ++ zeros))))
flatten head two crc sign msg zeros = simp append_assoc

-- Whatever stands behind the envelope.
pub extract_parts-form_envelope :
    (rand : ℕ → ℕ) (msg crc sign zeros : List ℕ)
    → length msg < 65536
    → length crc ≡ hash_size
    → length sign ≡ sig_size
    → extract_parts (form_envelope rand msg crc sign ++ zeros)
      ≡ ok (record { msg_crc = crc; msg_sign = sign; msg = msg })
unfolding form_envelope
extract_parts-form_envelope rand msg crc sign zeros small crc_size sign_size =
    let n = rand 0 % 256 in
    let rnd = rnd_arr rand 1 n in
    let narrow : cast_uint16 (length msg) ≡ length msg = omega arith in
    ap extract_parts (
      flatten (n ∷ rnd) (len_bytes (cast_uint16 (length msg))) crc sign msg zeros
      ∙ ap (λ k. (n ∷ rnd) ++ (len_bytes k ++ (crc ++ (sign ++ (msg ++ zeros))))) narrow)
    ∙ extract_parts-layout n rnd msg crc sign zeros (length-rnd_arr rand 1 n) small crc_size
        sign_size

extract_chunks-suc :
    (count : ℕ) (enc rest : List ℕ) (encs : List (List ℕ))
    → length enc ≡ enc_chunk_size
    → extract_chunks count rest ≡ ok encs
    → extract_chunks (suc count) (enc ++ rest) ≡ ok (enc ∷ encs)
unfolding extract_chunks
extract_chunks-suc count enc rest encs size h =
    let whole : ltb (length (enc ++ rest)) enc_chunk_size ≡ false =
      ground (arith, length-append {A = ℕ} enc rest) in
    let front : take enc_chunk_size (enc ++ rest) ≡ enc =
      rw size at (take-append_length enc rest) in
    let behind : drop enc_chunk_size (enc ++ rest) ≡ rest =
      rw size at (drop-append_length enc rest) in
    rw (extract_chunks, whole, behind, h, ◌>>=◌, front) refl

module _ {Key : Type 0} (ssl : OpenSsl Key) (private_key public_key : Key)
    (rsa : IsRsa ssl private_key public_key) where
  -- Chunks of up to 255 bytes are encrypted without an exception; put in a row they are extracted and
  -- decrypted to the chunks they were made of, grown to 255 bytes.
  pub decrypt_all-encrypt_all :
      (chunks : List (List ℕ))
      → All (λ c. length c ≤ chunk_size) chunks
      → (encs : List (List ℕ)) × (encrypt_all ssl public_key chunks ≡ ok encs)
        × (length encs ≡ length chunks)
        × (length (join encs) ≡ length chunks * 512)
        × (extract_chunks (length chunks) (join encs) ≡ ok encs)
        × (decrypt_all ssl private_key encs ≡ some (map (resize chunk_size) chunks))
  unfolding encrypt_all decrypt_all extract_chunks
  decrypt_all-encrypt_all [] sizes = ([], refl, refl, omega arith, refl, refl)
  decrypt_all-encrypt_all (chunk ∷ chunks) (size, sizes) =
      let (enc, n, found, enc_size, back, room) =
        encrypt-IsRsa ssl private_key public_key chunk rsa size in
      let (encs, founds, count, joined, extracted, backs) = decrypt_all-encrypt_all chunks sizes in
      (
        enc ∷ encs,
        rw (found, or_exit, ◌>>=◌, founds) refl,
        ap suc count,
        omega (arith, length-append {A = ℕ} enc (join encs), joined, suc-mul (length chunks) 512),
        extract_chunks-suc (length chunks) enc (join encs) encs enc_size extracted,
        rw (back, backs, and_then)
            (ap (λ c. some (c ∷ map (resize chunk_size) chunks))
              (resize-resize chunk_size n chunk size room)),
      )
