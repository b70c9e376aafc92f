-- ===== src/Crypt/Parse.antt =====
-- term/crypt.c: the parser of `decipher` reads what `encipher` wrote to the envelope.
use vjft.Prelude.{ℕ, zero, suc, ◌+◌, ◌*◌, ◌/◌, ◌%◌, ◌<◌, ◌≤◌, ◌≡◌, refl, sym, ap, List, []}
use vjft.Prelude.{◌∷◌, ◌++◌, append_assoc, some, ok, length, arith, true, ◌==◌}
use vjft.Prelude.{length-append, take-append_length, drop-append_length, leb, ltb, not}
use vjft.Crypt.{hash_size, sig_size}
use vjft.Crypt.Envelope.{envelope, field, parse_envelope, parse_after_rnd, rnd_size}
use vjft.Crypt.Envelope.{rnd_arr, uint16_bytes, uint16_at, uint16_field, copy_bytes, has_zero}

pub copy_bytes-append : (n : ℕ) (xs ys : List ℕ) → length xs ≡ n → copy_bytes n (xs ++ ys) ≡ ok xs
unfolding copy_bytes
copy_bytes-append n xs ys size =
    let fits : leb n (length (xs ++ ys)) ≡ true = ground (arith, length-append xs ys) in
    rw (fits, sym size) (ap ok (take-append_length xs ys))

field-append : (n : ℕ) (xs ys : List ℕ) → length xs ≡ n → field n (xs ++ ys) ≡ some (xs, ys)
unfolding field
field-append n xs ys size =
    let fits : not (ltb (length (xs ++ ys)) n) ≡ true = ground (arith, length-append xs ys) in
    rw (fits, sym size, take-append_length xs ys, drop-append_length xs ys) refl

pub uint16_at-uint16_bytes :
    (n : ℕ) (rest : List ℕ) → n < 65536 → uint16_at (uint16_bytes n ++ rest) ≡ ok n
unfolding uint16_at uint16_bytes
uint16_at-uint16_bytes n rest small = ap ok (omega arith)

uint16_field-uint16_bytes :
    (n : ℕ) (rest : List ℕ) → uint16_field (uint16_bytes n ++ rest) ≡ some (n, rest)
unfolding uint16_field uint16_bytes
uint16_field-uint16_bytes n rest =
    let number : n % 256 + 256 * (n / 256) ≡ n = omega arith in rw number refl

pub length-rnd_arr : (rand : ℕ → ℕ) (i n : ℕ) → length (rnd_arr rand i n) ≡ n
unfolding rnd_arr
length-rnd_arr rand i zero = refl
length-rnd_arr rand i (suc n) = ap suc (length-rnd_arr rand (suc i) n)

pub rnd_size-bounds : (rand : ℕ → ℕ) → (1 ≤ rnd_size rand) × (rnd_size rand ≤ 255)
unfolding rnd_size
rnd_size-bounds rand = (ground arith, ground arith)

pub has_zero-append : (xs ys : List ℕ) → has_zero ys ≡ true → has_zero (xs ++ ys) ≡ true
unfolding has_zero
has_zero-append [] ys h = h
has_zero-append (x ∷ xs) ys h = ground (arith, has_zero-append xs ys h)

parse_after_rnd-fields :
    (n : ℕ) (crc sign msg : List ℕ)
    → n < 65536
    → length crc ≡ hash_size
    → length sign ≡ sig_size
    → n ≤ length msg
    → parse_after_rnd (uint16_bytes n ++ (crc ++ (sign ++ msg)))
      ≡ some (record { msg_size = n; msg_crc = crc; msg_sign = sign; msg = msg })
unfolding parse_after_rnd
parse_after_rnd-fields n crc sign msg small crc_size sign_size size =
    let fits : not (ltb (length msg) n) ≡ true = ground arith in
    let number : uint16_field (uint16_bytes n ++ (crc ++ (sign ++ msg)))
        ≡ some (n, crc ++ (sign ++ msg)) =
      uint16_field-uint16_bytes n _ in
    rw
      (
        number,
        field-append hash_size crc (sign ++ msg) crc_size,
        field-append sig_size sign msg sign_size,
        fits,
      )
      refl

-- An envelope of the sizes that `encipher` writes is read back, whatever stands behind it.
pub parse_envelope-envelope :
    (rand : ℕ → ℕ) (n : ℕ) (crc sign msg pad : List ℕ)
    → n < 65536
    → length crc ≡ hash_size
    → length sign ≡ sig_size
    → length msg ≡ n
    → parse_envelope (envelope rand n crc sign msg ++ pad)
      ≡ some (record { msg_size = n; msg_crc = crc; msg_sign = sign; msg = msg ++ pad })
unfolding parse_envelope envelope
parse_envelope-envelope rand n crc sign msg pad small crc_size sign_size size =
    let some_rnd : not (rnd_size rand == 0) ≡ true = ground (arith, (rnd_size-bounds rand).0) in
    let fields = uint16_bytes n ++ (crc ++ (sign ++ (msg ++ pad))) in
    let flat : (rnd_arr rand 1 (rnd_size rand) ++ (uint16_bytes n ++ (crc ++ (sign ++ msg)))) ++ pad
        ≡ rnd_arr rand 1 (rnd_size rand) ++ fields =
      simp append_assoc in
    rw
      (
        some_rnd,
        flat,
        field-append _ (rnd_arr rand 1 (rnd_size rand)) fields (length-rnd_arr rand 1 _),
      )
      (parse_after_rnd-fields n crc sign (msg ++ pad) small crc_size sign_size
        (omega (arith, length-append msg pad)))
