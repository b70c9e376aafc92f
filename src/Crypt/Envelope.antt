-- ===== src/Crypt/Envelope.antt =====
-- term/crypt.c: `encipher` and `decipher`. The bytes of a uint16_t are in the order of a
-- little-endian machine. `rand` gives the results of the calls of `rand()` in turn.
use vjft.Prelude.{
  ℕ, zero, suc, ◌+◌, ◌-◌, ◌*◌, ◌/◌, ◌%◌, List, [], ◌∷◌, ◌++◌, Bool, true, false, not, ltb,
}
use vjft.Prelude.{leb, ◌==◌, ◌||◌, if◌then◌else◌, ℤ, pos, negsuc, eqb_ℤ, Option, none, some}
use vjft.Prelude.{Run, ok, exit, fault, ◌>>=◌, length, take, drop, join}
use vjft.Crypt.{sig_size, hash_size, chunk_size, enc_chunk_size, OpenSsl, require, and_then}
use vjft.Crypt.{calc_crc, calc_sign, encrypt_chunk, decrypt_chunk, verify_sign, split_buffer}
use vjft.Key.{same_bytes}

-- `memcpy` of `n` bytes out of what stands at `source`.
unfoldable pub copy_bytes : ℕ → List ℕ → Run (List ℕ)
copy_bytes n source = if leb n (length source) then ok (take n source) else fault

-- An error after which the program ends.
abbrev pub or_exit {ℓ} : {A : Type ℓ} → Option A → Run A
or_exit none = exit
or_exit (some a) = ok a

unfoldable pub to_uint16 : ℤ → ℕ
to_uint16 (pos n) = n % 65536
to_uint16 (negsuc n) = 65535 - n % 65536

unfoldable pub uint16_bytes : ℕ → List ℕ
uint16_bytes n = (n % 256) ∷ ((n / 256) ∷ [])

unfoldable pub uint16_at : List ℕ → Run ℕ
uint16_at (lo ∷ (hi ∷ rest)) = ok (lo + 256 * hi)
uint16_at (lo ∷ []) = fault
uint16_at [] = fault

unfoldable pub rnd_size : (ℕ → ℕ) → ℕ
rnd_size rand = if rand 0 % 256 == 0 then 255 else rand 0 % 256

-- `rnd_arr`, from the call `i` of `rand` on
unfoldable pub rnd_arr : (ℕ → ℕ) → ℕ → ℕ → List ℕ
rnd_arr rand i zero = []
rnd_arr rand i (suc n) = (rand i % 256) ∷ rnd_arr rand (suc i) n

-- The layout that the comment in `encipher` draws.
unfoldable pub envelope : (ℕ → ℕ) → ℕ → List ℕ → List ℕ → List ℕ → List ℕ
envelope rand msg_size msg_crc msg_sign msg =
    rnd_size rand
    ∷ (rnd_arr rand 1 (rnd_size rand) ++ (uint16_bytes msg_size ++ (msg_crc ++ (msg_sign ++ msg))))

-- The bytes of the envelope that are still to be read, `env + offset`; the guard
-- `offset + n > total_decrypted_len` is that fewer than `n` are left.
unfoldable pub field : ℕ → List ℕ → Option (List ℕ × List ℕ)
field n env = require (not (ltb (length env) n)) (some (take n env, drop n env))

pub record Envelope : Type 0 where
  pub msg_size : ℕ
  pub msg_crc : List ℕ
  pub msg_sign : List ℕ
  -- all that stands at `msg`, to the end of the buffer
  pub msg : List ℕ

unfoldable pub uint16_field : List ℕ → Option (ℕ × List ℕ)
uint16_field [] = none
uint16_field (lo ∷ []) = none
uint16_field (lo ∷ (hi ∷ env)) = some (lo + 256 * hi, env)

unfoldable pub parse_after_rnd : List ℕ → Option Envelope
parse_after_rnd env = and_then (uint16_field env) (λ (msg_size, env).
    and_then (field hash_size env) (λ (msg_crc, env).
      and_then (field sig_size env) (λ (msg_sign, env). require (not (ltb (length env) msg_size)) (
        some (record { msg_size = msg_size; msg_crc = msg_crc; msg_sign = msg_sign; msg = env })))))

unfoldable pub parse_envelope : List ℕ → Option Envelope
parse_envelope [] = none
parse_envelope (size ∷ env) =
    require (not (size == 0)) (and_then (field size env) (λ (skipped, env). parse_after_rnd env))

-- `printf("%s")` needs a zero byte.
unfoldable pub has_zero : List ℕ → Bool
has_zero [] = false
has_zero (b ∷ s) = b == 0 || has_zero s

module _ {Key : Type 0} (ssl : OpenSsl Key) where
  unfoldable pub encrypt_chunks : Key → List (List ℕ) → Run (List (List ℕ))
  encrypt_chunks public_key [] = ok []
  encrypt_chunks public_key (chunk ∷ chunks) =
      or_exit (encrypt_chunk ssl chunk public_key) >>= λ enc. elim (length enc == enc_chunk_size) [
        | false ↦ exit
        | true ↦ encrypt_chunks public_key chunks >>= λ encs. ok (enc ∷ encs)
      ]

  -- `msg` is a C string.
  unfoldable pub encipher : (ℕ → ℕ) → Key → Key → List ℕ → ℤ → Run (List ℕ)
  encipher rand private_key public_key msg msg_len =
      let msg_size = to_uint16 msg_len in
      elim (eqb_ℤ (pos msg_size) msg_len) [
        | false ↦ exit
        | true ↦ copy_bytes msg_size (msg ++ (0 ∷ [])) >>= λ body.
            or_exit (calc_crc ssl body) >>= λ msg_crc.
            or_exit (calc_sign ssl msg private_key) >>= λ sign.
            copy_bytes sig_size sign >>= λ msg_sign.
            or_exit (split_buffer (envelope rand msg_size msg_crc msg_sign body) chunk_size)
            >>= λ chunks. encrypt_chunks public_key chunks >>= λ encs.
                elim (length encs % 65536 == length encs) [
                  | false ↦ exit
                  | true ↦ ok (uint16_bytes (length encs) ++ join encs)
                ]
      ]

  -- The loop over the chunks at `pack`, with the rounds left. Where a chunk has the wrong size, the
  -- cleanup frees `decrypted_chunks[i]`, which was not set.
  unfoldable pub decrypt_chunks : Key → ℕ → List ℕ → Run (Option (List (List ℕ)))
  decrypt_chunks private_key zero pack = ok (some [])
  decrypt_chunks private_key (suc rounds) pack = copy_bytes enc_chunk_size pack >>= λ enc.
      elim (decrypt_chunk ssl enc private_key) [
        | none ↦ ok none
        | some dec ↦ elim (length dec == chunk_size) [
          | false ↦ fault
          | true ↦ decrypt_chunks private_key rounds (drop enc_chunk_size pack) >>= λ decs.
              ok (and_then decs (λ decs. some (dec ∷ decs)))
        ]
      ]

  -- `decipher` from the call of `printf` on.
  unfoldable pub check_parts : Key → Envelope → Run (Option (List ℕ))
  check_parts public_key parts = elim (has_zero parts.msg) [
    | false ↦ fault
    | true ↦
        let msg = take parts.msg_size parts.msg in
        ok (
          and_then (calc_crc ssl msg) (λ computed_crc.
            require (same_bytes computed_crc parts.msg_crc)
              (require (eqb_ℤ (verify_sign ssl msg parts.msg_sign public_key) (pos 1)) (some msg))))
  ]

  -- `decipher` from the envelope on.
  unfoldable pub open_envelope : Key → List ℕ → Run (Option (List ℕ))
  open_envelope public_key env = elim (parse_envelope env) [
    | none ↦ ok none
    | some parts ↦ check_parts public_key parts
  ]

  unfoldable pub decipher : Key → Key → List ℕ → Run (Option (List ℕ))
  decipher private_key public_key pack = uint16_at pack >>= λ pack_size.
      decrypt_chunks private_key pack_size (drop 2 pack) >>= λ decs. elim decs [
        | none ↦ ok none
        | some chunks ↦ open_envelope public_key (join chunks)
      ]
