-- ===== src/Crypt/Verified.antt =====
-- term/crypt.c: what `decipher` checks before it hands a message on.
use vjft.Prelude.{ℕ, ◌≡◌, refl, ◌∙◌, ap, List, Option, none, some, ok, exit, fault, Run}
use vjft.Prelude.{◌>>=◌, Bool, true, false, Bool-cases, inl, inr, pos, eqb_ℤ, take, drop, join}
use vjft.Crypt.{OpenSsl, require, and_then, calc_crc, verify_sign}
use vjft.Crypt.Envelope.{Envelope, has_zero, check_parts, parse_envelope, open_envelope, decipher}
use vjft.Crypt.Envelope.{uint16_at, decrypt_chunks}
use vjft.Key.{same_bytes}

-- A chain of calls that returned has a first call that returned.
bind-ok {ℓ κ} :
    {A : Type ℓ} {B : Type κ} (r : Run A) (f : A → Run B) (b : B)
    → (r >>= f) ≡ ok b
    → (a : A) × (r ≡ ok a) × (f a ≡ ok b)
bind-ok (ok a) f b h = (a, refl, h)
bind-ok exit f b h = absurd (cc)
bind-ok fault f b h = absurd (cc)

require-some {ℓ} :
    {A : Type ℓ} (b : Bool) (rest : Option A) (a : A)
    → require b rest ≡ some a
    → (b ≡ true) × (rest ≡ some a)
require-some true rest a h = (refl, h)
require-some false rest a h = absurd (cc)

and_then-some {ℓ κ} :
    {A : Type ℓ} {B : Type κ} (o : Option A) (f : A → Option B) (b : B)
    → and_then o f ≡ some b
    → (a : A) × (o ≡ some a) × (f a ≡ some b)
and_then-some (some a) f b h = (a, refl, h)
and_then-some none f b h = absurd (cc)

ok-injective {ℓ} : {A : Type ℓ} (a b : A) → ok a ≡ ok b → a ≡ b
ok-injective a b h = cc

some-injective {ℓ} : {A : Type ℓ} (a b : A) → some a ≡ some b → a ≡ b
some-injective a b h = cc

module _ {Key : Type 0} (ssl : OpenSsl Key) where
  check_parts-ok :
      (public_key : Key) (parts : Envelope) (msg : List ℕ)
      → check_parts ssl public_key parts ≡ ok (some msg)
      → (crc : List ℕ) × (calc_crc ssl msg ≡ some crc)
        × (same_bytes crc parts.msg_crc ≡ true)
        × (eqb_ℤ (verify_sign ssl msg parts.msg_sign public_key) (pos 1) ≡ true)
  unfolding check_parts
  check_parts-ok public_key parts msg h = elim (Bool-cases (has_zero parts.msg)) [
    | inl text ↦
        let inner = ok-injective _ _ (rw (check_parts, text) at h) in
        let (crc, hashed, rest) =
          and_then-some (calc_crc ssl (take parts.msg_size parts.msg)) _ msg inner in
        let (same, rest') = require-some (same_bytes crc parts.msg_crc) _ msg rest in
        let (verified, body) =
          require-some
            (eqb_ℤ (verify_sign ssl (take parts.msg_size parts.msg) parts.msg_sign public_key)
              (pos 1))
            (some (take parts.msg_size parts.msg)) msg rest' in
        let is_msg = some-injective (take parts.msg_size parts.msg) msg body in
        (crc, rw is_msg at hashed, same, rw is_msg at verified)
    | inr unended ↦ absurd (let h' = rw (check_parts, unended) at h in cc)
  ]

  from_chunks :
      (public_key : Key) (msg : List ℕ) (decs : Option (List (List ℕ)))
      → elim decs [ none ↦ ok none | some chunks ↦ open_envelope ssl public_key (join chunks) ]
        ≡ ok (some msg)
      → (chunks : List (List ℕ)) × (decs ≡ some chunks)
        × (open_envelope ssl public_key (join chunks) ≡ ok (some msg))
  from_chunks public_key msg none h = absurd (let h' = ok-injective _ _ h in cc)
  from_chunks public_key msg (some chunks) h = (chunks, refl, h)

  from_parts :
      (public_key : Key) (msg : List ℕ) (parsed : Option Envelope)
      → elim parsed [ none ↦ ok none | some parts ↦ check_parts ssl public_key parts ]
        ≡ ok (some msg)
      → (parts : Envelope) × (parsed ≡ some parts)
        × (check_parts ssl public_key parts ≡ ok (some msg))
  from_parts public_key msg none h = absurd (let h' = ok-injective _ _ h in cc)
  from_parts public_key msg (some parts) h = (parts, refl, h)

  -- The envelope that the private key decrypts from the pack, and what was checked of it.
  pub record IsChecked (private_key public_key : Key) (pack msg : List ℕ) : Type 0 where
    pub pack_size : ℕ
    pub chunks : List (List ℕ)
    pub parts : Envelope
    pub crc : List ℕ
    pub size_read : uint16_at pack ≡ ok pack_size
    pub decrypted : decrypt_chunks ssl private_key pack_size (drop 2 pack) ≡ ok (some chunks)
    pub parsed : parse_envelope (join chunks) ≡ some parts
    pub hashed : calc_crc ssl msg ≡ some crc
    pub same_crc : same_bytes crc parts.msg_crc ≡ true
    pub verified : eqb_ℤ (verify_sign ssl msg parts.msg_sign public_key) (pos 1) ≡ true

  -- A message that decipher returns has the digest that stands in the envelope that was decrypted
  -- from the pack, and the public key verifies the signature there.
  pub decipher-IsChecked :
      (private_key public_key : Key) (pack msg : List ℕ)
      → decipher ssl private_key public_key pack ≡ ok (some msg)
      → IsChecked private_key public_key pack msg
  unfolding decipher open_envelope
  decipher-IsChecked private_key public_key pack msg h =
      let (pack_size, size_read, h') = bind-ok (uint16_at pack) _ (some msg) h in
      let (decs, decrypted, h'') =
        bind-ok (decrypt_chunks ssl private_key pack_size (drop 2 pack)) _ (some msg) h' in
      let (chunks, some_chunks, opened) = from_chunks public_key msg decs h'' in
      let (parts, parsed, checked) =
        from_parts public_key msg (parse_envelope (join chunks)) opened in
      let (crc, hashed, same_crc, verified) = check_parts-ok public_key parts msg checked in
      record {
        pack_size = pack_size;
        chunks = chunks;
        parts = parts;
        crc = crc;
        size_read = size_read;
        decrypted = decrypted ∙ ap ok some_chunks;
        parsed = parsed;
        hashed = hashed;
        same_crc = same_crc;
        verified = verified;
      }
