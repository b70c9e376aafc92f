-- ===== src/Tests/Keys.antt =====
-- The theorems on the reader at concrete inputs.
use vjft.Prelude.{◌≡◌, refl, [], ◌∷◌, true, pos}
use vjft.Terminal.{expected_len, byte, no_data, read_utf8_char_or_esc_seq}
use vjft.Terminal.Reads.{read_utf8_char_or_esc_seq-char, read_utf8_char_or_esc_seq-stray}

two_bytes : expected_len 0xD0 ≡ 2
unfolding expected_len
two_bytes = refl

no_lead : expected_len 0xB0 ≡ 0
unfolding expected_len
no_lead = refl

read_utf8_char_or_esc_seq-char_example :
    read_utf8_char_or_esc_seq 40 true (byte 0xD0 ∷ (byte 0xB0 ∷ (byte b'x' ∷ [])))
    ≡ (pos 2, 0xD0 ∷ (0xB0 ∷ []), byte b'x' ∷ [])
read_utf8_char_or_esc_seq-char_example =
    read_utf8_char_or_esc_seq-char 35 true 0xD0 (0xB0 ∷ []) (byte b'x' ∷ []) refl two_bytes

read_utf8_char_or_esc_seq-stray_example :
    read_utf8_char_or_esc_seq 4 true (byte 0xB0 ∷ (byte b'x' ∷ (byte b'y' ∷ (no_data ∷ []))))
    ≡ (pos 3, 0xB0 ∷ (b'x' ∷ (b'y' ∷ [])), no_data ∷ [])
read_utf8_char_or_esc_seq-stray_example =
    read_utf8_char_or_esc_seq-stray 2 true 0xB0 (b'x' ∷ (b'y' ∷ [])) (no_data ∷ []) refl no_lead
      refl
