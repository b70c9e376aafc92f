-- ===== src/Edit/Words.antt =====
-- The word motions, on a node that shows well-formed text.
use vjft.Prelude.{
  ℕ, zero, suc, ◌+◌, ◌-◌, ◌≤◌, ◌<◌, ◌≡◌, refl, ap, ◌∙◌, sym, Bool, true, false, not, ◌&&◌,
}
use vjft.Prelude.{List, [], ◌∷◌, length, take, drop, if◌then◌else◌, ◌==◌, drop_all}
use vjft.Prelude.{ℤ, pos, All, arith, ok, each_below, test_below}
use vjft.Prelude.{pos_part, ◌-ℤ◌, ◌||◌, Bool-cases, inl, inr}
use vjft.Utf8.{byte_at, utf8_next_char, utf8_prev_char, is_continuation, utf8_char_length}
use vjft.Utf8.Chars.{IsChar, encode, offset, IsCharAt, char_at, char_parts, byte_at-append}
use vjft.Utf8.Chars.{byte_at_continuation}
use vjft.Utf8.Walk.{byte_at-offset, utf8_next_char-encode, utf8_prev_char-encode}
use vjft.Msg.{MsgNode}
use vjft.World.{InputEvent}
use vjft.Edit.{
  isspace, skip_forward, upd_forward_word, byte_before, skip_backward, upd_backward_word,
}
use vjft.Edit.Shows.{Shows, strlen-Shows, byte_offset-Shows}
use vjft.Edit.Motion.{at_cursor}
use mathlib.Core.List.{reverse, reverse-append}
use native.Mathlib.Nat.{add-zero, add-suc}
use native.Mathlib.Numerals.{add-one}
use vjft.Prelude.{take-suc, length-drop, ◌≢◌}

-- Is the character a space? A character of several bytes is none.
abbrev pub is_space : List ℕ → Bool
is_space [] = false
is_space (b ∷ r) = isspace b

abbrev wanted : Bool → List ℕ → Bool
wanted space c = if space then is_space c else not (is_space c)

-- How many characters of the same kind the text starts with.
abbrev pub run_length : Bool → List (List ℕ) → ℕ
run_length space [] = 0
run_length space (c ∷ cs) = if wanted space c then suc (run_length space cs) else 0

module _ (space : Bool) (text : List ℕ) (rounds i b : ℕ) (here : byte_at text i ≡ ok b)
    (r : List ℕ) where
  skip_forward_stop :
      (p : ℤ)
      → wanted space (b ∷ r) ≡ false
      → skip_forward space text (suc rounds) i p ≡ ok (suc rounds, i, p)
  unfolding skip_forward
  skip_forward_stop p no_more = ground (arith, here)

  skip_forward_go :
      (k next : ℕ)
      → wanted space (b ∷ r) ≡ true
      → utf8_next_char text i ≡ ok next
      → skip_forward space text (suc rounds) i (pos k)
        ≡ skip_forward space text rounds next (pos (suc k))
  unfolding skip_forward
  skip_forward_go k next more e = ground (arith, here, add-one k)

-- Where a run of characters of one kind ends.
abbrev pub run_end : Bool → List (List ℕ) → ℕ → ℕ
run_end space cs k = k + run_length space (drop k cs)

run_end_stop :
    (space : Bool) (cs : List (List ℕ)) (k : ℕ) (c : List ℕ)
    → drop k cs ≡ c ∷ drop (suc k) cs
    → wanted space c ≡ false
    → run_end space cs k ≡ k
run_end_stop space cs k c e no_more = rw (e, no_more) (add-zero k)

run_end_go :
    (space : Bool) (cs : List (List ℕ)) (k : ℕ) (c : List ℕ)
    → drop k cs ≡ c ∷ drop (suc k) cs
    → wanted space c ≡ true
    → run_end space cs k ≡ run_end space cs (suc k)
run_end_go space cs k c e more = rw (e, more) (omega arith)

skip_forward-encode :
    (rounds : ℕ) (space : Bool) (k : ℕ) (cs : List (List ℕ))
    → All IsChar cs
    → k + rounds ≡ length cs
    → skip_forward space (encode cs) rounds (offset k cs) (pos k)
      ≡ ok
          (length cs - run_end space cs k, offset (run_end space cs k) cs, pos (run_end space cs k))
skip_forward-encode zero space k cs h e =
    let ends : run_end space cs k ≡ k = rw (drop_all k cs (omega arith)) (add-zero k) in
    let left : length cs - k ≡ 0 = omega arith in rw (ends, left) (unfold skip_forward in refl)
skip_forward-encode (suc rounds) space k cs h e =
    let (b, r, at) = char_at k cs h (omega arith) in
    let here = byte_at-offset k cs b r at in
    elim (Bool-cases (wanted space (b ∷ r))) [
      | inl more ↦
          skip_forward_go space _ rounds _ b here r k _ more
            (utf8_next_char-encode k cs h (omega arith))
          ∙ rw (run_end_go space cs k (b ∷ r) at.follows more)
              (skip_forward-encode rounds space (suc k) cs h (omega arith))
      | inr no_more ↦
          let left : length cs - k ≡ suc rounds = omega arith in
          skip_forward_stop space _ rounds _ b here r (pos k) no_more
          ∙ rw (run_end_stop space cs k (b ∷ r) at.follows no_more, left) refl
    ]

run_length-le : (space : Bool) (cs : List (List ℕ)) → run_length space cs ≤ length cs
run_length-le space [] = omega arith
run_length-le space (c ∷ cs) = ground (arith, run_length-le space cs)

pub run_end-le :
    (space : Bool) (cs : List (List ℕ)) (k : ℕ) → k ≤ length cs → run_end space cs k ≤ length cs
run_end-le space cs k h = omega (arith, run_length-le space (drop k cs), length-drop {0} k cs)

-- Where the word that follows the cursor ends.
abbrev pub word_end : List (List ℕ) → ℕ → ℕ
word_end cs k = run_end false cs (run_end true cs k)

pub word_end-le : (cs : List (List ℕ)) (k : ℕ) → k ≤ length cs → word_end cs k ≤ length cs
word_end-le cs k h = run_end-le false cs (run_end true cs k) (run_end-le true cs k h)

-- At the end of the text no word follows.
pub word_end_at_end : (cs : List (List ℕ)) (k : ℕ) → k ≡ length cs → word_end cs k ≡ k
word_end_at_end cs k e = omega (arith, word_end-le cs k (omega arith))

pub upd_forward_word-Shows :
    (node : MsgNode) (event : InputEvent) (cs : List (List ℕ)) (k : ℕ)
    → Shows node cs k
    → upd_forward_word node event ≡ ok (at_cursor node (word_end cs k))
unfolding upd_forward_word
upd_forward_word-Shows node event cs k h =
    let past = run_end-le true cs k h.within in
    let rounds : pos_part (pos (length cs) -ℤ pos k) ≡ length cs - k = ground (arith, h.within) in
    rw (strlen-Shows h, byte_offset-Shows h, h.cursor, h.text, rounds)
      (rw (skip_forward-encode (length cs - k) true k cs h.valid (omega (arith, h.within))) (
        rw
          (skip_forward-encode (length cs - run_end true cs k) false (run_end true cs k) cs h.valid
            (omega arith))
          refl))

space_table : each_below (λ x. not (isspace x && is_continuation x)) 33 ≡ true
unfolding each_below isspace is_continuation
space_table = refl

lead_table : each_below (λ x. not (isspace x) || utf8_char_length x == 1) 33 ≡ true
unfolding each_below isspace utf8_char_length
lead_table = refl

isspace-lt : (b : ℕ) → isspace b ≡ true → b < 33
unfolding isspace
isspace-lt b h = ground arith

continuation-isspace : (b : ℕ) → is_continuation b ≡ true → isspace b ≡ false
continuation-isspace b h = ground (arith, isspace-lt b, test_below _ 33 space_table b)

lead-isspace : (b : ℕ) → utf8_char_length b ≢ 1 → isspace b ≡ false
lead-isspace b h = ground (arith, isspace-lt b, test_below _ 33 lead_table b)

-- The last byte of a character tells as well whether it is a space.
last_byte :
    (k : ℕ) (cs : List (List ℕ)) (b : ℕ) (r : List ℕ)
    → IsCharAt k cs b r
    → (x : ℕ) × (byte_before (encode cs) (offset (suc k) cs) ≡ ok x) × (isspace x ≡ isspace b)
unfolding byte_before byte_at
last_byte k cs b [] at = (b, rw (at.ends, add-one) (byte_at-offset k cs b [] at), refl)
last_byte k cs b (c ∷ r) at =
    let parts = char_parts b (c ∷ r) at.is_char_here in
    let (x, found, cont) =
      byte_at_continuation (c ∷ r) (encode (drop (suc k) cs)) (length r) parts.3 (omega arith) in
    (
      x,
      rw (at.ends, add-suc, at.bytes)
          (byte_at-append (encode (take k cs)) _ (suc (length r)) ∙ found),
      continuation-isspace x cont ∙ sym (lead-isspace b (omega (arith, parts.2))),
    )

module _ (space : Bool) (text : List ℕ) (k i x : ℕ) (here : byte_before text i ≡ ok x) (b : ℕ)
    (r : List ℕ) (same : isspace x ≡ isspace b) where
  skip_backward_stop :
      wanted space (b ∷ r) ≡ false → skip_backward space text (suc k) i ≡ ok (suc k, i)
  unfolding skip_backward
  skip_backward_stop no_more = ground (arith, here)

  skip_backward_go :
      (prev : ℕ)
      → wanted space (b ∷ r) ≡ true
      → utf8_prev_char text i ≡ ok prev
      → skip_backward space text (suc k) i ≡ skip_backward space text k prev
  unfolding skip_backward
  skip_backward_go prev more e = ground (arith, here)

-- Where a run of characters of one kind that ends before `k` starts.
abbrev pub run_start : Bool → List (List ℕ) → ℕ → ℕ
run_start space cs k = k - run_length space (reverse (take k cs))

reverse-take :
    (k : ℕ) (cs : List (List ℕ)) (c : List ℕ)
    → drop k cs ≡ c ∷ drop (suc k) cs
    → reverse (take (suc k) cs) ≡ c ∷ reverse (take k cs)
reverse-take k cs c e =
    ap reverse (take-suc k cs c (drop (suc k) cs) e) ∙ reverse-append (take k cs) (c ∷ [])

run_start_stop :
    (space : Bool) (cs : List (List ℕ)) (k : ℕ) (c : List ℕ)
    → drop k cs ≡ c ∷ drop (suc k) cs
    → wanted space c ≡ false
    → run_start space cs (suc k) ≡ suc k
run_start_stop space cs k c e no_more = rw (reverse-take k cs c e, no_more) (omega arith)

run_start_go :
    (space : Bool) (cs : List (List ℕ)) (k : ℕ) (c : List ℕ)
    → drop k cs ≡ c ∷ drop (suc k) cs
    → wanted space c ≡ true
    → run_start space cs (suc k) ≡ run_start space cs k
run_start_go space cs k c e more = rw (reverse-take k cs c e, more) (omega arith)

skip_backward-encode :
    (space : Bool) (k : ℕ) (cs : List (List ℕ))
    → All IsChar cs
    → k ≤ length cs
    → skip_backward space (encode cs) k (offset k cs)
      ≡ ok (run_start space cs k, offset (run_start space cs k) cs)
skip_backward-encode space zero cs h le =
    let starts : run_start space cs 0 ≡ 0 = omega arith in rw starts (unfold skip_backward in refl)
skip_backward-encode space (suc k) cs h le =
    let (b, r, at) = char_at k cs h (omega arith) in
    let (x, here, same) = last_byte k cs b r at in
    elim (Bool-cases (wanted space (b ∷ r))) [
      | inl more ↦
          skip_backward_go space _ k _ x here b r same _ more
            (utf8_prev_char-encode k cs h (omega arith))
          ∙ rw (run_start_go space cs k (b ∷ r) at.follows more)
              (skip_backward-encode space k cs h (omega arith))
      | inr no_more ↦
          skip_backward_stop space _ k _ x here b r same no_more
          ∙ rw (run_start_stop space cs k (b ∷ r) at.follows no_more) refl
    ]

-- Where the word before the cursor starts.
abbrev pub word_start : List (List ℕ) → ℕ → ℕ
word_start cs k = run_start false cs (run_start true cs k)

pub upd_backward_word-Shows :
    (node : MsgNode) (event : InputEvent) (cs : List (List ℕ)) (k : ℕ)
    → Shows node cs k
    → upd_backward_word node event ≡ ok (at_cursor node (word_start cs k))
unfolding upd_backward_word
upd_backward_word-Shows node event cs k h =
    rw (byte_offset-Shows h, h.cursor, h.text)
      (rw (skip_backward-encode true k cs h.valid h.within) (
        rw (skip_backward-encode false (run_start true cs k) cs h.valid (omega (arith, h.within)))
          refl))
