-- ===== src/Edit/Lines.antt =====
-- The line motions, on a node that shows well-formed text.
use vjft.Prelude.{ℕ, zero, suc, ◌+◌, ◌-◌, ◌≤◌, ◌<◌, ◌≡◌, refl, ap, ◌∙◌, Bool, true, false, ◌||◌}
use vjft.Prelude.{
  List, [], ◌∷◌, ◌++◌, length, take, drop, if◌then◌else◌, ltb, ◌==◌, drop_all, take_all,
}
use vjft.Prelude.{
  pos, ◌-ℤ◌, ◌+ℤ◌, All, arith, ok, length-append, length-drop, take-suc, Bool-cases, inl, inr,
}
use vjft.Utf8.{byte_at, utf8_next_char, utf8_prev_char, utf8_char_index, utf8_strlen}
use vjft.Utf8.Chars.{IsChar, encode, offset, IsCharAt, char_at, le-offset, length-le-length-encode}
use native.Mathlib.Nat.{suc-add}
use vjft.Utf8.Walk.{
  byte_at-offset, utf8_next_char-encode, utf8_prev_char-encode, utf8_char_index-encode,
}
use vjft.Utf8.Walk.{utf8_strlen-encode}
use vjft.Msg.{MsgNode}
use vjft.World.{InputEvent}
use vjft.Edit.{beginning_loop, upd_to_beginning_of_line, end_loop, upd_to_end_of_line}
use vjft.Edit.Shows.{Shows, byte_offset-Shows}
use vjft.Edit.Motion.{at_cursor}

abbrev pub is_newline : List ℕ → Bool
is_newline [] = false
is_newline (b ∷ r) = b == 0x0A

abbrev pub has_newline : List (List ℕ) → Bool
has_newline [] = false
has_newline (c ∷ cs) = is_newline c || has_newline cs

has_newline-append_last :
    (cs : List (List ℕ)) (c : List ℕ)
    → has_newline (cs ++ (c ∷ [])) ≡ (is_newline c || has_newline cs)
has_newline-append_last [] c = refl
has_newline-append_last (d ∷ cs) c = ground (arith, has_newline-append_last cs c)

has_newline-take-suc :
    (k : ℕ) (cs : List (List ℕ)) (c : List ℕ)
    → drop k cs ≡ c ∷ drop (suc k) cs
    → has_newline (take (suc k) cs) ≡ (is_newline c || has_newline (take k cs))
has_newline-take-suc k cs c e = rw (take-suc k cs c _ e) (has_newline-append_last (take k cs) c)

-- Where the code puts the cursor: with a line break before it, at the end of the text.
abbrev pub line_start : List (List ℕ) → ℕ → ℕ
line_start cs k = if has_newline (take k cs) then length cs else 0

module _ (rounds : ℕ) (node : MsgNode) (prev b : ℕ) (here : byte_at node.text prev ≡ ok b) where
  beginning_found :
      (i next len : ℕ)
      → utf8_prev_char node.text (suc i) ≡ ok prev
      → (b == 0x0A) ≡ true
      → utf8_next_char node.text prev ≡ ok next
      → utf8_strlen node.text ≡ ok len
      → beginning_loop (suc rounds) node (suc i) ≡ ok (at_cursor node len)
  unfolding beginning_loop
  beginning_found i next len p e n l = ground (arith, here)

  beginning_goes_on :
      (i : ℕ)
      → utf8_prev_char node.text (suc i) ≡ ok prev
      → (b == 0x0A) ≡ false
      → (node' : MsgNode) × (node'.text ≡ node.text)
        × (node'.marker_pos ≡ node.marker_pos)
        × (beginning_loop (suc rounds) node (suc i) ≡ beginning_loop rounds node' prev)
  unfolding beginning_loop
  beginning_goes_on i p e =
      (record node { cursor_pos = node.cursor_pos -ℤ pos 1 }, refl, refl, ground (arith, here))

beginning_loop-encode :
    (rounds : ℕ) (k : ℕ) (cs : List (List ℕ)) (node : MsgNode)
    → All IsChar cs
    → node.text ≡ encode cs
    → k ≤ length cs
    → k ≤ rounds
    → beginning_loop rounds node (offset k cs) ≡ ok (at_cursor node (line_start cs k))
beginning_loop-encode zero zero cs node h e le f = unfold beginning_loop in refl
beginning_loop-encode (suc rounds) zero cs node h e le f = unfold beginning_loop in refl
beginning_loop-encode zero (suc k) cs node h e le f = absurd (omega arith)
beginning_loop-encode (suc rounds) (suc k) cs node h e le f =
    let (b, r, at) = char_at k cs h (omega arith) in
    let here : byte_at node.text (offset k cs) ≡ ok b = rw e (byte_at-offset k cs b r at) in
    let start : offset (suc k) cs ≡ suc (offset k cs + length r) = omega (arith, at.ends) in
    let back : utf8_prev_char node.text (suc (offset k cs + length r)) ≡ ok (offset k cs) =
      rw (e, ← start) (utf8_prev_char-encode k cs h (omega arith)) in
    let breaks = has_newline-take-suc k cs (b ∷ r) at.follows in
    elim (Bool-cases (b == 0x0A)) [
      | inl found ↦ rw start (
          beginning_found rounds node _ b here _ (offset (suc k) cs) (length cs) back found
            (rw e (utf8_next_char-encode k cs h (omega arith))) (rw e (utf8_strlen-encode cs h))
          ∙ rw (breaks, found) refl)
      | inr other ↦
          let (node', same, marker, go) = beginning_goes_on rounds node _ b here _ back other in
          rw start (
            go
            ∙ beginning_loop-encode rounds k cs node' h (same ∙ e) (omega arith) (omega arith)
            ∙ ground (arith, breaks, other, same, marker))
    ]

-- With no line break before the cursor it goes to the start of the text, and else to the end.
pub upd_to_beginning_of_line-Shows :
    (node : MsgNode) (event : InputEvent) (cs : List (List ℕ)) (k : ℕ)
    → Shows node cs k
    → upd_to_beginning_of_line node event ≡ ok (at_cursor node (line_start cs k))
unfolding upd_to_beginning_of_line
upd_to_beginning_of_line-Shows node event cs k h = rw (byte_offset-Shows h) (
    beginning_loop-encode (offset k cs) k cs node h.valid h.text h.within
      (le-offset k cs h.valid h.within))

-- How many characters stand before the next line break, or before the end.
abbrev pub line_rest : List (List ℕ) → ℕ
line_rest [] = 0
line_rest (c ∷ cs) = if is_newline c then 0 else suc (line_rest cs)

line_rest-le : (cs : List (List ℕ)) → line_rest cs ≤ length cs
line_rest-le [] = omega arith
line_rest-le (c ∷ cs) = ground (arith, line_rest-le cs)

abbrev pub line_end : List (List ℕ) → ℕ → ℕ
line_end cs k = k + line_rest (drop k cs)

pub line_end-le : (cs : List (List ℕ)) (k : ℕ) → k ≤ length cs → line_end cs k ≤ length cs
line_end-le cs k h = omega (arith, line_rest-le (drop k cs), length-drop {0} k cs)

module _ (rounds : ℕ) (node : MsgNode) (len i b : ℕ) (inside : ltb i len ≡ true)
    (here : byte_at node.text i ≡ ok b) where
  end_found :
      (k : ℕ)
      → (b == 0x0A) ≡ true
      → utf8_char_index node.text i ≡ ok k
      → end_loop (suc rounds) node len i ≡ ok (at_cursor node k)
  unfolding end_loop
  end_found k e c = ground (arith, inside, here)

  end_goes_on :
      (next : ℕ)
      → (b == 0x0A) ≡ false
      → utf8_next_char node.text i ≡ ok next
      → (node' : MsgNode) × (node'.text ≡ node.text)
        × (node'.marker_pos ≡ node.marker_pos)
        × (end_loop (suc rounds) node len i ≡ end_loop rounds node' len next)
  unfolding end_loop
  end_goes_on next e n = (
    record node { cursor_pos = node.cursor_pos +ℤ pos 1 },
    refl,
    refl,
    ground (arith, inside, here),
  )

end_ends :
    (rounds : ℕ) (node : MsgNode) (len k : ℕ)
    → utf8_char_index node.text len ≡ ok k
    → end_loop rounds node len len ≡ ok (at_cursor node k)
unfolding end_loop
end_ends zero node len k c = rw c refl
end_ends (suc rounds) node len k c = ground arith

offset-all : (k : ℕ) (cs : List (List ℕ)) → length cs ≤ k → offset k cs ≡ length (encode cs)
offset-all k cs h = rw (take_all k cs h) refl

offset-lt :
    (k : ℕ) (cs : List (List ℕ)) (b : ℕ) (r : List ℕ)
    → IsCharAt k cs b r
    → offset k cs < length (encode cs)
offset-lt k cs b r at = omega (
  arith,
  ap length at.bytes,
  length-append {0} (encode (take k cs)) (b ∷ (r ++ encode (drop (suc k) cs))),
)

pub line_end_all : (k : ℕ) (cs : List (List ℕ)) → k ≡ length cs → line_end cs k ≡ length cs
line_end_all k cs e = rw (drop_all k cs (omega arith)) (omega arith)

line_end_found :
    (k : ℕ) (cs : List (List ℕ)) (c : List ℕ)
    → drop k cs ≡ c ∷ drop (suc k) cs
    → is_newline c ≡ true
    → line_end cs k ≡ k
line_end_found k cs c e found = rw (e, found) (omega arith)

line_end_other :
    (k : ℕ) (cs : List (List ℕ)) (c : List ℕ)
    → drop k cs ≡ c ∷ drop (suc k) cs
    → is_newline c ≡ false
    → line_end cs k ≡ line_end cs (suc k)
line_end_other k cs c e other = rw (e, other) (omega arith)

end_loop-encode :
    (rounds k : ℕ) (cs : List (List ℕ)) (node : MsgNode)
    → All IsChar cs
    → node.text ≡ encode cs
    → k + rounds ≡ length cs
    → (extra : ℕ)
    → end_loop (rounds + extra) node (length (encode cs)) (offset k cs)
      ≡ ok (at_cursor node (line_end cs k))
end_loop-encode zero k cs node h e f extra =
    rw (offset-all k cs (omega arith), line_end_all k cs (omega arith))
      (end_ends (zero + extra) node _ (length cs) (
        rw (e, ← offset-all (length cs) cs (omega arith))
          (utf8_char_index-encode (length cs) cs h (omega arith))))
end_loop-encode (suc rounds) k cs node h e f extra =
    let (b, r, at) = char_at k cs h (omega arith) in
    let here : byte_at node.text (offset k cs) ≡ ok b = rw e (byte_at-offset k cs b r at) in
    let inside : ltb (offset k cs) (length (encode cs)) ≡ true =
      ground (arith, offset-lt k cs b r at) in
    elim (Bool-cases (b == 0x0A)) [
      | inl found ↦
          rw (suc-add rounds extra, line_end_found k cs (b ∷ r) at.follows found)
            (end_found (rounds + extra) node _ _ b inside here k found
              (rw e (utf8_char_index-encode k cs h (omega arith))))
      | inr other ↦
          let (node', same, marker, go) =
            end_goes_on (rounds + extra) node _ _ b inside here (offset (suc k) cs) other
              (rw e (utf8_next_char-encode k cs h (omega arith))) in
          rw (suc-add rounds extra, line_end_other k cs (b ∷ r) at.follows other)
            (go
              ∙ end_loop-encode rounds (suc k) cs node' h (same ∙ e) (omega arith) extra
              ∙ ground (arith, same, marker))
    ]

-- The cursor goes to the next line break at or behind it, or to the end of the text.
pub upd_to_end_of_line-Shows :
    (node : MsgNode) (event : InputEvent) (cs : List (List ℕ)) (k : ℕ)
    → Shows node cs k
    → upd_to_end_of_line node event ≡ ok (at_cursor node (line_end cs k))
unfolding upd_to_end_of_line
upd_to_end_of_line-Shows node event cs k h =
    let enough = length-le-length-encode cs h.valid in
    let rounds : length (encode cs) ≡ (length cs - k) + (length (encode cs) - (length cs - k)) =
      omega (arith, enough) in
    rw (byte_offset-Shows h) (
      ap (λ (n : ℕ). end_loop n node (length node.text) (offset k cs)) (ap length h.text ∙ rounds)
      ∙ ap
          (λ (t : List ℕ).
            end_loop ((length cs - k) + (length (encode cs) - (length cs - k))) node (length t)
              (offset k cs))
          h.text
      ∙ end_loop-encode (length cs - k) k cs node h.valid h.text (omega (arith, h.within)) _)
