-- ===== src/Command/Deletion.antt =====
-- `cmd_backspace`, and its undoing by `cmd_insert`, on a node that shows well-formed text.
use vjft.Prelude.{ℕ, ◌+◌, ◌-◌, ◌≤◌, ◌≡◌, refl, ap, ◌∙◌, sym, false, ◌≢◌}
use vjft.Prelude.{List, ◌++◌, length, take, drop, if◌then◌else◌, some}
use vjft.Prelude.{ℤ, pos, negsuc, ◌-ℤ◌, arith, ok, ◌>>=◌, length-append, ltb_ℤ, eqb_ℤ}
use vjft.Prelude.{take-append-drop, All-take, All-drop, All-append, drop-add, length-drop}
use vjft.Prelude.{take-append_length, drop-append_length, subst}
use vjft.Utf8.Chars.{
  IsChar, encode, encode-append, offset, length-take_le, take-offset, drop-offset,
}
use vjft.Utf8.Chars.{take-drop-offset}
use vjft.Utf8.Walk.{utf8_byte_offset-encode}
use vjft.Edit.{upd_insert}
use vjft.Msg.{MsgNode}
use vjft.World.{CmdFunc, InputEvent, World, eq_cmd?}
use vjft.Action.{recorded, mng_act}
use vjft.Edit.Shows.{Shows}
use vjft.Edit.Insert.{offset-le, splice, inserted, upd_insert-Shows}
use vjft.Command.Insertion.{top_cmd, kept, recorded_fresh}
use vjft.Command.{string_at, backspace_count, join_deleted, delete_back, cmd_backspace}

-- The node after the characters from index `j` to the cursor at `k` are gone. The marker stays.
abbrev pub deleted : MsgNode → List (List ℕ) → ℕ → ℕ → MsgNode
deleted node cs j k = record node { text = encode (take j cs ++ drop k cs); cursor_pos = pos j }

-- The new position: `count` characters back, and not before the start.
new_position :
    (k count : ℕ)
    → (let moved = pos k -ℤ pos count in if ltb_ℤ moved (pos 0) then pos 0 else moved)
      ≡ pos (k - count)
new_position k count = ground arith

not_start : (k : ℕ) → k ≢ 0 → eqb_ℤ (pos k) (pos 0) ≡ false
not_start k h = ground arith

-- The test that should move the marker compares it with itself.
marker_stays : (m : ℤ) (count : ℕ) → (if ltb_ℤ m m then m -ℤ pos count else m) ≡ m
marker_stays (pos n) count = ground arith
marker_stays (negsuc n) count = ground arith

taken :
    (j k : ℕ) (cs : List (List ℕ))
    → j ≤ k
    → take (offset k cs - offset j cs) (drop (offset j cs) (encode cs))
      ≡ encode (take (k - j) (drop j cs))
taken j k cs le =
    let whole : j + (k - j) ≡ k = omega arith in
    subst
      (λ (n : ℕ).
        take (offset n cs - offset j cs) (drop (offset j cs) (encode cs))
        ≡ encode (take (k - j) (drop j cs)))
      whole (take-drop-offset j (k - j) cs)

string_at-offset :
    (k : ℕ) (cs : List (List ℕ)) → string_at (encode cs) (offset k cs) ≡ ok (encode (drop k cs))
unfolding string_at
string_at-offset k cs = rw (string_at, offset-le k cs, drop-offset k cs) refl

left_over :
    (j k : ℕ) (cs : List (List ℕ))
    → take (offset j cs) (encode cs) ++ encode (drop k cs) ≡ encode (take j cs ++ drop k cs)
left_over j k cs = rw (take-offset j cs, encode-append (take j cs) (drop k cs)) refl

delete_back-Shows :
    (world : World) (node : MsgNode) (event : InputEvent) (cs : List (List ℕ)) (k count : ℕ)
    → Shows node cs k
    → delete_back world node event count ≡ (
        join_deleted
          (encode (take (k - (k - count)) (drop (k - count) cs)))
          (recorded world event CmdFunc.cmd_backspace).1
        >>= λ act. ok (
          (recorded world event CmdFunc.cmd_backspace).0,
          deleted node cs (k - count) k,
          some act,
        ))
unfolding delete_back mng_act
delete_back-Shows world node event cs k count h =
    rw (h.cursor, h.text, utf8_byte_offset-encode k cs h.valid, new_position k count)
      (rw (utf8_byte_offset-encode (k - count) cs h.valid, ◌>>=◌, string_at-offset k cs, ◌>>=◌)
        (rw (taken (k - count) k cs (omega arith), left_over (k - count) k cs, marker_stays) refl))

-- `cmd_backspace`, up to what its action records.
pub cmd_backspace-Shows :
    (world : World) (node : MsgNode) (event : InputEvent) (cs : List (List ℕ)) (k count : ℕ)
    → Shows node cs k
    → k ≢ 0
    → backspace_count event ≡ ok count
    → cmd_backspace world node event ≡ (
        join_deleted
          (encode (take (k - (k - count)) (drop (k - count) cs)))
          (recorded world event CmdFunc.cmd_backspace).1
        >>= λ act. ok (
          (recorded world event CmdFunc.cmd_backspace).0,
          deleted node cs (k - count) k,
          some act,
        ))
unfolding cmd_backspace
cmd_backspace-Shows world node event cs k count h ne c =
    let start : eqb_ℤ node.cursor_pos (pos 0) ≡ false = ground (arith, h.cursor, not_start k ne) in
    rw (start, cmd_backspace, c) (delete_back-Shows world node event cs k count h)

-- On well-formed text with the cursor not at the start, and where no deletion is on top of the
-- undo stack, cmd_backspace deletes the characters before the cursor that backspace_count asks
-- for, at most to the start of the text, moves the cursor there, leaves the marker, and returns a
-- new action that holds their bytes; the undo stack keeps what it had, and gets a null pointer if
-- it was empty.
pub cmd_backspace-records :
    (world : World) (node : MsgNode) (event : InputEvent) (cs : List (List ℕ)) (k count : ℕ)
    → Shows node cs k
    → k ≢ 0
    → backspace_count event ≡ ok count
    → eq_cmd? (top_cmd world.undo_stack) CmdFunc.cmd_backspace ≡ false
    → cmd_backspace world node event
      ≡ ok (
        record world { undo_stack = kept world.undo_stack },
        deleted node cs (k - count) k,
        some (record {
          cmd_fn = event.cmd_fn;
          seq = some (encode (take (k - (k - count)) (drop (k - count) cs)));
          cnt = 1;
        }),
      )
unfolding join_deleted
cmd_backspace-records world node event cs k count h ne c other =
    cmd_backspace-Shows world node event cs k count h ne c
    ∙ rw (recorded_fresh world event CmdFunc.cmd_backspace other) refl

pub deleted-Shows :
    (node : MsgNode) (cs : List (List ℕ)) (j k : ℕ)
    → Shows node cs k
    → j ≤ k
    → Shows (deleted node cs j k) (take j cs ++ drop k cs) j
deleted-Shows node cs j k h le = record {
  valid =
      All-append IsChar (take j cs) _ (All-take IsChar j cs h.valid) (All-drop IsChar k cs h.valid);
  text = refl;
  cursor = refl;
  within = omega (
    arith,
    length-append {0} (take j cs) (drop k cs),
    length-take_le j cs (omega (arith, h.within)),
  );
}

splice_back :
    (cs : List (List ℕ)) (j k : ℕ)
    → j ≤ k
    → k ≤ length cs
    → splice j (take (k - j) (drop j cs)) (take j cs ++ drop k cs) ≡ cs
splice_back cs j k le within =
    let size = length-take_le j cs (omega arith) in
    let whole : j + (k - j) ≡ k = omega arith in
    let rest : drop k cs ≡ drop (k - j) (drop j cs) =
      ap (λ (n : ℕ). drop n cs) (sym whole) ∙ drop-add j (k - j) cs in
    let front : take j (take j cs ++ drop k cs) ≡ take j cs =
      ap (λ (n : ℕ). take n (take j cs ++ drop k cs)) (sym size)
      ∙ take-append_length (take j cs) _ in
    let back : drop j (take j cs ++ drop k cs) ≡ drop k cs =
      ap (λ (n : ℕ). drop n (take j cs ++ drop k cs)) (sym size)
      ∙ drop-append_length (take j cs) _ in
    rw (front, back, rest, take-append-drop (k - j) (drop j cs), take-append-drop j cs) refl

-- upd_insert of the bytes that a deletion took from well-formed text, at the cursor that it left,
-- gives back text and cursor; only the marker may differ.
pub upd_insert-deleted :
    (node : MsgNode) (event : InputEvent) (cs : List (List ℕ)) (j k : ℕ)
    → Shows node cs k
    → j ≤ k
    → event.seq ≡ some (encode (take (k - j) (drop j cs)))
    → (marker : ℤ) × (upd_insert (deleted node cs j k) event
        ≡ ok (record node { marker_pos = marker }))
upd_insert-deleted node event cs j k h le e =
    let taken_size : length (take (k - j) (drop j cs)) ≡ k - j =
      length-take_le (k - j) (drop j cs) (omega (arith, h.within, length-drop {0} j cs)) in
    let cursor : j + length (take (k - j) (drop j cs)) ≡ k = omega (arith, taken_size) in
    (
      (inserted (deleted node cs j k) cs j (length (take (k - j) (drop j cs)))).marker_pos,
      upd_insert-Shows (deleted node cs j k) event (take j cs ++ drop k cs)
            (take (k - j) (drop j cs)) j (deleted-Shows node cs j k h le)
            (All-take IsChar (k - j) (drop j cs) (All-drop IsChar j cs h.valid)) e
          ∙ rw (splice_back cs j k le h.within) (
              ap
                (λ (c : ℕ). ok (record {
                  text = encode cs;
                  cursor_pos = pos c;
                  marker_pos =
                      (inserted (deleted node cs j k) cs j
                        (length (take (k - j) (drop j cs)))).marker_pos;
                }))
                cursor
              ∙ rw (h.text, h.cursor) refl),
    )
