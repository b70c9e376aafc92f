-- ===== src/Command/Insertion.antt =====
-- `cmd_insert` and `cmd_uninsert`, on a node that shows well-formed text.
use vjft.Prelude.{ℕ, ◌+◌, ◌-◌, ◌<◌, ◌≡◌, refl, ap, ◌∙◌}
use vjft.Prelude.{
  List, ◌++◌, length, take, drop, if◌then◌else◌, ltb, Option, none, some, append_assoc, [], ◌∷◌,
  true, false,
}
use vjft.Prelude.{pos, pos--ℤ, arith, ok, exit, ◌>>=◌, All, length-append}
use vjft.Prelude.{take-append_length, drop-append_length, drop-add, All-append}
use vjft.Prelude.{take-append-drop, All-take, All-drop}
use vjft.Utf8.Chars.{IsChar, encode, encode-append, offset, length-take_le}
use vjft.Utf8.Walk.{utf8_strlen-encode}
use vjft.Msg.{MsgNode}
use vjft.World.{CmdFunc, InputEvent, Action, World, eq_cmd?}
use vjft.Action.{recorded, mng_act}
use vjft.Edit.Shows.{Shows, byte_offset-Shows}
use vjft.Edit.Insert.{splice, inserted, upd_insert-Shows}
use vjft.Command.{no_action, join_insert, cmd_insert, cmd_uninsert, strcpy_within}

-- The text that an insertion records: its own, behind that of the action that it joins.
abbrev pub joined : Action → List ℕ → Option (List ℕ)
joined act new =
    if ltb 1 act.cnt then elim act.seq [ none ↦ none | some old ↦ some (old ++ new) ] else act.seq

-- On well-formed text cmd_insert puts well-formed characters between those before and behind the
-- cursor, the cursor behind them, and joins its bytes to the action.
pub cmd_insert-Shows :
    (world : World) (node : MsgNode) (event : InputEvent) (cs new : List (List ℕ)) (k : ℕ)
    → Shows node cs k
    → All IsChar new
    → event.seq ≡ some (encode new)
    → cmd_insert world node event ≡ (
        join_insert event (recorded world event CmdFunc.cmd_insert).1 >>= λ act. ok (
          (recorded world event CmdFunc.cmd_insert).0,
          inserted node (splice k new cs) k (length new),
          some act,
        ))
unfolding cmd_insert mng_act
cmd_insert-Shows world node event cs new k h n e =
    rw (upd_insert-Shows node event cs new k h n e) refl

-- The stack with the null pointer that an empty one gives.
abbrev pub kept : List (Option Action) → List (Option Action)
kept [] = none ∷ []
kept (act ∷ stack) = act ∷ stack

-- The command of the action on top.
abbrev pub top_cmd : List (Option Action) → Option CmdFunc
top_cmd [] = none
top_cmd (none ∷ stack) = none
top_cmd (some act ∷ stack) = act.cmd_fn

pub recorded_fresh :
    (world : World) (event : InputEvent) (f : CmdFunc)
    → eq_cmd? (top_cmd world.undo_stack) f ≡ false
    → recorded world event f ≡ (
      record world { undo_stack = kept world.undo_stack },
      record { cmd_fn = event.cmd_fn; seq = event.seq; cnt = 1 },
    )
unfolding recorded
recorded_fresh world event f other = on_stack world.undo_stack other
  where
    on_stack :
        (stack : List (Option Action))
        → eq_cmd? (top_cmd stack) f ≡ false
        → recorded (record world { undo_stack = stack }) event f ≡ (
          record world { undo_stack = kept stack },
          record { cmd_fn = event.cmd_fn; seq = event.seq; cnt = 1 },
        )
    on_stack [] other = refl
    on_stack (none ∷ stack) other = refl
    on_stack (some act ∷ stack) other = rw other refl

-- On well-formed text cmd_insert, where no insertion is on top of the undo stack, puts well-formed
-- characters between those before and behind the cursor, the cursor behind them, and returns a new
-- action that holds their bytes; the undo stack keeps what it had, and gets a null pointer if it
-- was empty.
pub cmd_insert-records :
    (world : World) (node : MsgNode) (event : InputEvent) (cs new : List (List ℕ)) (k : ℕ)
    → Shows node cs k
    → All IsChar new
    → event.seq ≡ some (encode new)
    → eq_cmd? (top_cmd world.undo_stack) CmdFunc.cmd_insert ≡ false
    → cmd_insert world node event
      ≡ ok (
        record world { undo_stack = kept world.undo_stack },
        inserted node (splice k new cs) k (length new),
        some (record { cmd_fn = event.cmd_fn; seq = some (encode new); cnt = 1 }),
      )
unfolding join_insert
cmd_insert-records world node event cs new k h n e other =
    cmd_insert-Shows world node event cs new k h n e
    ∙ rw (recorded_fresh world event CmdFunc.cmd_insert other, e) refl

-- On well-formed text cmd_insert, where an insertion, done once, is on top of the undo stack, puts
-- well-formed characters between those before and behind the cursor, the cursor behind them, takes
-- that insertion off the stack, and returns it with the new bytes behind its own.
pub cmd_insert-joins :
    (world : World) (node : MsgNode) (event : InputEvent) (cs new : List (List ℕ)) (k : ℕ)
    (old : List ℕ) (below : List (Option Action))
    → Shows node cs k
    → All IsChar new
    → event.seq ≡ some (encode new)
    → world.undo_stack
      ≡ some (record { cmd_fn = some CmdFunc.cmd_insert; seq = some old; cnt = 1 }) ∷ below
    → cmd_insert world node event
      ≡ ok (
        record world { undo_stack = below },
        inserted node (splice k new cs) k (length new),
        some (record { cmd_fn = some CmdFunc.cmd_insert; seq = some (old ++ encode new); cnt = 1 }),
      )
unfolding join_insert recorded
cmd_insert-joins world node event cs new k old below h n e top =
    cmd_insert-Shows world node event cs new k h n e ∙ rw (top, e) refl

add_sub : (a b : ℕ) → a + b - b ≡ a
add_sub a b = omega arith

-- A node whose cursor stands behind the characters `new`.
pub record ShowsAfter (node : MsgNode) (front new back : List (List ℕ)) : Type 0 where
  pub front_valid : All IsChar front
  pub new_valid : All IsChar new
  pub back_valid : All IsChar back
  pub text_after : node.text ≡ encode (front ++ (new ++ back))
  pub cursor_after : node.cursor_pos ≡ pos (length front + length new)

after-Shows :
    {node : MsgNode} {front new back : List (List ℕ)}
    → ShowsAfter node front new back
    → Shows node (front ++ (new ++ back)) (length front + length new)
after-Shows {front = front} {new = new} {back = back} h = record {
  valid =
      All-append IsChar front _ h.front_valid (All-append IsChar new _ h.new_valid h.back_valid);
  text = h.text_after;
  cursor = h.cursor_after;
  within = omega (arith, length-append {0} front (new ++ back), length-append {0} new back);
}

offset-after :
    (front new back : List (List ℕ))
    → offset (length front + length new) (front ++ (new ++ back))
      ≡ length (encode front) + length (encode new)
offset-after front new back =
    rw
      (
        ← append_assoc front new back,
        ← length-append {0} front new,
        take-append_length (front ++ new) back,
        encode-append front new,
      )
      (length-append (encode front) (encode new))

encode_three :
    (front new back : List (List ℕ))
    → encode (front ++ (new ++ back)) ≡ encode front ++ (encode new ++ encode back)
encode_three front new back = rw (encode-append front (new ++ back), encode-append new back) refl

removed :
    (front new back : List (List ℕ))
    → length (encode back) < length (encode new)
    → strcpy_within
        (encode (front ++ (new ++ back)))
        (length (encode front))
        (length (encode front) + length (encode new))
      ≡ ok (encode (front ++ back))
unfolding strcpy_within
removed front new back short = rw (encode_three front new back) (
    let apart : ltb
          (length (encode front ++ (encode new ++ encode back))
            - (length (encode front) + length (encode new)))
          (length (encode front) + length (encode new) - length (encode front))
        ≡ true =
      ground (
        arith,
        length-append {0} (encode front) (encode new ++ encode back),
        length-append {0} (encode new) (encode back),
      ) in
    rw
      (
        strcpy_within,
        apart,
        take-append_length (encode front),
        drop-add (length (encode front)) (length (encode new)),
        drop-append_length (encode front),
        drop-append_length (encode new),
        encode-append front back,
      )
      refl)

-- `cmd_uninsert` removes the characters before the cursor again, and moves the cursor back.
pub cmd_uninsert_removes :
    (world : World) (node : MsgNode) (event : InputEvent) (front new back : List (List ℕ))
    → length (encode back) < length (encode new)
    → ShowsAfter node front new back
    → event.seq ≡ some (encode new)
    → cmd_uninsert world node event
      ≡ no_action world
          (record node { text = encode (front ++ back); cursor_pos = pos (length front) })
unfolding cmd_uninsert
cmd_uninsert_removes world node event front new back short h e = ground (
  arith,
  e,
  utf8_strlen-encode new h.new_valid,
  byte_offset-Shows (after-Shows h),
  offset-after front new back,
  removed front new back short,
  h.text_after,
  h.cursor_after,
  pos--ℤ (length front + length new) (length new),
  add_sub (length (encode front)) (length (encode new)),
  add_sub (length front) (length new),
)

-- If fewer bytes stand before the cursor than were inserted, `cmd_uninsert` ends the program.
pub cmd_uninsert_exits :
    (world : World) (node : MsgNode) (event : InputEvent) (cs new : List (List ℕ)) (k : ℕ)
    → Shows node cs k
    → All IsChar new
    → event.seq ≡ some (encode new)
    → offset k cs < length (encode new)
    → cmd_uninsert world node event ≡ exit
unfolding cmd_uninsert
cmd_uninsert_exits world node event cs new k h n e lt =
    ground (arith, e, utf8_strlen-encode new n, byte_offset-Shows h)

-- cmd_uninsert after an insertion into well-formed text, with fewer bytes of text behind the
-- cursor than were inserted, gives back text and cursor; the marker keeps the place to which the
-- insertion moved it.
pub cmd_uninsert-insert :
    (world : World) (node : MsgNode) (event : InputEvent) (cs new : List (List ℕ)) (k : ℕ)
    → length (encode (drop k cs)) < length (encode new)
    → Shows node cs k
    → All IsChar new
    → event.seq ≡ some (encode new)
    → cmd_uninsert world (inserted node (splice k new cs) k (length new)) event
      ≡ no_action world
          (record node { marker_pos = (inserted node (splice k new cs) k (length new)).marker_pos })
cmd_uninsert-insert world node event cs new k short h n e =
    let size = length-take_le k cs h.within in
    cmd_uninsert_removes world (inserted node (splice k new cs) k (length new)) event (take k cs)
      new (drop k cs) short
      (record {
        front_valid = All-take IsChar k cs h.valid;
        new_valid = n;
        back_valid = All-drop IsChar k cs h.valid;
        text_after = refl;
        cursor_after = ap pos (omega (arith, size));
      })
      e
    ∙ rw (take-append-drop k cs, size, ← h.text, ← h.cursor) refl
