-- ===== src/Edit/Insert.antt =====
-- Insertion and its inverse, on a node that shows well-formed text.
use vjft.Prelude.{ℕ, ◌+◌, ◌≤◌, ◌≡◌, refl, ap}
use vjft.Prelude.{List, ◌++◌, length, take, drop, if◌then◌else◌, some}
use vjft.Prelude.{ℤ, pos, ◌+ℤ◌, leb_ℤ, All, arith, pos-+ℤ, ok, ◌>>=◌, length-append, All-append}
use vjft.Prelude.{All-take, All-drop, deref}
use vjft.Utf8.Chars.{
  IsChar, encode, offset, encode-append, take-offset, drop-offset, length-take_le,
}
use vjft.Utf8.Walk.{utf8_strlen-encode}
use vjft.Msg.{MsgNode}
use vjft.World.{InputEvent}
use vjft.Edit.{upd_insert, insert_bytes}
use vjft.Prelude.{leb, true, take-append-drop}
use vjft.Edit.Shows.{Shows, byte_offset-Shows}

-- The characters `new` between the first `k` of `cs` and the others.
abbrev pub splice : ℕ → List (List ℕ) → List (List ℕ) → List (List ℕ)
splice k new cs = take k cs ++ (new ++ drop k cs)

pub splice-IsChar :
    (k : ℕ) (new cs : List (List ℕ)) → All IsChar new → All IsChar cs → All IsChar (splice k new cs)
splice-IsChar k new cs n h =
    All-append IsChar (take k cs) _ (All-take IsChar k cs h)
      (All-append IsChar new _ n (All-drop IsChar k cs h))

pub length-splice :
    (k : ℕ) (new cs : List (List ℕ)) → k ≤ length cs → k + length new ≤ length (splice k new cs)
length-splice k new cs h = omega (
  arith,
  length-append {0} (take k cs) (new ++ drop k cs),
  length-append {0} new (drop k cs),
  length-take_le k cs h,
)

encode-splice :
    (k : ℕ) (new cs : List (List ℕ))
    → take (offset k cs) (encode cs) ++ (encode new ++ drop (offset k cs) (encode cs))
      ≡ encode (splice k new cs)
encode-splice k new cs =
    rw (take-offset k cs, drop-offset k cs, encode-append (take k cs), encode-append new) refl

abbrev node_at : MsgNode → List ℕ → ℕ → ℤ → MsgNode
node_at node text n cursor_pos = record {
  text = text;
  cursor_pos = cursor_pos;
  marker_pos =
      if leb_ℤ cursor_pos node.marker_pos then node.marker_pos +ℤ pos n else node.marker_pos;
}

-- The node after an insertion of `n` characters: the marker moves if it is at or behind the new cursor.
abbrev pub inserted : MsgNode → List (List ℕ) → ℕ → ℕ → MsgNode
inserted node cs k n = node_at node (encode cs) n (pos (k + n))

-- An offset of the text lies inside it.
pub offset-le : (k : ℕ) (cs : List (List ℕ)) → leb (offset k cs) (length (encode cs)) ≡ true
offset-le k cs =
    let parts = ap length (encode-append (take k cs) (drop k cs)) in
    let whole = ap (λ xs. length (encode xs)) (take-append-drop k cs) in
    ground (arith, parts, whole, length-append (encode (take k cs)) (encode (drop k cs)))

insert_bytes-encode :
    (k : ℕ) (new cs : List (List ℕ))
    → insert_bytes (encode cs) (offset k cs) (encode new) ≡ ok (encode (splice k new cs))
unfolding insert_bytes
insert_bytes-encode k new cs = rw (insert_bytes, offset-le k cs, encode-splice k new cs) refl

pub upd_insert-Shows :
    (node : MsgNode) (event : InputEvent) (cs new : List (List ℕ)) (k : ℕ)
    → Shows node cs k
    → All IsChar new
    → event.seq ≡ some (encode new)
    → upd_insert node event ≡ ok (inserted node (splice k new cs) k (length new))
unfolding upd_insert
upd_insert-Shows node event cs new k h n e =
    rw
      (
        byte_offset-Shows h,
        e,
        ◌>>=◌,
        deref,
        utf8_strlen-encode new n,
        h.cursor,
        h.text,
        insert_bytes-encode k new cs,
        ◌>>=◌,
      )
      (ap (λ (c : ℤ). ok (node_at node (encode (splice k new cs)) (length new) c))
        (pos-+ℤ k (length new)))

pub inserted-Shows :
    (node : MsgNode) (cs new : List (List ℕ)) (k : ℕ)
    → Shows node cs k
    → All IsChar new
    → Shows (inserted node (splice k new cs) k (length new)) (splice k new cs) (k + length new)
inserted-Shows node cs new k h n = record {
  valid = splice-IsChar k new cs n h.valid;
  text = refl;
  cursor = refl;
  within = length-splice k new cs h.within;
}
