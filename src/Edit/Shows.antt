-- ===== src/Edit/Shows.antt =====
-- The abstract view of a node: the characters of its text, and the cursor as an index between them.
use vjft.Prelude.{ℕ, ◌≤◌, ◌≡◌, List, pos, ok, All, length, ap, ◌∙◌}
use vjft.Utf8.{utf8_strlen, utf8_byte_offset}
use vjft.Utf8.Chars.{IsChar, encode, offset}
use vjft.Utf8.Walk.{utf8_strlen-encode, utf8_byte_offset-encode}
use vjft.Msg.{MsgNode}

pub record Shows (node : MsgNode) (cs : List (List ℕ)) (k : ℕ) : Type 0 where
  pub valid : All IsChar cs
  pub text : node.text ≡ encode cs
  pub cursor : node.cursor_pos ≡ pos k
  pub within : k ≤ length cs

-- The two calls by which the updates start.
pub strlen-Shows :
    {node : MsgNode} {cs : List (List ℕ)} {k : ℕ}
    → Shows node cs k
    → utf8_strlen node.text ≡ ok (length cs)
strlen-Shows {cs = cs} h = ap utf8_strlen h.text ∙ utf8_strlen-encode cs h.valid

pub byte_offset-Shows :
    {node : MsgNode} {cs : List (List ℕ)} {k : ℕ}
    → Shows node cs k
    → utf8_byte_offset node.text node.cursor_pos ≡ ok (offset k cs)
byte_offset-Shows {cs = cs} {k = k} h = rw (h.text, h.cursor) (utf8_byte_offset-encode k cs h.valid)
