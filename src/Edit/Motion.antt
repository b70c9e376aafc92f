-- ===== src/Edit/Motion.antt =====
-- The updates that move the cursor, on a node that shows well-formed text.
use vjft.Prelude.{ℕ, ◌+◌, ◌-◌, ◌≡◌}
use vjft.Prelude.{List, length, min}
use vjft.Prelude.{pos, arith, ok}
use vjft.Msg.{MsgNode}
use vjft.World.{InputEvent}
use vjft.Edit.{upd_backward_char, upd_forward_char}
use vjft.Edit.Shows.{Shows, strlen-Shows}

abbrev pub at_cursor : MsgNode → ℕ → MsgNode
at_cursor node k = record node { cursor_pos = pos k }

module _ (node : MsgNode) (event : InputEvent) (cs : List (List ℕ)) (k : ℕ)
    (h : Shows node cs k) where
  pub upd_backward_char-Shows : upd_backward_char node event ≡ ok (at_cursor node (k - 1))
  unfolding upd_backward_char
  upd_backward_char-Shows = ground (arith, h.cursor)

  pub upd_forward_char-Shows :
      upd_forward_char node event ≡ ok (at_cursor node (min (k + 1) (length cs)))
  unfolding upd_forward_char
  upd_forward_char-Shows = ground (arith, h.cursor, h.within, strlen-Shows h)
