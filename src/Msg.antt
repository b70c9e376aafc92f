-- ===== src/Msg.antt =====
-- term/msg.c: the list of messages. The nodes from `head` on are `newer`, `*curr`, `older`: the list
-- is doubly linked, so both sides of `curr` are at hand. Memory is not exhausted.
pub mod Laws
use vjft.Prelude.{ℕ, suc, ◌+◌, List, [], ◌∷◌, ◌++◌, ℤ, pos, negsuc, Option, none, some}

-- A node without its links.
pub record MsgNode : Type 0 where
  pub text : List ℕ
  pub cursor_pos : ℤ
  pub marker_pos : ℤ

-- `newer` runs from `curr->prev` to `head`, and `older` from `curr->next` to `tail`.
pub record MsgList : Type 0 where
  pub newer : List MsgNode
  pub curr : Option MsgNode
  pub older : List MsgNode
  pub size : ℕ

unfoldable pub init_msg_list : MsgList
init_msg_list = record { newer = []; curr = none; older = []; size = 0 }

abbrev pub new_node : List ℕ → MsgNode
new_node text = record { text = text; cursor_pos = pos 0; marker_pos = negsuc 0 }

-- The new node becomes the head, and `curr` if there is none.
unfoldable pub push_message : MsgList → List ℕ → MsgList
push_message list text = elim list.curr [
  | none ↦ record list { curr = some (new_node text); size = list.size + 1 }
  | some node ↦ record list { newer = list.newer ++ (new_node text ∷ []); size = list.size + 1 }
]

unfoldable pub clear_msg_list : MsgList → MsgList
clear_msg_list list = record { newer = []; curr = none; older = []; size = 0 }

-- `curr->next`, towards the tail
unfoldable pub move_to_next_message : MsgList → MsgList
move_to_next_message list = elim list.curr [
  | none ↦ list
  | some node ↦ elim list.older [
    | [] ↦ list
    | next ∷ older ↦ record list { newer = node ∷ list.newer; curr = some next; older = older }
  ]
]

unfoldable pub move_to_previous_message : MsgList → MsgList
move_to_previous_message list = elim list.curr [
  | none ↦ list
  | some node ↦ elim list.newer [
    | [] ↦ list
    | prev ∷ newer ↦ record list { newer = newer; curr = some prev; older = node ∷ list.older }
  ]
]
