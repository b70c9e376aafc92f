-- ===== src/Msg/Laws.antt =====
-- What the message list promises: a sequence of nodes with a position that the moves change.
use vjft.Prelude.{ℕ, suc, ◌≡◌, refl, ap, ◌∙◌, List, [], ◌∷◌, ◌++◌, append_assoc}
use vjft.Prelude.{map, Option, none, some, arith, length, ◌≢◌}
use vjft.Msg.{MsgNode, MsgList, new_node, push_message, move_to_next_message}
use vjft.Msg.{move_to_previous_message}
use mathlib.Core.List.{reverse, reverse-cons, reverse-append}

-- The nodes from `head` to `tail`.
abbrev pub nodes : MsgList → List MsgNode
nodes list = reverse list.newer ++ elim list.curr [ none ↦ list.older | some n ↦ n ∷ list.older ]

-- `size` counts the nodes, and `curr` is null only in the empty list.
pub record IsWellFormed (list : MsgList) : Type 0 where
  pub counted : list.size ≡ length (nodes list)
  pub no_newer : list.curr ≡ none → list.newer ≡ []
  pub no_older : list.curr ≡ none → list.older ≡ []

abbrev msg_list : List MsgNode → Option MsgNode → List MsgNode → ℕ → MsgList
msg_list newer curr older size = record { newer = newer; curr = curr; older = older; size = size }

nodes-push_parts :
    (newer : List MsgNode) (curr : Option MsgNode) (older : List MsgNode) (size : ℕ) (text : List ℕ)
    → IsWellFormed (msg_list newer curr older size)
    → nodes (push_message (msg_list newer curr older size) text)
      ≡ new_node text ∷ nodes (msg_list newer curr older size)
unfolding push_message
nodes-push_parts newer none older size text h = rw (h.no_newer refl) refl
nodes-push_parts newer (some n) older size text h =
    rw (reverse-append newer (new_node text ∷ [])) refl

-- A message goes to the head of a well-formed list, and nothing else in it moves.
pub nodes-push_message :
    (list : MsgList) (text : List ℕ)
    → IsWellFormed list
    → nodes (push_message list text) ≡ new_node text ∷ nodes list
nodes-push_message list text h = nodes-push_parts list.newer list.curr list.older list.size text h

push_parts_pointed :
    (newer : List MsgNode) (curr : Option MsgNode) (older : List MsgNode) (size : ℕ) (text : List ℕ)
    → (push_message (msg_list newer curr older size) text).curr ≢ none
unfolding push_message
push_parts_pointed newer none older size text e = cc
push_parts_pointed newer (some n) older size text e = cc

size-push_message :
    (newer : List MsgNode) (curr : Option MsgNode) (older : List MsgNode) (size : ℕ) (text : List ℕ)
    → (push_message (msg_list newer curr older size) text).size ≡ suc size
unfolding push_message
size-push_message newer none older size text = omega arith
size-push_message newer (some n) older size text = omega arith

-- push_message keeps a list well formed: size counts the nodes, and curr is null only in the empty
-- list.
pub push_message-IsWellFormed :
    (list : MsgList) (text : List ℕ) → IsWellFormed list → IsWellFormed (push_message list text)
push_message-IsWellFormed list text h = record {
  counted = omega (
    arith,
    size-push_message list.newer list.curr list.older list.size text,
    h.counted,
    ap length (nodes-push_message list text h),
  );
  no_newer = λ e. absurd (push_parts_pointed list.newer list.curr list.older list.size text e);
  no_older = λ e. absurd (push_parts_pointed list.newer list.curr list.older list.size text e);
}

-- The pushes of some texts, one after the other.
pub push_all : MsgList → List (List ℕ) → MsgList
push_all list [] = list
push_all list (text ∷ texts) = push_all (push_message list text) texts

-- Pushing texts one after the other on a well-formed list puts their nodes at the head, the last
-- first, and leaves the others.
pub nodes-push_all :
    (list : MsgList) (texts : List (List ℕ))
    → IsWellFormed list
    → nodes (push_all list texts) ≡ reverse (map new_node texts) ++ nodes list
unfolding push_all
nodes-push_all list [] h = refl
nodes-push_all list (text ∷ texts) h =
    nodes-push_all (push_message list text) texts (push_message-IsWellFormed list text h)
    ∙ rw (nodes-push_message list text h, reverse-cons, append_assoc) refl

move_next_parts :
    (newer : List MsgNode) (curr : Option MsgNode) (older : List MsgNode) (size : ℕ)
    → nodes (move_to_next_message (msg_list newer curr older size))
      ≡ nodes (msg_list newer curr older size)
unfolding move_to_next_message
move_next_parts newer none older size = refl
move_next_parts newer (some n) [] size = refl
move_next_parts newer (some n) (m ∷ older) size = rw (reverse-cons, append_assoc) refl

move_previous_parts :
    (newer : List MsgNode) (curr : Option MsgNode) (older : List MsgNode) (size : ℕ)
    → nodes (move_to_previous_message (msg_list newer curr older size))
      ≡ nodes (msg_list newer curr older size)
unfolding move_to_previous_message
move_previous_parts newer none older size = refl
move_previous_parts [] (some n) older size = refl
move_previous_parts (m ∷ newer) (some n) older size = rw (reverse-cons, append_assoc) refl

-- The two moves change neither the nodes nor their order.
pub nodes_move :
    (list : MsgList)
    → (nodes (move_to_next_message list) ≡ nodes list)
      × (nodes (move_to_previous_message list) ≡ nodes list)
nodes_move list = (
  move_next_parts list.newer list.curr list.older list.size,
  move_previous_parts list.newer list.curr list.older list.size,
)

previous_next_parts :
    (newer : List MsgNode) (n : MsgNode) (m : MsgNode) (older : List MsgNode) (size : ℕ)
    → move_to_previous_message (move_to_next_message (msg_list newer (some n) (m ∷ older) size))
      ≡ msg_list newer (some n) (m ∷ older) size
unfolding move_to_previous_message move_to_next_message
previous_next_parts newer n m older size = refl
