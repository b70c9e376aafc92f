-- ===== src/Action.antt =====
-- term/event.c: the stacks of actions, and `mngAct`, through which the commands record what they do.
-- Memory is not exhausted; a node that a command gets is not null.
use vjft.Prelude.{◌+◌, List, [], ◌∷◌, Option, none, some, Run, ok, ◌>>=◌}
use vjft.Prelude.{if◌then◌else◌}
use vjft.Msg.{MsgNode}
use vjft.World.{CmdFunc, InputEvent, Action, World, eq_cmd?}

unfoldable pub create_action : InputEvent → Action
create_action event = record { cmd_fn = event.cmd_fn; seq = event.seq; cnt = 1 }

unfoldable pub push_action : List (Option Action) → Option Action → List (Option Action)
push_action stack act = act ∷ stack

-- The action, and the stack that is left; the empty stack gives a null pointer.
unfoldable pub pop_action : List (Option Action) → Option Action × List (Option Action)
pop_action [] = (none, [])
pop_action (act ∷ stack) = (act, stack)

unfoldable pub clear_stack : List (Option Action) → List (Option Action)
clear_stack [] = []
clear_stack (act ∷ stack) = clear_stack stack

-- The new action and the undo stack. An action of the same command is taken off the stack and
-- counted up; any other goes back, also the null pointer that an empty stack gave.
unfoldable pub choose_action :
    CmdFunc → InputEvent → Option Action × List (Option Action) → Action × List (Option Action)
unfolding create_action push_action
choose_action action event (none, stack) = (create_action event, push_action stack none)
choose_action action event (some prev, stack) =
    if eq_cmd? prev.cmd_fn action
    then (record prev { cnt = prev.cnt + 1 }, stack)
    else (create_action event, push_action stack (some prev))

-- The globals with the stack that is left, and the action.
unfoldable pub recorded : World → InputEvent → CmdFunc → World × Action
unfolding choose_action pop_action
recorded world event action =
    let (new_action, stack) = choose_action action event (pop_action world.undo_stack) in
    (record world { undo_stack = stack }, new_action)

unfoldable pub mng_act :
    World
    → MsgNode
    → InputEvent
    → CmdFunc
    → (MsgNode → InputEvent → Run MsgNode)
    → Run (World × MsgNode × Action)
mng_act world node event action update_fn =
    let (world', new_action) = recorded world event action in
    update_fn node event >>= λ node'. ok (world', node', new_action)

-- The call without an update function.
abbrev pub no_update : MsgNode → InputEvent → Run MsgNode
no_update node event = ok node
