-- ===== src/Process/Editing/Recorded.antt =====
-- What `mngAct` records, and how `processEvents` takes the result of a command.
use vjft.Prelude.{◌≡◌, refl, true, false, ◌||◌}
use vjft.Prelude.{List, [], ◌∷◌, Option, none, some}
use vjft.Prelude.{arith, ok, All, Bool-cases, inl, inr, ◌⊎◌}
use vjft.Msg.{MsgNode}
use vjft.World.{CmdFunc, EventType, InputEvent, Action, World, Step, eq_cmd, eq_cmd?}
use vjft.Action.{recorded, create_action}
use vjft.Key.{KeyEntry}
use vjft.Undo.{run_cmd}
use vjft.Process.{take_result, command_event, handle_event}
use vjft.Prelude.{Bool}
use vjft.Process.Editing.{is_deletion, deletion_on_top, Buffer, Edit, apply, event_of, needs_text}
use vjft.Process.Editing.{IsActionOk, Represents}
use vjft.Edit.Shows.{Shows}

-- What `mngAct` leaves on the stack is in order, and an action that it took off it holds its text if
-- it must.
pub recorded-IsActionOk :
    (world : World) (event : InputEvent) (f : CmdFunc)
    → All IsActionOk world.undo_stack
    → All IsActionOk (recorded world event f).0.undo_stack
unfolding recorded
recorded-IsActionOk world event f h = on_stack world.undo_stack h
  where
    on_stack :
        (stack : List (Option Action))
        → All IsActionOk stack
        → All IsActionOk (recorded (record world { undo_stack = stack }) event f).0.undo_stack
    on_stack [] h = (refl, tt)
    on_stack (none ∷ stack) h = h
    on_stack (some prev ∷ stack) (h, hs) = elim (Bool-cases (eq_cmd? prev.cmd_fn f)) [
      | inl same ↦ rw same hs
      | inr other ↦ rw other (h, hs)
    ]

-- The action is new, or it was on the stack, of the same command and in order.
pub recorded_cases :
    (world : World) (event : InputEvent) (f : CmdFunc)
    → All IsActionOk world.undo_stack
    → ((recorded world event f).1 ≡ create_action event)
      ⊎ ((eq_cmd? (recorded world event f).1.cmd_fn f ≡ true)
          × IsActionOk (some (recorded world event f).1))
unfolding recorded
recorded_cases world event f h = on_stack world.undo_stack h
  where
    on_stack :
        (stack : List (Option Action))
        → All IsActionOk stack
        → (let r = recorded (record world { undo_stack = stack }) event f in
            (r.1 ≡ create_action event) ⊎ ((eq_cmd? r.1.cmd_fn f ≡ true) × IsActionOk (some r.1)))
    on_stack [] h = inl refl
    on_stack (none ∷ stack) h = inl refl
    on_stack (some prev ∷ stack) (h, hs) = elim (Bool-cases (eq_cmd? prev.cmd_fn f)) [
      | inl same ↦ inr (rw same (same, h))
      | inr other ↦ inl (rw other refl)
    ]

-- An action of the command of the event.
pub recorded_command :
    (world : World) (event : InputEvent) (f : CmdFunc)
    → All IsActionOk world.undo_stack
    → event.cmd_fn ≡ some f
    → eq_cmd f f ≡ true
    → eq_cmd? (recorded world event f).1.cmd_fn f ≡ true
unfolding create_action
recorded_command world event f h e same = elim (recorded_cases world event f h) [
  | inl new ↦ rw (new, create_action, e) same
  | inr (is, good) ↦ is
]

-- Another command than `cmd_backspace`.
pub is_deletion-other :
    (f : CmdFunc) (act : Action)
    → eq_cmd? act.cmd_fn f ≡ true
    → eq_cmd f CmdFunc.cmd_backspace ≡ false
    → is_deletion (some act) ≡ false
is_deletion-other f act same other = of_cmd act.cmd_fn same
  where
    of_cmd : (g : Option CmdFunc) → eq_cmd? g f ≡ true → eq_cmd? g CmdFunc.cmd_backspace ≡ false
    of_cmd none same = refl
    of_cmd (some g) same = ground (arith, other)

-- The command is called on the current node, and its result goes back into the globals.
pub command_runs :
    (key_map : List KeyEntry) (world : World) (event : InputEvent) (f : CmdFunc) (node : MsgNode)
    (step : Step)
    → event.type ≡ EventType.cmd
    → event.cmd_fn ≡ some f
    → (eq_cmd f CmdFunc.cmd_undo || eq_cmd f CmdFunc.cmd_redo) ≡ false
    → world.msg_list.curr ≡ some node
    → run_cmd f world node event ≡ ok step
    → handle_event key_map world event ≡ ok (take_result step)
unfolding handle_event command_event
command_runs key_map world event f node step t e other c r = ground (arith, t, e, other, c, r)

-- A step that shows the buffer, on a stack that is in order.
pub record Leaves (step : Step) (b : Buffer) : Type 0 where
  pub shows : Shows step.1 b.chars b.cursor
  pub actions : All IsActionOk step.0.undo_stack
  pub result : IsActionOk step.2

-- Whether a deletion is on top of the undo stack once the result is there.
abbrev pub leaves_deletion : Step → Bool
leaves_deletion (w, node, none) = deletion_on_top w.undo_stack
leaves_deletion (w, node, some act) = is_deletion (some act)

pub take_result-top :
    (step : Step) → deletion_on_top (take_result step).0.undo_stack ≡ leaves_deletion step
unfolding take_result
take_result-top (w, node, none) = refl
take_result-top (w, node, some act) = refl

pub take_result-Represents :
    (step : Step) (b : Buffer) → Leaves step b → Represents (take_result step).0 b
unfolding take_result
take_result-Represents (w, node, none) b h = record {
  node = node;
  current = refl;
  shows = h.shows;
  actions = h.actions;
}
take_result-Represents (w, node, some act) b h = record {
  node = node;
  current = refl;
  shows = h.shows;
  actions = (h.result, h.actions);
}

pub recorded_motion :
    (world : World) (event : InputEvent) (f : CmdFunc)
    → All IsActionOk world.undo_stack
    → event.cmd_fn ≡ some f
    → needs_text (some f) ≡ false
    → IsActionOk (some (recorded world event f).1)
unfolding create_action
recorded_motion world event f h e plain = elim (recorded_cases world event f h) [
  | inl new ↦ rw (new, create_action, e, plain) refl
  | inr (_, good) ↦ good
]

-- The command of an edit, called on a node, leaves what the edit makes of the abstract editor, and a
-- deletion on top of the undo stack only if `deletes`.
abbrev pub Does : World → MsgNode → Buffer → Edit → CmdFunc → Bool → Type 0
Does world node b e f deletes =
    (step : Step) × (run_cmd f world node (event_of e) ≡ ok step)
    × Leaves step (apply e b)
    × (deletes ≡ false → leaves_deletion step ≡ false)
