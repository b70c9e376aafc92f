-- ===== src/Process/Editing/Session.antt =====
-- Each event and each session of edits does to the globals what it does to the abstract editor.
use vjft.Prelude.{◌≡◌, refl, Bool, false, ◌||◌}
use vjft.Prelude.{List, [], ◌∷◌, some, map}
use vjft.Prelude.{ok, All}
use vjft.World.{CmdFunc, EventType, World, eq_cmd}
use vjft.Key.{KeyEntry}
use vjft.Process.{enqueue_event, take_result, handle_event, process_events}
use vjft.Process.Editing.{Buffer, Edit, apply, apply_all, event_of, IsValidEdit}
use vjft.Process.Editing.{Represents, IsDefinedFrom, deletion_on_top}
use vjft.Prelude.{true, ◌∙◌}
use vjft.Process.Editing.Recorded.{Does}
use vjft.Process.Editing.Recorded.{command_runs, take_result-Represents, take_result-top}
use vjft.Process.Editing.Motions.{backward_char-Does, forward_char-Does, backward_word-Does}
use vjft.Process.Editing.Motions.{forward_word-Does, to_end-Does}
use vjft.Process.Editing.TextEdits.{insert-Does, backspace-Does}

-- Whether a deletion may be on top of the undo stack behind an edit.
abbrev deletes_after : Bool → Edit → Bool
deletes_after deletes (Edit.insert new) = false
deletes_after deletes Edit.backspace = true
deletes_after deletes Edit.backward_char = deletes
deletes_after deletes Edit.forward_char = deletes
deletes_after deletes Edit.backward_word = deletes
deletes_after deletes Edit.forward_word = deletes
deletes_after deletes Edit.to_end_of_line = deletes

-- A deletion is asked for only where none is on top.
abbrev IsAllowed : Bool → Edit → Type 0
IsAllowed deletes Edit.backspace = deletes ≡ false
IsAllowed deletes _ = Unit {0}

IsDefinedFrom-cons :
    (deletes : Bool) (e : Edit) (es : List Edit)
    → IsDefinedFrom deletes (e ∷ es)
    → IsAllowed deletes e × IsDefinedFrom (deletes_after deletes e) es
unfolding IsDefinedFrom
IsDefinedFrom-cons deletes (Edit.insert new) es d = (tt, d)
IsDefinedFrom-cons deletes Edit.backspace es (alone, d) = (alone, d)
IsDefinedFrom-cons deletes Edit.backward_char es d = (tt, d)
IsDefinedFrom-cons deletes Edit.forward_char es d = (tt, d)
IsDefinedFrom-cons deletes Edit.backward_word es d = (tt, d)
IsDefinedFrom-cons deletes Edit.forward_word es d = (tt, d)
IsDefinedFrom-cons deletes Edit.to_end_of_line es d = (tt, d)

abbrev Handled : List KeyEntry → World → Buffer → Bool → Edit → Type 0
Handled key_map world b deletes e =
    (r : World × Bool) × (handle_event key_map world (event_of e) ≡ ok r)
    × Represents r.0 (apply e b)
    × (deletes_after deletes e ≡ false → deletion_on_top r.0.undo_stack ≡ false)

-- An edit that is asked for by its event is handled, and the globals stand for the edited text.
pub handle_event-Represents :
    (key_map : List KeyEntry) (world : World) (b : Buffer) (e : Edit) (deletes : Bool)
    → Represents world b
    → IsValidEdit e
    → (deletes ≡ false → deletion_on_top world.undo_stack ≡ false)
    → IsAllowed deletes e
    → (r : World × Bool) × (handle_event key_map world (event_of e) ≡ ok r)
      × Represents r.0 (apply e b)
      × (deletes_after deletes e ≡ false → deletion_on_top r.0.undo_stack ≡ false)
handle_event-Represents key_map world b e deletes h v top allowed = by_edit e v allowed
  where
    open h use {node, current, shows, actions}

    handled :
        (e : Edit) (f : CmdFunc)
        → (event_of e).type ≡ EventType.cmd
        → (event_of e).cmd_fn ≡ some f
        → (eq_cmd f CmdFunc.cmd_undo || eq_cmd f CmdFunc.cmd_redo) ≡ false
        → Does world node b e f (deletes_after deletes e)
        → Handled key_map world b deletes e
    handled e f t c other (step, runs, leaves, top') = (
      take_result step,
      command_runs key_map world (event_of e) f node step t c other current runs,
      take_result-Represents step (apply e b) leaves,
      λ still. take_result-top step ∙ top' still,
    )

    by_edit : (e : Edit) → IsValidEdit e → IsAllowed deletes e → Handled key_map world b deletes e
    by_edit (Edit.insert new) v allowed =
        handled _ _ refl refl refl (insert-Does world node b shows actions new v)
    by_edit Edit.backspace v allowed =
        handled _ _ refl refl refl (backspace-Does world node b shows actions (top allowed))
    by_edit Edit.backward_char v allowed =
        handled _ _ refl refl refl (backward_char-Does world node b shows actions deletes top)
    by_edit Edit.forward_char v allowed =
        handled _ _ refl refl refl (forward_char-Does world node b shows actions deletes top)
    by_edit Edit.backward_word v allowed =
        handled _ _ refl refl refl (backward_word-Does world node b shows actions deletes top)
    by_edit Edit.forward_word v allowed =
        handled _ _ refl refl refl (forward_word-Does world node b shows actions deletes top)
    by_edit Edit.to_end_of_line v allowed =
        handled _ _ refl refl refl (to_end-Does world node b shows actions deletes top)

-- From a flag that knows of a deletion on top of the undo stack.
session :
    (key_map : List KeyEntry) (es : List Edit) (world : World) (updated : Bool) (b : Buffer)
    (deletes : Bool)
    → Represents world b
    → All IsValidEdit es
    → (deletes ≡ false → deletion_on_top world.undo_stack ≡ false)
    → IsDefinedFrom deletes es
    → (r : World × Bool) × (process_events key_map (map event_of es) world updated ≡ ok r)
      × Represents r.0 (apply_all es b)
unfolding process_events apply_all
session key_map [] world updated b deletes h v top d = ((world, updated), refl, h)
session key_map (e ∷ es) world updated b deletes h (v, vs) top d =
    let (allowed, d') = IsDefinedFrom-cons deletes e es d in
    let ((w, now), handled, after, top') =
      handle_event-Represents key_map world b e deletes h v top allowed in
    let event = event_of e in
    let logged = record w { history = enqueue_event w.history event.type event.cmd_fn event.seq } in
    let (r, runs, final) =
      session key_map es logged (updated || now) (apply e b) (deletes_after deletes e)
        (record {
          node = after.node;
          current = after.current;
          shows = after.shows;
          actions = after.actions;
        })
        vs top' d' in
    (r, rw handled runs, final)

-- A session of insertions of well-formed text, deletions and motions other than to the beginning
-- of a line, in which something is inserted between a deletion and the next one, also between one
-- that is on top of the undo stack and the first, runs through processEvents without a fault, from
-- globals that represent a buffer, and leaves globals that represent the buffer that the abstract
-- editor makes of the same edits.
pub process_events-Represents :
    (key_map : List KeyEntry) (es : List Edit) (world : World) (updated : Bool) (b : Buffer)
    → Represents world b
    → All IsValidEdit es
    → IsDefinedFrom (deletion_on_top world.undo_stack) es
    → (r : World × Bool) × (process_events key_map (map event_of es) world updated ≡ ok r)
      × Represents r.0 (apply_all es b)
process_events-Represents key_map es world updated b h v d =
    session key_map es world updated b (deletion_on_top world.undo_stack) h v (λ e. e) d
