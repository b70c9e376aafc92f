-- ===== src/Process/Editing/TextEdits.antt =====
-- Insertion and deletion in a session, against the abstract editor.
use vjft.Prelude.{ℕ, ◌-◌, ◌≡◌, refl, ◌∙◌, sym, true, false}
use vjft.Prelude.{List, [], ◌∷◌, ◌++◌, length, take, drop, ltb, Option, none, some, ◌==◌}
use vjft.Prelude.{arith, ok, All, Bool-cases, inl, inr, ◌⊎◌, subst}
use vjft.Utf8.Chars.{IsChar, encode}
use vjft.Msg.{MsgNode}
use vjft.World.{CmdFunc, InputEvent, Action, World}
use vjft.Action.{recorded, create_action}
use vjft.Undo.{run_cmd}
use vjft.Process.Editing.{Buffer, Edit, apply, event_of, needs_text, has_text}
use vjft.Process.Editing.{IsActionOk, deletion_on_top}
use vjft.Edit.Shows.{Shows}
use vjft.Edit.Insert.{splice, inserted, inserted-Shows}
use vjft.Command.Insertion.{cmd_insert-Shows, top_cmd, kept}
use vjft.World.{eq_cmd?}
use vjft.Command.Deletion.{deleted, deleted-Shows, cmd_backspace-records}
use vjft.Command.{backspace_count, cmd_backspace, join_insert, no_action}
use vjft.Process.Editing.Recorded.{
  Does, recorded-IsActionOk, recorded_cases, recorded_command, is_deletion-other,
}

backspace_at_start :
    (world : World) (node : MsgNode) (event : InputEvent) (cs : List (List ℕ)) (k : ℕ)
    → Shows node cs k
    → k ≡ 0
    → cmd_backspace world node event ≡ no_action world node
unfolding cmd_backspace
backspace_at_start world node event cs k h e = ground (arith, h.cursor, e)

-- An action of `cmd_insert` or `cmd_backspace` that `mngAct` chose has its text, or is new.
recorded_text :
    (world : World) (event : InputEvent) (f : CmdFunc)
    → All IsActionOk world.undo_stack
    → needs_text (some f) ≡ true
    → ((recorded world event f).1 ≡ create_action event)
      ⊎ (has_text (recorded world event f).1.seq ≡ true)
recorded_text world event f h needs = elim (recorded_cases world event f h) [
  | inl new ↦ inl new
  | inr (same, good) ↦ inr (ground (arith, same, good, needs))
]

join_insert_text :
    (event : InputEvent) (new : List ℕ) (f : Option CmdFunc) (seq : Option (List ℕ)) (cnt : ℕ)
    → event.seq ≡ some new
    → has_text seq ≡ true
    → (act : Action) × (join_insert event (record { cmd_fn = f; seq = seq; cnt = cnt }) ≡ ok act)
      × (has_text act.seq ≡ true)
      × (act.cmd_fn ≡ f)
unfolding join_insert
join_insert_text event new f none cnt e h = cc
join_insert_text event new f (some old) cnt e h = elim (Bool-cases (ltb 1 cnt)) [
  | inl more ↦
      (record { cmd_fn = f; seq = some (old ++ new); cnt = 1 }, ground (arith, more, e), refl, refl)
  | inr one ↦ (record { cmd_fn = f; seq = some old; cnt = cnt }, ground (arith, one), refl, refl)
]

top_cmd-deletion :
    (stack : List (Option Action))
    → eq_cmd? (top_cmd stack) CmdFunc.cmd_backspace ≡ deletion_on_top stack
top_cmd-deletion [] = refl
top_cmd-deletion (none ∷ stack) = refl
top_cmd-deletion (some act ∷ stack) = refl

kept-IsActionOk :
    (stack : List (Option Action)) → All IsActionOk stack → All IsActionOk (kept stack)
kept-IsActionOk [] h = (refl, tt)
kept-IsActionOk (act ∷ stack) h = h

text-IsActionOk : (act : Action) → has_text act.seq ≡ true → IsActionOk (some act)
text-IsActionOk act h = ground arith

module _ (world : World) (node : MsgNode) (b : Buffer) (h : Shows node b.chars b.cursor)
    (a : All IsActionOk world.undo_stack) where
  pub insert-Does :
      (new : List (List ℕ))
      → All IsChar new
      → Does world node b (Edit.insert new) CmdFunc.cmd_insert false
  unfolding apply run_cmd create_action
  insert-Does new n =
      let event = event_of (Edit.insert new) in
      let (w, act) = recorded world event CmdFunc.cmd_insert in
      let text : has_text act.seq ≡ true =
        elim (recorded_text world event CmdFunc.cmd_insert a refl) [
          | inl fresh ↦ rw fresh refl
          | inr old ↦ old
        ] in
      let (act', joins, good, same) =
        join_insert_text event (encode new) act.cmd_fn act.seq act.cnt refl text in
      (
        (w, inserted node (splice b.cursor new b.chars) b.cursor (length new), some act'),
        cmd_insert-Shows world node event b.chars new b.cursor h n refl ∙ rw joins refl,
        record {
          shows = inserted-Shows node b.chars new b.cursor h n;
          actions = recorded-IsActionOk world event CmdFunc.cmd_insert a;
          result = text-IsActionOk act' good;
        },
        λ still.
            is_deletion-other CmdFunc.cmd_insert act'
              (rw same (recorded_command world event CmdFunc.cmd_insert a refl refl)) refl,
      )

  pub backspace-Does :
      deletion_on_top world.undo_stack ≡ false
      → Does world node b Edit.backspace CmdFunc.cmd_backspace true
  unfolding apply run_cmd
  backspace-Does top =
      let event = event_of Edit.backspace in
      elim (Bool-cases (b.cursor == 0)) [
        | inl start ↦
            let at_start : b.cursor ≡ 0 = ground (arith, start) in
            (
              (world, node, none),
              backspace_at_start world node event b.chars b.cursor h at_start,
              record {
                shows =
                    subst (λ (k : ℕ). Shows node (take (k - 1) b.chars ++ drop k b.chars) (k - 1))
                      (sym at_start) (subst (λ (k : ℕ). Shows node b.chars k) at_start h);
                actions = a;
                result = refl;
              },
              λ still. top,
            )
        | inr inside ↦
            let act : Action = record {
              cmd_fn = event.cmd_fn;
              seq = some (encode (take (b.cursor - (b.cursor - 1)) (drop (b.cursor - 1) b.chars)));
              cnt = 1;
            } in
            (
              (
                record world { undo_stack = kept world.undo_stack },
                deleted node b.chars (b.cursor - 1) b.cursor,
                some act,
              ),
              cmd_backspace-records world node event b.chars b.cursor 1 h (ground (arith, inside))
                  backspace_one (top_cmd-deletion world.undo_stack ∙ top),
              record {
                shows = deleted-Shows node b.chars (b.cursor - 1) b.cursor h (omega arith);
                actions = kept-IsActionOk world.undo_stack a;
                result = refl;
              },
              λ still. absurd (cc),
            )
      ]
    where
      backspace_one : backspace_count (event_of Edit.backspace) ≡ ok 1
      backspace_one = unfold backspace_count in refl
