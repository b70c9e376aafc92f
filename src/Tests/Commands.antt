-- ===== src/Tests/Commands.antt =====
-- The theorems on single commands at concrete inputs.
use vjft.Prelude.{◌≡◌, refl, [], ◌∷◌, arith}
use vjft.Prelude.{ok, some, ℤ, codes}
use vjft.Tests.Sessions.{runs, start, press, type}
use vjft.Tests.Editing.{text, node, node-Shows, ab, ab-IsChar}
use vjft.World.{CmdFunc, InputEvent, World}
use vjft.Msg.{MsgNode}
use vjft.Edit.Shows.{Shows}
use vjft.Prelude.{none, pos}
use vjft.Edit.Insert.{splice, inserted}
use vjft.Command.{cmd_backspace, cmd_insert, cmd_uninsert, no_action}
use vjft.Command.Insertion.{cmd_insert-records, cmd_insert-joins, cmd_uninsert-insert}
use vjft.Command.Deletion.{cmd_backspace-records, upd_insert-deleted, deleted}
use vjft.Edit.{upd_insert}

cmd_insert-records_example :
    cmd_insert start node (type (codes "ab"))
    ≡ ok (
      record start { undo_stack = none ∷ [] },
      inserted node (splice 2 ab text) 2 2,
      some (record { cmd_fn = some CmdFunc.cmd_insert; seq = some (codes "ab"); cnt = 1 }),
    )
cmd_insert-records_example =
    cmd_insert-records start node (type (codes "ab")) text ab 2 node-Shows ab-IsChar refl refl

abbrev behind_insertion : World
behind_insertion = record start {
  undo_stack =
      some (record { cmd_fn = some CmdFunc.cmd_insert; seq = some (codes "x"); cnt = 1 }) ∷ [];
}

cmd_insert-joins_example :
    cmd_insert behind_insertion node (type (codes "ab"))
    ≡ ok (
      record start { undo_stack = [] },
      inserted node (splice 2 ab text) 2 2,
      some (record { cmd_fn = some CmdFunc.cmd_insert; seq = some (codes "xab"); cnt = 1 }),
    )
cmd_insert-joins_example =
    cmd_insert-joins behind_insertion node (type (codes "ab")) text ab 2 (codes "x") [] node-Shows
      ab-IsChar refl refl

-- The cursor behind the last character.
abbrev end_node : MsgNode
end_node = record node { cursor_pos = pos 4 }

end_node-Shows : Shows end_node text 4
end_node-Shows = record {
  valid = node-Shows.valid;
  text = refl;
  cursor = refl;
  within = omega arith;
}

cmd_uninsert-insert_example :
    cmd_uninsert start (inserted end_node (splice 4 ab text) 4 2) (type (codes "ab"))
    ≡ no_action start
        (record end_node { marker_pos = (inserted end_node (splice 4 ab text) 4 2).marker_pos })
cmd_uninsert-insert_example =
    cmd_uninsert-insert start end_node (type (codes "ab")) text ab 4 (omega arith) end_node-Shows
      ab-IsChar refl

cmd_backspace-records_example :
    cmd_backspace behind_insertion node (press CmdFunc.cmd_backspace)
    ≡ ok (
      behind_insertion,
      deleted node text 1 2,
      some (record { cmd_fn = some CmdFunc.cmd_backspace; seq = some (0xD0 ∷ 0xB0 ∷ []); cnt = 1 }),
    )
unfolding runs
cmd_backspace-records_example =
    cmd_backspace-records behind_insertion node (press CmdFunc.cmd_backspace) text 2 1 node-Shows
      (omega arith) refl refl

upd_insert-deleted_example :
    (marker : ℤ) × (upd_insert (deleted node text 1 2) (type (0xD0 ∷ 0xB0 ∷ []))
      ≡ ok (record node { marker_pos = marker }))
upd_insert-deleted_example =
    upd_insert-deleted node (type (0xD0 ∷ 0xB0 ∷ [])) text 1 2 node-Shows (omega arith) refl

abbrev word_event : InputEvent
word_event = press CmdFunc.cmd_backward_word

abbrev line_event : InputEvent
line_event = press CmdFunc.cmd_to_end_of_line
