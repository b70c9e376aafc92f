-- ===== src/Tests/Texts.antt =====
-- The theorems on text, numbers and messages at concrete inputs.
use vjft.Prelude.{refl, codes}
use vjft.Tests.Sessions.{start_list}
use vjft.Msg.{push_message}
use vjft.Msg.Laws.{IsWellFormed, push_message-IsWellFormed}

start_list-IsWellFormed : IsWellFormed start_list
start_list-IsWellFormed = record { counted = refl; no_newer = λ e. refl; no_older = λ e. refl }

push_message-IsWellFormed_example : IsWellFormed (push_message start_list (codes "hi"))
push_message-IsWellFormed_example =
    push_message-IsWellFormed start_list (codes "hi") start_list-IsWellFormed
