-- ===== src/Tests/Loop.antt =====
-- The theorems on the outgoing queue and the main loop at concrete inputs.
use vjft.Prelude.{ℕ, ◌≡◌, refl, List, [], ◌∷◌, ◌++◌, Bool, true, false, min}
use vjft.Prelude.{none, some, ok, pos, length, join, arith, codes, ◌==◌}
use vjft.Prelude.{if◌then◌else◌, inr}
use vjft.Tests.Sessions.{start}
use vjft.Msg.{push_message}
use vjft.Keyboard.{c_string}
use vjft.Outgoing.{Memory, MessageQueue, init_queue, enqueue, clear_queue, Send, Wire}
use vjft.Outgoing.{send_queue, send_pending}
use vjft.Outgoing.Links.{Cell, IsChain, IsQueue, enqueue-IsQueue, freed}
use vjft.Outgoing.Links.{clear_queue-IsQueue, messages}
use vjft.Prelude.{◌⊎◌}
use vjft.Outgoing.Sending.{HasFailed, IsSend, HasSent, send_pending-HasSent}
use vjft.Outgoing.Refinement.{EndsAs, send_queue-EndsAs}
use vjft.MainLoop.{NetRead, received, closed, Select, ready, Calls, Main}
use vjft.MainLoop.{next, main_loop, round, after_select, network_ready}
use vjft.MainLoop.{write_ready, socket_readable, finish_round, redraw}
use vjft.MainLoop.Rounds.{IsDrawn, IsShown, main_loop-IsShown}
use vjft.MainLoop.Delivery.{IsTaking, round-sends, send_pending_terminating}

-- Two messages in the nodes 4 and 9.
abbrev memory : Memory
memory a =
    if a == 4
    then some (record { message = codes "abcd"; next = some 9 })
    else if a == 9
    then some (record { message = codes "xy"; next = none })
    else none

abbrev queue : MessageQueue
queue = record { head = some 4; tail = some 9 }

abbrev cells : List Cell
cells = (4, codes "abcd") ∷ ((9, codes "xy") ∷ [])

two-IsQueue : IsQueue memory queue cells
unfolding IsChain
two-IsQueue = record {
  chain = (some 9, refl, refl, (omega arith, tt), (none, refl, refl, tt, refl));
  tail = refl;
}

-- The socket takes three bytes at a time.
abbrev three : Send
three i buffer = pos (min 3 (length buffer))

three-IsTaking : IsTaking three
unfolding IsTaking
three-IsTaking i buffer some_byte = (min 3 (length buffer), refl, omega arith, omega arith)

three-IsSend : IsSend three
unfolding IsSend
three-IsSend i buffer some_byte = inr (min 3 (length buffer), refl, omega arith, omega arith)

abbrev wire : Wire
wire = record { calls = 0; bytes = [] }

enqueue-IsQueue_example :
    (memory' : Memory) × (queue' : MessageQueue) × (enqueue memory queue (some 2) true (codes "z")
      ≡ ok (memory', queue', true))
    × IsQueue memory' queue' (cells ++ ((2, codes "z") ∷ []))
enqueue-IsQueue_example =
    enqueue-IsQueue memory queue cells 2 (codes "z") (omega arith, (omega arith, tt)) two-IsQueue

clear_queue-IsQueue_example :
    clear_queue 3 memory queue ≡ some (ok (freed memory cells, init_queue))
clear_queue-IsQueue_example = clear_queue-IsQueue memory queue cells two-IsQueue

send_queue-EndsAs_example :
    EndsAs
      (send_pending three 3 5 false (messages cells) wire)
      (send_queue three 3 5 false memory queue wire)
send_queue-EndsAs_example = send_queue-EndsAs three 3 5 false memory queue cells wire two-IsQueue

send_pending-HasSent_example :
    (rest : List (List ℕ)) × (wire' : Wire) × (failed : Bool) × (send_pending three 3 5 false
        (codes "abcd" ∷ (codes "xy" ∷ []))
        wire
      ≡ some (rest, wire', failed))
    × HasSent three (codes "abcd" ∷ (codes "xy" ∷ [])) rest wire wire' failed
send_pending-HasSent_example =
    send_pending-HasSent three 5 (codes "abcd" ∷ (codes "xy" ∷ [])) wire three-IsSend
      (omega arith, (omega arith, tt))

send_pending_terminating_example :
    (wire' : Wire) × (send_pending three 3 5 true (codes "abcd" ∷ (codes "xy" ∷ [])) wire
      ≡ some (codes "xy" ∷ [], wire', true))
    × ((wire'.bytes ≡ wire.bytes ++ codes "abcd") ⊎ HasFailed three wire wire' (codes "abcd"))
send_pending_terminating_example =
    send_pending_terminating three 2 5 (codes "abcd") (codes "xy" ∷ []) wire three-IsSend
      (omega arith)

abbrev main : Main
main = record {
  ctrl_stack = [];
  input_events = [];
  world = record start { outgoing_queue = codes "abcd" ∷ (codes "xy" ∷ []) };
  window = record { rows = 24; cols = 80 };
  wire = wire;
  need_redraw = true;
  sig_winch_raised = false;
  terminate = false;
  drawn = none;
}

abbrev calls : Select → NetRead → Calls
calls select net = record { select = select; key = none; net = net; size = none }

main-IsDrawn : IsDrawn main
unfolding IsDrawn
main-IsDrawn clean = absurd (ground arith)

round-sends_example :
    (main' : Main) × (round [] 7 [] three main (calls (ready false false true) closed)
      ≡ ok (next main'))
    × (main'.world.outgoing_queue ≡ [])
    × (main'.wire.bytes ≡ main.wire.bytes ++ join main.world.outgoing_queue)
round-sends_example =
    round-sends three three-IsTaking [] 7 [] main (calls (ready false false true) closed) refl refl

-- A message arrives and is drawn; then the peer closes the connection.
abbrev told : Main
told = record main {
  world = record main.world { msg_list = push_message main.world.msg_list (codes "hi") };
  need_redraw = false;
  drawn = some (
    [],
    record start { msg_list = push_message start.msg_list (codes "hi"); outgoing_queue = [] },
    record { rows = 24; cols = 80 },
  );
}

abbrev hearing : Calls
hearing = calls (ready false true false) (received (codes "hi"))

abbrev closing : Calls
closing = calls (ready false true false) closed

abbrev rounds : List (Bool × Calls)
rounds = (false, hearing) ∷ ((false, closing) ∷ [])

hears : main_loop [] 7 [] three (next main) ((false, hearing) ∷ []) ≡ ok (next told)
unfolding main_loop round after_select network_ready write_ready socket_readable finish_round redraw
    c_string
hears = refl

main_loop-IsShown_example : IsShown (next told)
main_loop-IsShown_example =
    main_loop-IsShown [] 7 [] three main false hearing [] (next told) main-IsDrawn hears
