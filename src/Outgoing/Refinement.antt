-- ===== src/Outgoing/Refinement.antt =====
-- term/main.c: the loop that sends, over the linked nodes and over the messages that they stand for.
use vjft.Prelude.{ℕ, zero, suc, ◌≡◌, refl, inl, inr, List, [], ◌∷◌, Bool, ◌||◌}
use vjft.Prelude.{Option, none, some, ok, Bool-cases, Option-cases, Run}
use vjft.Outgoing.{Memory, update, MessageQueue, Send, Wire, send_message, send_queue}
use vjft.Outgoing.{send_pending}
use vjft.Outgoing.Links.{Cell, messages, IsQueue, dequeue-IsQueue, dequeue-empty}

-- The loop over the nodes ends as the loop over the messages does, with a queue of the messages that
-- the latter leaves.
pub EndsAs :
    Option (List (List ℕ) × Wire × Bool)
    → Option (Run (Memory × MessageQueue × Wire × Bool))
    → Type 0
EndsAs none result = result ≡ none
EndsAs (some (rest, wire, terminate)) result =
    (memory : Memory) × (queue : MessageQueue) × (cells : List Cell) × (result
      ≡ some (ok (memory, queue, wire, terminate)))
    × (messages cells ≡ rest)
    × IsQueue memory queue cells

-- On nodes that stand for some messages the loop of main follows no dangling pointer and frees no
-- node twice: it does what the same loop does on the list of the messages, round for round, and
-- its nodes stand for the messages that are left.
pub send_queue-EndsAs :
    (send : Send) (rounds bound : ℕ) (terminate : Bool) (memory : Memory) (queue : MessageQueue)
    (cells : List Cell) (wire : Wire)
    → IsQueue memory queue cells
    → EndsAs
        (send_pending send rounds bound terminate (messages cells) wire)
        (send_queue send rounds bound terminate memory queue wire)
unfolding send_queue send_pending EndsAs
send_queue-EndsAs send zero bound terminate memory queue cells wire queued = refl
send_queue-EndsAs send (suc rounds) bound terminate memory queue [] wire queued =
    let (none_left, empty) = dequeue-empty memory queue queued in
    (memory, queue, [], rw (send_queue, none_left) refl, refl, queued)
send_queue-EndsAs send (suc rounds) bound terminate memory queue (cell ∷ cells) wire queued =
    let (queue', first, rest) = dequeue-IsQueue memory queue cell cells queued in
    let ends =
      send_queue-EndsAs send rounds bound terminate (update memory cell.0 none) queue' cells in
    elim (Option-cases (send_message send bound cell.1 0 wire)) [
      | inl stuck ↦ rw (send_pending, stuck, send_queue, first, stuck) refl
      | inr ((wire', failed), found) ↦ elim (Bool-cases (terminate || failed)) [
        | inl stop ↦
            rw (send_pending, found, stop)
              (
                update memory cell.0 none,
                queue',
                cells,
                rw (send_queue, first, found, stop) refl,
                refl,
                rest,
              )
        | inr go ↦ rw (send_pending, found, go, send_queue, first, found, go) (ends wire' rest)
      ]
    ]
