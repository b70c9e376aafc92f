-- ===== src/Outgoing.antt =====
-- term/main.c: the queue of outgoing messages, whose nodes are linked and whose last node is kept, and
-- the part of the main loop that sends what stands in it. A message is a C string: its bytes up to the
-- terminator.
pub mod Links
pub mod Sending
pub mod Refinement
use vjft.Prelude.{ℕ, zero, suc, ◌+◌, List, [], ◌∷◌, ◌++◌, Bool, true, false, ltb, ◌==◌, ◌||◌}
use vjft.Prelude.{if◌then◌else◌, ℤ, pos, negsuc, Option, none, some, take, drop, length}
use vjft.Prelude.{Run, ok, exit, fault, ◌>>=◌, deref}

-- `message_node_t`, with the address of the next node.
pub record Node : Type 0 where
  pub message : List ℕ
  pub next : Option ℕ

-- The nodes that are allocated, by their addresses.
abbrev pub Memory : Type 0
Memory = ℕ → Option Node

abbrev pub update : Memory → ℕ → Option Node → Memory
update memory a node b = if a == b then node else memory b

-- `message_queue_t`
pub record MessageQueue : Type 0 where
  pub head : Option ℕ
  pub tail : Option ℕ

unfoldable pub init_queue : MessageQueue
init_queue = record { head = none; tail = none }

-- `enqueue`; `malloc` gives an address or the null pointer, and `copied` is that `strdup` does not.
unfoldable pub enqueue :
    Memory → MessageQueue → Option ℕ → Bool → List ℕ → Run (Memory × MessageQueue × Bool)
enqueue memory queue none copied msg = ok (memory, queue, false)
enqueue memory queue (some node) false msg = ok (update memory node none, queue, false)
enqueue memory queue (some node) true msg =
    let made = update memory node (some (record { message = msg; next = none })) in
    elim queue.tail [
      | some tail ↦ deref (made tail) >>= λ last. ok (
        update made tail (some (record last { next = some node })),
        record queue { tail = some node },
        true,
      )
      | none ↦ ok (made, record { head = some node; tail = some node }, true)
    ]

-- `dequeue`, with the message if there is one; the node is freed.
unfoldable pub dequeue : Memory → MessageQueue → Run (Memory × MessageQueue × Option (List ℕ))
dequeue memory queue = elim queue.head [
  | none ↦ ok (memory, queue, none)
  | some node ↦ deref (memory node) >>= λ first. ok (
    update memory node none,
    record { head = first.next; tail = elim first.next [ none ↦ none | some next ↦ queue.tail ] },
    some first.message,
  )
]

-- `clear_queue`, with the rounds that its loop may take; `none` is that they are used up.
unfoldable pub clear_queue : ℕ → Memory → MessageQueue → Option (Run (Memory × MessageQueue))
unfolding dequeue
clear_queue zero memory queue = none
clear_queue (suc rounds) memory queue = elim (dequeue memory queue) [
  | exit ↦ some exit
  | fault ↦ some fault
  | ok (memory', queue', none) ↦ some (ok (memory', queue'))
  | ok (memory', queue', some msg) ↦ clear_queue rounds memory' queue'
]

-- What the calls of `send` have done: how many there were, and the bytes that the socket took.
pub record Wire : Type 0 where
  pub calls : ℕ
  pub bytes : List ℕ

-- One call `send(sockfd, buffer, length, 0)`: its number and what it is given decide the result.
abbrev pub Send : Type 0
Send = ℕ → List ℕ → ℤ

-- The socket takes as many bytes as `send` returns.
abbrev pub taken : Wire → List ℕ → ℕ → Wire
taken wire buffer n = record { calls = suc wire.calls; bytes = wire.bytes ++ take n buffer }

-- The loop over one message, with the rounds that it may take; `none` is that they are used up, and
-- the Boolean that `send` failed.
unfoldable pub send_message : Send → ℕ → List ℕ → ℕ → Wire → Option (Wire × Bool)
send_message send zero msg total_sent wire = none
send_message send (suc rounds) msg total_sent wire = elim (ltb total_sent (length msg)) [
  | false ↦ some (wire, false)
  | true ↦ elim (send wire.calls (drop total_sent msg)) [
    | negsuc e ↦ some (record wire { calls = suc wire.calls }, true)
    | pos sent ↦
        send_message send rounds msg (total_sent + sent) (taken wire (drop total_sent msg) sent)
  ]
]

-- The loop over the queue, with rounds for the messages and for the bytes of each: the queue that is
-- left, the socket, and `terminate`, which ends the loop behind a message.
unfoldable pub send_queue :
    Send
    → ℕ
    → ℕ
    → Bool
    → Memory
    → MessageQueue
    → Wire
    → Option (Run (Memory × MessageQueue × Wire × Bool))
unfolding dequeue send_message
send_queue send zero bound terminate memory queue wire = none
send_queue send (suc rounds) bound terminate memory queue wire = elim (dequeue memory queue) [
  | exit ↦ some exit
  | fault ↦ some fault
  | ok (memory', queue', none) ↦ some (ok (memory', queue', wire, terminate))
  | ok (memory', queue', some msg) ↦ elim (send_message send bound msg 0 wire) [
    | none ↦ none
    | some (wire', failed) ↦ elim (terminate || failed) [
      | true ↦ some (ok (memory', queue', wire', true))
      | false ↦ send_queue send rounds bound terminate memory' queue' wire'
    ]
  ]
]

-- The same loop over the messages that are queued.
unfoldable pub send_pending :
    Send → ℕ → ℕ → Bool → List (List ℕ) → Wire → Option (List (List ℕ) × Wire × Bool)
unfolding send_message
send_pending send zero bound terminate pending wire = none
send_pending send (suc rounds) bound terminate [] wire = some ([], wire, terminate)
send_pending send (suc rounds) bound terminate (msg ∷ pending) wire =
    elim (send_message send bound msg 0 wire) [
      | none ↦ none
      | some (wire', failed) ↦ elim (terminate || failed) [
        | true ↦ some (pending, wire', true)
        | false ↦ send_pending send rounds bound terminate pending wire'
      ]
    ]
