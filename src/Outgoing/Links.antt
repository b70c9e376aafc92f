-- ===== src/Outgoing/Links.antt =====
-- term/main.c: the linked nodes of the outgoing queue stand for a list of messages, and each operation
-- does on the nodes what its name says of the list.
use vjft.Prelude.{ℕ, suc, ◌≡◌, ◌≢◌, refl, sym, ap, List, [], ◌∷◌, ◌++◌, ◌∙◌, true, false}
use vjft.Prelude.{Option, none, some, ok, ◌>>=◌, deref, All, length, arith}
use vjft.Outgoing.{Node, Memory, update, MessageQueue, init_queue, enqueue, dequeue, clear_queue}

-- A node of the queue: its address and its message.
abbrev pub Cell : Type 0
Cell = ℕ × List ℕ

abbrev pub IsFresh : ℕ → List Cell → Type 0
IsFresh a cells = All (λ cell. cell.0 ≢ a) cells

abbrev pub messages : List Cell → List (List ℕ)
messages [] = []
messages (cell ∷ cells) = cell.1 ∷ messages cells

-- The address of the last cell, behind a pointer to the one before.
abbrev pub last : Option ℕ → List Cell → Option ℕ
last p [] = p
last p (cell ∷ cells) = last (some cell.0) cells

-- From `p` on the nodes are the cells, no address occurs twice, and the last node has no next one.
unfoldable pub IsChain : Memory → Option ℕ → List Cell → Type 0
IsChain memory p [] = p ≡ none
IsChain memory p (cell ∷ cells) =
    (next : Option ℕ) × (p ≡ some cell.0)
    × (memory cell.0 ≡ some (record { message = cell.1; next = next }))
    × IsFresh cell.0 cells
    × IsChain memory next cells

pub record IsQueue (memory : Memory) (queue : MessageQueue) (cells : List Cell) : Type 0 where
  pub chain : IsChain memory queue.head cells
  pub tail : queue.tail ≡ last none cells

pub init_queue-IsQueue : (memory : Memory) → IsQueue memory init_queue []
unfolding IsChain init_queue
init_queue-IsQueue memory = record { chain = refl; tail = refl }

update_same : (memory : Memory) (a : ℕ) (held : Option Node) → update memory a held a ≡ held
update_same memory a held = ground arith

update_other :
    (memory : Memory) (a b : ℕ) (held : Option Node) → a ≢ b → update memory a held b ≡ memory b
update_other memory a b held other = ground arith

IsChain-update :
    (memory : Memory) (p : Option ℕ) (cells : List Cell) (a : ℕ) (held : Option Node)
    → IsFresh a cells
    → IsChain memory p cells
    → IsChain (update memory a held) p cells
unfolding IsChain
IsChain-update memory p [] a changed fresh chain = chain
IsChain-update memory p (cell ∷ cells) a changed (other, fresh) (next, here, held, once, chain) = (
  next,
  here,
  update_other memory a cell.0 changed (λ e. other (sym e)) ∙ held,
  once,
  IsChain-update memory next cells a changed fresh chain,
)

-- The last of some cells: where it stands, that it is none of the addresses that are fresh for them,
-- and the chain that a link from it to a new node makes.
record LastNode (memory : Memory) (p : Option ℕ) (cells : List Cell) (at : ℕ) (new : Cell)
    : Type 0 where
  node : Node
  held : memory at ≡ some node
  member : (a : ℕ) → IsFresh a cells → at ≢ a
  linked :
      IsChain (update memory at (some (record node { next = some new.0 }))) p (cells ++ (new ∷ []))

IsFresh-append :
    (a : ℕ) (cells : List Cell) (new : Cell)
    → IsFresh a cells
    → new.0 ≢ a
    → IsFresh a (cells ++ (new ∷ []))
IsFresh-append a [] new fresh other = (other, tt)
IsFresh-append a (cell ∷ cells) new (here, fresh) other =
    (here, IsFresh-append a cells new fresh other)

last_node :
    (memory : Memory) (p : Option ℕ) (cell : Cell) (cells : List Cell) (new : Cell)
    → memory new.0 ≡ some (record { message = new.1; next = none })
    → IsFresh new.0 (cell ∷ cells)
    → IsChain memory p (cell ∷ cells)
    → (at : ℕ) × (last p (cell ∷ cells) ≡ some at) × LastNode memory p (cell ∷ cells) at new
unfolding IsChain
last_node memory p cell [] new made (other, fresh) (next, here, held, once, ends) = (
  cell.0,
  refl,
  record {
    node = record { message = cell.1; next = next };
    held = held;
    member = λ a (different, rest). different;
    linked = (
      some new.0,
      here,
      update_same memory cell.0 _,
      (λ e. other (sym e), tt),
      (none, refl, update_other memory cell.0 new.0 _ other ∙ made, tt, refl),
    );
  },
)
last_node memory p cell (after ∷ cells) new made (other, fresh) (next, here, held, once, chain) =
    let (at, found, rest) = last_node memory next after cells new made fresh chain in
    (
      at,
      found,
      record {
        node = rest.node;
        held = rest.held;
        member = λ a (different, fresh'). rest.member a fresh';
        linked = (
          next,
          here,
          update_other memory at cell.0 _ (rest.member cell.0 once) ∙ held,
          IsFresh-append cell.0 (after ∷ cells) new once (λ e. other (sym e)),
          rest.linked,
        );
      },
    )

last-append :
    (p : Option ℕ) (cells : List Cell) (new : Cell) → last p (cells ++ (new ∷ [])) ≡ some new.0
last-append p [] new = refl
last-append p (cell ∷ cells) new = last-append (some cell.0) cells new

-- The pointer to the last node that `dequeue` leaves.
tail_left :
    (memory : Memory) (next p tail : Option ℕ) (cells : List Cell)
    → IsChain memory next cells
    → tail ≡ last p cells
    → elim next [ none ↦ none | some _ ↦ tail ] ≡ last none cells
unfolding IsChain
tail_left memory next p tail [] chain is = rw chain refl
tail_left memory next p tail (cell ∷ cells) (after, here, held, once, chain) is = rw here is

-- On a queue of some messages, with a new address from malloc, enqueue succeeds and the new
-- message stands behind them; the call follows no dangling pointer.
pub enqueue-IsQueue :
    (memory : Memory) (queue : MessageQueue) (cells : List Cell) (new : ℕ) (msg : List ℕ)
    → IsFresh new cells
    → IsQueue memory queue cells
    → (memory' : Memory) × (queue' : MessageQueue) × (enqueue memory queue (some new) true msg
        ≡ ok (memory', queue', true))
      × IsQueue memory' queue' (cells ++ ((new, msg) ∷ []))
unfolding enqueue
enqueue-IsQueue memory queue [] new msg fresh is = (
  update memory new (some (record { message = msg; next = none })),
  record { head = some new; tail = some new },
  rw is.tail refl,
  record {
    chain = unfold IsChain in (none, refl, update_same memory new _, tt, refl);
    tail = refl;
  },
)
enqueue-IsQueue memory queue (cell ∷ cells) new msg fresh is =
    let made = update memory new (some (record { message = msg; next = none })) in
    let (at, found, l) =
      last_node made queue.head cell cells (new, msg) (update_same memory new _) fresh
        (IsChain-update memory queue.head (cell ∷ cells) new _ fresh is.chain) in
    (
      update made at (some (record l.node { next = some new })),
      record queue { tail = some new },
      rw (is.tail, found, l.held, deref, ◌>>=◌) refl,
      record { chain = l.linked; tail = sym (last-append (some cell.0) cells (new, msg)) },
    )

-- Where malloc or strdup gives nothing, enqueue reports it and the queue stands as it stood.
pub enqueue-failed :
    (memory : Memory) (queue : MessageQueue) (cells : List Cell) (new : ℕ) (msg : List ℕ)
    → IsFresh new cells
    → IsQueue memory queue cells
    → (enqueue memory queue none true msg ≡ ok (memory, queue, false))
      × ((memory' : Memory) × (enqueue memory queue (some new) false msg
            ≡ ok (memory', queue, false))
          × IsQueue memory' queue cells)
unfolding enqueue
enqueue-failed memory queue cells new msg fresh is = (
  refl,
  (
    update memory new none,
    refl,
    record {
      chain = IsChain-update memory queue.head cells new none fresh is.chain;
      tail = is.tail;
    },
  ),
)

-- On a queue that is not empty dequeue gives the first message and frees its node, and the others
-- stay queued; on the empty queue it gives none.
pub dequeue-IsQueue :
    (memory : Memory) (queue : MessageQueue) (cell : Cell) (cells : List Cell)
    → IsQueue memory queue (cell ∷ cells)
    → (queue' : MessageQueue) × (dequeue memory queue
        ≡ ok (update memory cell.0 none, queue', some cell.1))
      × IsQueue (update memory cell.0 none) queue' cells
unfolding dequeue IsChain
dequeue-IsQueue memory queue cell cells is =
    let (next, here, held, once, chain) = is.chain in
    (
      record { head = next; tail = elim next [ none ↦ none | some _ ↦ queue.tail ] },
      rw (here, held, deref, ◌>>=◌) refl,
      record {
        chain = IsChain-update memory next cells cell.0 none once chain;
        tail = tail_left memory next (some cell.0) queue.tail cells chain is.tail;
      },
    )

pub dequeue-empty :
    (memory : Memory) (queue : MessageQueue)
    → IsQueue memory queue []
    → (dequeue memory queue ≡ ok (memory, queue, none)) × (queue ≡ init_queue)
unfolding dequeue IsChain init_queue
dequeue-empty memory queue is = (rw is.chain refl, cc)

-- The memory with the nodes of the cells freed.
abbrev pub freed : Memory → List Cell → Memory
freed memory [] = memory
freed memory (cell ∷ cells) = freed (update memory cell.0 none) cells

-- clear_queue ends: one round for each message and one more are enough, they leave the queue
-- empty, and every node of it is freed once.
pub clear_queue-IsQueue :
    (memory : Memory) (queue : MessageQueue) (cells : List Cell)
    → IsQueue memory queue cells
    → clear_queue (suc (length cells)) memory queue ≡ some (ok (freed memory cells, init_queue))
unfolding clear_queue
clear_queue-IsQueue memory queue [] is =
    let (none_left, empty) = dequeue-empty memory queue is in
    rw (clear_queue, none_left) (ap (λ q. some (ok (memory, q))) empty)
clear_queue-IsQueue memory queue (cell ∷ cells) is =
    let (queue', first, rest) = dequeue-IsQueue memory queue cell cells is in
    rw (clear_queue, first) (clear_queue-IsQueue (update memory cell.0 none) queue' cells rest)
