-- ===== src/Buffer.antt =====
-- term/history.c and term/mbuf.c: text buffers that grow. Memory is not exhausted, and the sizes stay
-- below 2^63.
pub mod Growth
pub mod Holding
use vjft.Prelude.{
  ℕ, zero, suc, ◌+◌, ◌*◌, List, [], ◌∷◌, ◌++◌, Bool, true, false, ◌&&◌, ltb, leb, ◌==◌,
}
use vjft.Prelude.{if◌then◌else◌, Option, none, some, Run, ok, fault, ◌>>=◌, length, codes}
use vjft.World.{InputEvent}
use vjft.Undo.{descr_cmd_fn}

-- What is behind `buffer`: nothing, memory that was not written, or a C string, without its zero.
pub data Storage : Type 0 where
  null fresh : Storage
  holds : List ℕ → Storage

pub record DynamicBuffer : Type 0 where
  pub buffer : Storage
  pub size : ℕ
  pub capacity : ℕ

unfoldable pub init_dynamic_buffer : ℕ → Run DynamicBuffer
init_dynamic_buffer zero = fault
init_dynamic_buffer (suc n) = ok (record { buffer = holds []; size = 0; capacity = suc n })

unfoldable pub free_dynamic_buffer : DynamicBuffer → DynamicBuffer
free_dynamic_buffer db = record { buffer = null; size = 0; capacity = 0 }

-- The loop that doubles the capacity. A round adds one at least, so `new_size + 1` rounds are enough.
unfoldable pub grow : ℕ → ℕ → ℕ → ℕ
grow zero new_capacity new_size = new_capacity
grow (suc rounds) new_capacity new_size = elim (leb new_capacity new_size) [
  | true ↦ grow rounds (new_capacity * 2) new_size
  | false ↦ new_capacity
]

unfoldable pub realloc : Storage → Storage
realloc null = fresh
realloc fresh = fresh
realloc (holds s) = holds s

unfoldable pub enlarge : DynamicBuffer → ℕ → DynamicBuffer
unfolding grow realloc
enlarge db new_size = record db {
  buffer = realloc db.buffer;
  capacity = grow (suc new_size) (if db.capacity == 0 then 128 else db.capacity * 2) new_size;
}

-- `strcat(db->buffer + db->size, text)`, and the new size. `strcat` looks for the zero from there on.
unfoldable pub strcat : DynamicBuffer → List ℕ → Run DynamicBuffer
strcat db text = elim db.buffer [
  | null ↦ fault
  | fresh ↦ fault
  | holds s ↦
      if leb db.size (length s) && ltb (length s + length text) db.capacity
      then ok (record db { buffer = holds (s ++ text); size = db.size + length text })
      else fault
]

unfoldable pub append_to_dynamic_buffer : DynamicBuffer → Option (List ℕ) → Run DynamicBuffer
append_to_dynamic_buffer db none = ok db
append_to_dynamic_buffer db (some text) =
    let new_size = db.size + length text in
    strcat (if leb db.capacity new_size then enlarge db new_size else db) text

unfoldable pub clear_dynamic_buffer : DynamicBuffer → DynamicBuffer
clear_dynamic_buffer db = elim db.buffer [
  | null ↦ db
  | fresh ↦ record db { buffer = holds []; size = 0 }
  | holds s ↦ record db { buffer = holds []; size = 0 }
]

-- The minibuffer of term/mbuf.c has the same fields and the same functions, line by line.
unfoldable pub init_mini_buffer : ℕ → Run DynamicBuffer
init_mini_buffer initial_capacity = init_dynamic_buffer initial_capacity

unfoldable pub append_to_mini_buffer : DynamicBuffer → Option (List ℕ) → Run DynamicBuffer
append_to_mini_buffer mini_buffer text = append_to_dynamic_buffer mini_buffer text

unfoldable pub clear_mini_buffer : DynamicBuffer → DynamicBuffer
clear_mini_buffer mini_buffer = clear_dynamic_buffer mini_buffer

unfoldable pub init_event_history : Run DynamicBuffer
init_event_history = init_dynamic_buffer 512

-- `historyBuffer` as the program starts
abbrev pub history_buffer : DynamicBuffer
history_buffer = record { buffer = null; size = 0; capacity = 0 }

unfoldable pub append_event : DynamicBuffer → InputEvent → Run DynamicBuffer
append_event db event = append_to_dynamic_buffer db (some (codes "(")) >>= λ db.
    append_to_dynamic_buffer db (some (descr_cmd_fn event.cmd_fn)) >>= λ db.
    append_to_dynamic_buffer db (some (codes " ")) >>= λ db.
    append_to_dynamic_buffer db (elim event.seq [ none ↦ some (codes "NULL") | some s ↦ some s ])
    >>= λ db. append_to_dynamic_buffer db (some (codes ") "))

unfoldable pub append_events : DynamicBuffer → List InputEvent → Run DynamicBuffer
append_events db [] = ok db
append_events db (event ∷ queue) = append_event db event >>= λ db. append_events db queue

-- The C string in a buffer, as an argument of `appendToMiniBuffer`.
unfoldable pub text_of : Storage → Run (Option (List ℕ))
text_of null = ok none
text_of fresh = fault
text_of (holds s) = ok (some s)

-- `dispExEv`, with both buffers
unfoldable pub disp_ex_ev :
    List InputEvent → DynamicBuffer → DynamicBuffer → Run (DynamicBuffer × DynamicBuffer)
disp_ex_ev queue history mini_buffer =
    append_to_dynamic_buffer (clear_dynamic_buffer history) (some (codes "\nHistory: "))
    >>= λ history. append_events history queue >>= λ history. text_of history.buffer >>= λ text.
        append_to_mini_buffer mini_buffer text >>= λ mini_buffer. ok (history, mini_buffer)
