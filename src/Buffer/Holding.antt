-- ===== src/Buffer/Holding.antt =====
-- term/history.c: a buffer that holds a text, and what the functions make of it.
use vjft.Prelude.{ℕ, suc, ◌+◌, ◌*◌, ◌<◌, ◌≡◌, refl, List, [], ◌∷◌, ◌++◌, true, leb, ltb}
use vjft.Prelude.{
  Bool-cases, inl, inr, Run, ◌>>=◌, append_assoc, append-nil, ◌&&◌, ◌==◌, if◌then◌else◌, some,
  Option, none, ok, fault, arith, length, length-append, codes,
}
use vjft.Buffer.{holds, DynamicBuffer, realloc, enlarge, strcat}
use vjft.Buffer.{append_to_dynamic_buffer, append_event, append_events, disp_ex_ev, history_buffer}
use vjft.Buffer.{clear_dynamic_buffer, text_of, append_to_mini_buffer}
use vjft.World.{InputEvent}
use vjft.Undo.{descr_cmd_fn}
use vjft.Buffer.Growth.{lt-grow}

-- The buffer holds the text, and has room for its zero.
pub record Holds (db : DynamicBuffer) (s : List ℕ) : Type 0 where
  pub here : db.buffer ≡ holds s
  pub sized : db.size ≡ length s
  pub room : length s < db.capacity

strcat-Holds :
    (db : DynamicBuffer) (s text : List ℕ)
    → db.buffer ≡ holds s
    → db.size ≡ length s
    → length s + length text < db.capacity
    → (db' : DynamicBuffer) × (strcat db text ≡ ok db') × Holds db' (s ++ text)
unfolding strcat
strcat-Holds db s text here sized room =
    let fits : (leb db.size (length s) && ltb (length s + length text) db.capacity) ≡ true =
      ground arith in
    (
      record db { buffer = holds (s ++ text); size = db.size + length text },
      rw (here, fits) refl,
      record {
        here = refl;
        sized = omega (arith, length-append s text);
        room = omega (arith, length-append s text);
      },
    )

-- Appending a text to a buffer that holds one does not fail, and the buffer then holds both in a
-- row.
pub append_to_dynamic_buffer-Holds :
    (db : DynamicBuffer) (s text : List ℕ)
    → Holds db s
    → (db' : DynamicBuffer) × (append_to_dynamic_buffer db (some text) ≡ ok db')
      × Holds db' (s ++ text)
unfolding append_to_dynamic_buffer enlarge realloc
append_to_dynamic_buffer-Holds db s text h =
    elim (Bool-cases (leb db.capacity (db.size + length text))) [
      | inl full ↦
          let start = if db.capacity == 0 then 128 else db.capacity * 2 in
          let room =
            lt-grow (suc (db.size + length text)) start (db.size + length text) (ground arith)
              (omega arith) in
          rw full (
            strcat-Holds (enlarge db (db.size + length text)) s text (rw h.here refl) h.sized
              (omega (arith, room)))
      | inr roomy ↦ rw roomy (strcat-Holds db s text h.here h.sized (ground arith))
    ]

-- A function that appends `t` to whatever text its buffer holds.
abbrev pub Appends : (DynamicBuffer → Run DynamicBuffer) → List ℕ → Type 0
Appends f t =
    (db : DynamicBuffer) (s : List ℕ)
    → Holds db s
    → (db' : DynamicBuffer) × (f db ≡ ok db') × Holds db' (s ++ t)

pub bind-Appends :
    (f g : DynamicBuffer → Run DynamicBuffer) (t u : List ℕ)
    → Appends f t
    → Appends g u
    → Appends (λ db. f db >>= g) (t ++ u)
bind-Appends f g t u f_appends g_appends db s h =
    let (db₁, first, h₁) = f_appends db s h in
    let (db₂, second, h₂) = g_appends db₁ (s ++ t) h₁ in
    (db₂, rw (first, ◌>>=◌, second) refl, rw (append_assoc s t u) at h₂)

-- The text that the history shows of an event, and of a queue.
unfoldable pub event_text : InputEvent → List ℕ
event_text event =
    codes "("
    ++ (descr_cmd_fn event.cmd_fn
        ++ (codes " " ++ (elim event.seq [ none ↦ codes "NULL" | some s ↦ s ] ++ codes ") ")))

unfoldable pub history_text : List InputEvent → List ℕ
history_text [] = []
history_text (event ∷ queue) = event_text event ++ history_text queue

append_seq-Appends :
    (seq : Option (List ℕ))
    → Appends
        (λ db.
          append_to_dynamic_buffer db (elim seq [ none ↦ some (codes "NULL") | some s ↦ some s ]))
        (elim seq [ none ↦ codes "NULL" | some s ↦ s ])
append_seq-Appends none db s h = append_to_dynamic_buffer-Holds db s (codes "NULL") h
append_seq-Appends (some t) db s h = append_to_dynamic_buffer-Holds db s t h

append_text-Appends : (text : List ℕ) → Appends (λ db. append_to_dynamic_buffer db (some text)) text
append_text-Appends text db s h = append_to_dynamic_buffer-Holds db s text h

append_event-Appends :
    (event : InputEvent) → Appends (λ db. append_event db event) (event_text event)
unfolding append_event event_text
append_event-Appends event = bind-Appends _ _ (codes "(") _ (append_text-Appends (codes "(")) (
    bind-Appends _ _ (descr_cmd_fn event.cmd_fn) _ (append_text-Appends (descr_cmd_fn event.cmd_fn))
      (bind-Appends _ _ (codes " ") _ (append_text-Appends (codes " ")) (
        bind-Appends _ _ _ (codes ") ") (append_seq-Appends event.seq)
          (append_text-Appends (codes ") ")))))

pub append_events-Appends :
    (queue : List InputEvent) → Appends (λ db. append_events db queue) (history_text queue)
unfolding append_events history_text
append_events-Appends [] db s h = (db, refl, rw (append-nil s) h)
append_events-Appends (event ∷ queue) db s h =
    bind-Appends (λ db. append_event db event) (λ db. append_events db queue) (event_text event)
      (history_text queue) (append_event-Appends event) (append_events-Appends queue) db s h

pub clear_dynamic_buffer-Holds :
    (db : DynamicBuffer) (s : List ℕ) → Holds db s → Holds (clear_dynamic_buffer db) []
unfolding clear_dynamic_buffer
clear_dynamic_buffer-Holds db s h =
    let cleared : clear_dynamic_buffer db ≡ record db { buffer = holds []; size = 0 } =
      rw (clear_dynamic_buffer, h.here) refl in
    rw cleared (record { here = refl; sized = refl; room = omega (arith, h.room) })

text_of-Holds : (db : DynamicBuffer) (s : List ℕ) → Holds db s → text_of db.buffer ≡ ok (some s)
unfolding text_of
text_of-Holds db s h = rw h.here refl

-- Where both buffers hold texts, dispExEv writes the history of the queue alone to the one, and
-- appends it to the other.
pub disp_ex_ev-Holds :
    (queue : List InputEvent) (history mini_buffer : DynamicBuffer) (old shown : List ℕ)
    → Holds history old
    → Holds mini_buffer shown
    → (history' mini_buffer' : DynamicBuffer) × (disp_ex_ev queue history mini_buffer
        ≡ ok (history', mini_buffer'))
      × Holds history' (codes "\nHistory: " ++ history_text queue)
      × Holds mini_buffer' (shown ++ (codes "\nHistory: " ++ history_text queue))
unfolding disp_ex_ev append_to_mini_buffer
disp_ex_ev-Holds queue history mini_buffer old shown h m =
    let cleared : Holds (clear_dynamic_buffer history) [] =
      clear_dynamic_buffer-Holds history old h in
    let (db₁, first, h₁) =
      append_to_dynamic_buffer-Holds (clear_dynamic_buffer history) [] (codes "\nHistory: ")
        cleared in
    let (db₂, second, h₂) = append_events-Appends queue db₁ (codes "\nHistory: ") h₁ in
    let (mb, third, m') = append_to_dynamic_buffer-Holds mini_buffer shown _ m in
    let read : text_of db₂.buffer ≡ ok (some (codes "\nHistory: " ++ history_text queue)) =
      text_of-Holds db₂ _ h₂ in
    (
      db₂,
      mb,
      rw (disp_ex_ev, first, ◌>>=◌, second, ◌>>=◌, read, ◌>>=◌, append_to_mini_buffer, third) refl,
      h₂,
      m',
    )

-- From the value that historyBuffer has at the start of the program dispExEv reads memory that was
-- not written.
pub disp_ex_ev_uninitialised :
    (queue : List InputEvent) (mini_buffer : DynamicBuffer)
    → disp_ex_ev queue history_buffer mini_buffer ≡ fault
unfolding disp_ex_ev clear_dynamic_buffer append_to_dynamic_buffer enlarge realloc strcat
disp_ex_ev_uninitialised queue mini_buffer = refl
