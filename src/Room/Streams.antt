-- ===== src/Room/Streams.antt =====
-- srv/PersonInRoom.cpp: what a participant is sent, as one stream of messages.
use vjft.Prelude.{ℕ, zero, suc, ◌≡◌, refl, sym, ap, ◌∙◌, List, [], ◌∷◌, ◌++◌, append-nil}
use vjft.Prelude.{append_assoc, length, drop}
use vjft.Prelude.{◌-◌, ◌≤◌, length-drop, arith}
use vjft.Room.{written, person_in_room, PersonInRoom, write_front, on_message}

-- The messages that were written or are being written, and those that wait.
unfoldable pub stream : PersonInRoom → List (List ℕ)
stream person = person.writes ++ drop 1 person.write_msgs

posted :
    (person : PersonInRoom) (msg : List ℕ) (q : List (List ℕ))
    → person.write_msgs ≡ q
    → stream (on_message person msg) ≡ (person.writes ++ drop 1 q) ++ (msg ∷ [])
unfolding stream on_message write_front
posted person msg [] e =
    rw (on_message, e, write_front, e, e)
      (append-nil (person.writes ++ (msg ∷ []))
        ∙ ap (◌++ (msg ∷ [])) (sym (append-nil person.writes)))
posted person msg (first ∷ rest) e =
    rw (on_message, e, e) (sym (append_assoc person.writes rest (msg ∷ [])))

pub stream-on_message :
    (person : PersonInRoom) (msg : List ℕ)
    → stream (on_message person msg) ≡ stream person ++ (msg ∷ [])
unfolding stream
stream-on_message person msg = posted person msg person.write_msgs refl

next_written :
    (person : PersonInRoom) (q : List (List ℕ))
    → person.write_msgs ≡ q
    → stream (written person) ≡ person.writes ++ drop 1 q
unfolding stream written write_front
next_written person [] e = rw (written, e, write_front, e) refl
next_written person (first ∷ []) e = rw (written, e, write_front, e) refl
next_written person (first ∷ (next ∷ rest)) e =
    rw (written, e, write_front, e) (append_assoc person.writes (next ∷ []) rest)

pub stream-written : (person : PersonInRoom) → stream (written person) ≡ stream person
unfolding stream
stream-written person = next_written person person.write_msgs refl

unfoldable pub complete : ℕ → PersonInRoom → PersonInRoom
unfolding written
complete zero person = person
complete (suc n) person = complete n (written person)

stream-complete : (n : ℕ) (person : PersonInRoom) → stream (complete n person) ≡ stream person
unfolding complete
stream-complete zero person = refl
stream-complete (suc n) person = stream-complete n (written person) ∙ stream-written person

length-written :
    (person : PersonInRoom) → length (written person).write_msgs ≡ length person.write_msgs - 1
unfolding written write_front
length-written person = shorter person.write_msgs (drop 1 person.write_msgs) refl
  where
    shorter :
        (q rest : List (List ℕ))
        → drop 1 q ≡ rest
        → length (write_front (record person { write_msgs = rest })).write_msgs ≡ length q - 1
    shorter q [] e = omega (arith, length-drop {A = List ℕ} 1 q, ap length e)
    shorter q (next ∷ rest) e = omega (arith, length-drop {A = List ℕ} 1 q, ap length e)

-- What happens to a participant: a call of `OnMessage`, or a write that completes.
pub data Event : Type 0 where
  on : List ℕ → Event
  completed : Event

unfoldable pub events : PersonInRoom → List Event → PersonInRoom
unfolding on_message written
events person [] = person
events person (on msg ∷ rest) = events (on_message person msg) rest
events person (completed ∷ rest) = events (written person) rest

-- The messages of the calls of `OnMessage`.
unfoldable pub handed : List Event → List (List ℕ)
handed [] = []
handed (on msg ∷ rest) = msg ∷ handed rest
handed (completed ∷ rest) = handed rest

stream-events :
    (person : PersonInRoom) (rest : List Event)
    → stream (events person rest) ≡ stream person ++ handed rest
unfolding events handed
stream-events person [] = sym (append-nil (stream person))
stream-events person (on msg ∷ rest) =
    stream-events (on_message person msg) rest
    ∙ ap (◌++ handed rest) (stream-on_message person msg)
    ∙ append_assoc (stream person) (msg ∷ []) (handed rest)
stream-events person (completed ∷ rest) =
    stream-events (written person) rest ∙ ap (◌++ handed rest) (stream-written person)

-- However calls of OnMessage and completed writes take turns on a new participant: once as many
-- more writes have completed as messages are queued, the queue is empty, and the messages of all
-- the calls have been given to async_write, in order and once each.
pub complete-events :
    (rest : List Event)
    → ((complete
          (length (events person_in_room rest).write_msgs)
          (events person_in_room rest)).write_msgs
        ≡ [])
      × ((complete
            (length (events person_in_room rest).write_msgs)
            (events person_in_room rest)).writes
          ≡ handed rest)
unfolding stream complete person_in_room
complete-events rest =
    let person = events person_in_room rest in
    let last = complete (length person.write_msgs) person in
    let done : last.write_msgs ≡ [] = empties (length person.write_msgs) person (omega arith) in
    let all : last.writes ++ drop 1 last.write_msgs ≡ handed rest =
      stream-complete (length person.write_msgs) person ∙ stream-events person_in_room rest in
    (done, sym (append-nil last.writes) ∙ (rw done at all))
  where
    none_left : (q : List (List ℕ)) → length q ≤ 0 → q ≡ []
    none_left [] h = refl
    none_left (msg ∷ q) h = absurd (omega arith)

    empties :
        (n : ℕ) (person : PersonInRoom)
        → length person.write_msgs ≤ n
        → (complete n person).write_msgs ≡ []
    empties zero person h = none_left person.write_msgs h
    empties (suc n) person h = empties n (written person) (omega (arith, length-written person))
