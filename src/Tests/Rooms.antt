-- ===== src/Tests/Rooms.antt =====
-- The theorems on the room of the C++ server at concrete inputs.
use vjft.Prelude.{◌≡◌, refl, List, [], ◌∷◌, ◌++◌, true, some, arith, codes, length}
use vjft.Room.{ChatRoom, person_in_room, read_handler, header_handler, frame, is_member}
use vjft.Room.Streams.{stream, Event, on, completed, events, complete, handed, complete-events}
use vjft.Room.Relay.{IsSetOf, share, read_handler-relays}
use vjft.Room.Invariant.{IsRoom, starts, header, body, write, run, run-IsRoom}
use vjft.Room.Invariant.{header_handler-refuses}

-- The participants 1 and 2, and one message that was sent.
abbrev pub room : ChatRoom
room = record {
  participants = 1 ∷ (2 ∷ []);
  name_table = [];
  recent_msgs = frame (codes "hello") ∷ [];
  persons = λ id. person_in_room;
}

pub room-IsRoom : IsRoom room
unfolding IsSetOf is_member
room-IsRoom = record { set = (refl, (refl, tt)); recent = omega arith }

run-IsRoom_example : IsRoom (
    run room
      (starts 3 ∷ (header 1 (some (2, 0)) ∷ (body 1 (some (codes "hi")) ∷ (write 2 true ∷ [])))))
run-IsRoom_example =
    run-IsRoom room
      (starts 3 ∷ (header 1 (some (2, 0)) ∷ (body 1 (some (codes "hi")) ∷ (write 2 true ∷ []))))
      room-IsRoom

read_handler-relays_example :
    stream ((read_handler room 1 (some (codes "hi"))).persons 2)
    ≡ stream (room.persons 2) ++ share 2 (1 ∷ (2 ∷ [])) (frame (codes "hi"))
read_handler-relays_example = read_handler-relays room 1 2 (codes "hi") room-IsRoom.set

header_handler-refuses_example :
    stream ((read_handler (header_handler room 1 (some (1, 64))) 2 (some (codes "hi"))).persons 1)
    ≡ stream (room.persons 1)
header_handler-refuses_example =
    header_handler-refuses room 1 1 64 2 (codes "hi") room-IsRoom (omega arith)

abbrev turns : List Event
turns = on (codes "a") ∷ (on (codes "b") ∷ (completed ∷ (on (codes "c") ∷ [])))

complete-events_example :
    ((complete
        (length (events person_in_room turns).write_msgs)
        (events person_in_room turns)).write_msgs
      ≡ [])
    × ((complete
          (length (events person_in_room turns).write_msgs)
          (events person_in_room turns)).writes
        ≡ handed turns)
complete-events_example = complete-events turns
