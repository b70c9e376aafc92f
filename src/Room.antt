-- ===== src/Room.antt =====
-- srv/ChatRoom.cpp and srv/PersonInRoom.cpp: the room of the C++ server and its participants, each a
-- number. The handlers run one at a time, on a strand; `async_read` and `async_write` of boost are started
-- here and come back as calls of the handlers. The participants are visited in the order of the list.
pub mod Streams
pub mod Relay
pub mod Invariant
use vjft.Prelude.{ℕ, zero, suc, ◌+◌, ◌*◌, List, [], ◌∷◌, ◌++◌, Bool, true, false, not, ltb, ◌==◌}
use vjft.Prelude.{if◌then◌else◌, ◌||◌, Option, none, some, length, drop, codes, replicate}
use vjft.ServerCrypt.{resize, len_bytes, cast_uint16}

abbrev pub max_pack_size : ℕ
max_pack_size = 16384

abbrev pub max_recent_msgs : ℕ
max_recent_msgs = 100

-- `reading` is the number of bytes of the `async_read` that was started last, and `writes` are the
-- messages of all calls of `async_write`. `deadline` is whether the timer of the body runs.
pub record PersonInRoom : Type 0 where
  pub read_msg : List ℕ
  pub write_msgs : List (List ℕ)
  pub deadline : Bool
  pub reading : Option ℕ
  pub writes : List (List ℕ)

-- `ChatRoom`, with the participants' objects.
pub record ChatRoom : Type 0 where
  pub participants : List ℕ
  pub name_table : List (ℕ × List ℕ)
  pub recent_msgs : List (List ℕ)
  pub persons : ℕ → PersonInRoom

unfoldable pub person_in_room : PersonInRoom
person_in_room = record {
  read_msg = replicate 2 0;
  write_msgs = [];
  deadline = false;
  reading = none;
  writes = [];
}

-- `async_write` of the message in front, if there is one
unfoldable pub write_front : PersonInRoom → PersonInRoom
write_front person = elim person.write_msgs [
  | [] ↦ person
  | msg ∷ rest ↦ record person { writes = person.writes ++ (msg ∷ []) }
]

unfoldable pub on_message : PersonInRoom → List ℕ → PersonInRoom
unfolding write_front
on_message person msg =
    let queued = record person { write_msgs = person.write_msgs ++ (msg ∷ []) } in
    elim person.write_msgs [ [] ↦ write_front queued | _ ∷ _ ↦ queued ]

abbrev pub set_person : (ℕ → PersonInRoom) → ℕ → PersonInRoom → ℕ → PersonInRoom
set_person persons id person other = if id == other then person else persons other

unfoldable pub post : ChatRoom → ℕ → List ℕ → ChatRoom
unfolding on_message
post room id msg = record room {
  persons = set_person room.persons id (on_message (room.persons id) msg);
}

unfoldable pub is_member : ℕ → List ℕ → Bool
is_member id [] = false
is_member id (other ∷ ids) = id == other || is_member id ids

-- `insert` and `erase` of a set
unfoldable pub insert : ℕ → List ℕ → List ℕ
unfolding is_member
insert id ids = if is_member id ids then ids else id ∷ ids

unfoldable pub erase : ℕ → List ℕ → List ℕ
erase id [] = []
erase id (other ∷ ids) = let rest = erase id ids in if id == other then rest else other ∷ rest

-- `operator[]` and `erase` of a map
unfoldable pub erase_name : ℕ → List (ℕ × List ℕ) → List (ℕ × List ℕ)
erase_name id [] = []
erase_name id ((other, name) ∷ names) =
    let rest = erase_name id names in if id == other then rest else (other, name) ∷ rest

unfoldable pub get_nickname : ℕ → List (ℕ × List ℕ) → List ℕ
get_nickname id [] = []
get_nickname id ((other, name) ∷ names) =
    let rest = get_nickname id names in if id == other then name else rest

unfoldable pub post_all : ChatRoom → ℕ → List (List ℕ) → ChatRoom
unfolding post
post_all room id [] = room
post_all room id (msg ∷ msgs) = post_all (post room id msg) id msgs

unfoldable pub enter : ChatRoom → ℕ → List ℕ → ChatRoom
unfolding insert erase_name post_all
enter room id nickname =
    post_all
      (record room {
        participants = insert id room.participants;
        name_table = (id, nickname) ∷ erase_name id room.name_table;
      })
      id room.recent_msgs

unfoldable pub leave : ChatRoom → ℕ → ChatRoom
unfolding erase erase_name
leave room id = record room {
  participants = erase id room.participants;
  name_table = erase_name id room.name_table;
}

unfoldable pub trim : List (List ℕ) → List (List ℕ)
trim [] = []
trim (msg ∷ msgs) =
    let rest = trim msgs in if ltb max_recent_msgs (length (msg ∷ msgs)) then rest else msg ∷ msgs

-- The message with its length in front.
unfoldable pub frame : List ℕ → List ℕ
unfolding len_bytes
frame msg = len_bytes (cast_uint16 (length msg)) ++ msg

unfoldable pub post_to : ChatRoom → List ℕ → List ℕ → ChatRoom
unfolding post
post_to room [] msg = room
post_to room (id ∷ ids) msg = post_to (post room id msg) ids msg

unfoldable pub broadcast : ChatRoom → List ℕ → ChatRoom
unfolding frame trim post_to
broadcast room msg =
    let bcast = frame msg in
    let kept = record room { recent_msgs = trim (room.recent_msgs ++ (bcast ∷ [])) } in
    post_to kept room.participants bcast

abbrev pub read : ChatRoom → ℕ → ℕ → Bool → ChatRoom
read room id size deadline =
    let person = room.persons id in
    record room {
      persons = set_person room.persons id (record person {
        read_msg = resize size person.read_msg;
        deadline = deadline;
        reading = some size;
      });
    }

-- `Start`: the header is read, and the participant enters.
unfoldable pub start : ChatRoom → ℕ → ChatRoom
unfolding resize enter
start room id = enter (read room id 2 false) id (codes "ParticipantNickname")

-- `HeaderHandler`, with the two bytes that were read, or an error.
unfoldable pub header_handler : ChatRoom → ℕ → Option (ℕ × ℕ) → ChatRoom
unfolding resize leave
header_handler room id none = leave room id
header_handler room id (some (lo, hi)) =
    let msg_length = lo + 256 * hi in
    if ltb max_pack_size msg_length then leave room id else read room id msg_length true

-- `ReadHandler`, with the bytes that were read.
unfoldable pub read_handler : ChatRoom → ℕ → Option (List ℕ) → ChatRoom
unfolding resize leave broadcast
read_handler room id none = leave room id
read_handler room id (some received_msg) = read (broadcast room received_msg) id 2 false

-- A write that was started has completed, so a message is queued: it is taken off, and the next write
-- is started.
unfoldable pub written : PersonInRoom → PersonInRoom
unfolding write_front
written person = write_front (record person { write_msgs = drop 1 person.write_msgs })

-- `WriteHandler`, with whether there was an error.
unfoldable pub write_handler : ChatRoom → ℕ → Bool → ChatRoom
unfolding written leave
write_handler room id true = leave room id
write_handler room id false = record room {
  persons = set_person room.persons id (written (room.persons id));
}
