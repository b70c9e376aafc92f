-- ===== src/Room/Invariant.antt =====
-- srv/ChatRoom.cpp and srv/PersonInRoom.cpp: what every handler keeps of the room.
use vjft.Prelude.{
  ℕ, ◌+◌, ◌-◌, ◌*◌, ◌<◌, ◌≤◌, append-nil, ◌≡◌, refl, ap, ◌∙◌, List, [], ◌∷◌, ◌++◌, Bool, true,
  false,
}
use vjft.Prelude.{inl, inr, Option, none, some, length, arith, Bool-cases, ltb, length-drop}
use vjft.Room.{ChatRoom, post, post_all, post_to, enter, leave, trim, frame, broadcast}
use vjft.Room.{read, start, header_handler, read_handler, write_handler, max_recent_msgs}
use vjft.Room.{max_pack_size, erase, is_member}
use vjft.Room.Streams.{stream}
use vjft.Room.Relay.{IsSetOf, insert-IsSet, erase-IsSet, trim-drop, share, read_handler-relays}

-- The participants are a set, and no more messages are kept than the bound says.
pub record IsRoom (room : ChatRoom) : Type 0 where
  pub set : IsSetOf room.participants
  pub recent : length room.recent_msgs ≤ max_recent_msgs

-- A call of a handler, or a participant that starts.
pub data Call : Type 0 where
  starts : ℕ → Call
  header : ℕ → Option (ℕ × ℕ) → Call
  body : ℕ → Option (List ℕ) → Call
  write : ℕ → Bool → Call

unfoldable pub step : ChatRoom → Call → ChatRoom
unfolding start header_handler read_handler write_handler
step room (starts id) = start room id
step room (header id bytes) = header_handler room id bytes
step room (body id msg) = read_handler room id msg
step room (write id error) = write_handler room id error

unfoldable pub run : ChatRoom → List Call → ChatRoom
unfolding step
run room [] = room
run room (call ∷ calls) = run (step room call) calls

-- Messages to participants change neither the set nor the history.
post_to-kept :
    (room : ChatRoom) (ids : List ℕ) (msg : List ℕ) → IsRoom room → IsRoom (post_to room ids msg)
unfolding post_to post
post_to-kept room [] msg is = is
post_to-kept room (id ∷ ids) msg is =
    post_to-kept (post room id msg) ids msg (record { set = is.set; recent = is.recent })

post_all-kept :
    (room : ChatRoom) (id : ℕ) (msgs : List (List ℕ)) → IsRoom room → IsRoom (post_all room id msgs)
unfolding post_all post
post_all-kept room id [] is = is
post_all-kept room id (msg ∷ msgs) is =
    post_all-kept (post room id msg) id msgs (record { set = is.set; recent = is.recent })

leave-IsRoom : (room : ChatRoom) (id : ℕ) → IsRoom room → IsRoom (leave room id)
unfolding leave
leave-IsRoom room id is = record {
  set = erase-IsSet id room.participants is.set;
  recent = is.recent;
}

read-IsRoom :
    (room : ChatRoom) (id size : ℕ) (deadline : Bool)
    → IsRoom room
    → IsRoom (read room id size deadline)
read-IsRoom room id size deadline is = record { set = is.set; recent = is.recent }

trim-bound : (msgs : List (List ℕ)) → length (trim msgs) ≤ max_recent_msgs
trim-bound msgs = omega (
  arith,
  length-drop {A = List ℕ} (length msgs - max_recent_msgs) msgs,
  ap length (trim-drop msgs),
)

step-IsRoom : (room : ChatRoom) (call : Call) → IsRoom room → IsRoom (step room call)
unfolding step start enter header_handler read_handler broadcast write_handler
step-IsRoom room (starts id) is =
    post_all-kept _ id room.recent_msgs
      (record { set = insert-IsSet id room.participants is.set; recent = is.recent })
step-IsRoom room (header id none) is = leave-IsRoom room id is
step-IsRoom room (header id (some (lo, hi))) is =
    elim (Bool-cases (ltb max_pack_size (lo + 256 * hi))) [
      | inl long ↦ rw long (leave-IsRoom room id is)
      | inr fits ↦ rw fits (read-IsRoom room id (lo + 256 * hi) true is)
    ]
step-IsRoom room (body id none) is = leave-IsRoom room id is
step-IsRoom room (body id (some msg)) is =
    let kept = record room { recent_msgs = trim (room.recent_msgs ++ (frame msg ∷ [])) } in
    read-IsRoom (post_to kept room.participants (frame msg)) id 2 false (
      post_to-kept kept room.participants (frame msg) (record {
        set = is.set;
        recent = omega (arith, trim-bound (room.recent_msgs ++ (frame msg ∷ [])));
      }))
step-IsRoom room (write id true) is = leave-IsRoom room id is
step-IsRoom room (write id false) is = record { set = is.set; recent = is.recent }

-- Whatever is called in whatever order, no participant is twice in the room, and it keeps at most
-- 100 messages for those who enter later.
pub run-IsRoom : (room : ChatRoom) (calls : List Call) → IsRoom room → IsRoom (run room calls)
unfolding run
run-IsRoom room [] is = is
run-IsRoom room (call ∷ calls) is = run-IsRoom (step room call) calls (step-IsRoom room call is)

erased : (id : ℕ) (ids : List ℕ) → is_member id (erase id ids) ≡ false
unfolding erase is_member
erased id [] = refl
erased id (other ∷ ids) = ground (arith, erased id ids)

-- A participant whose header asks for more than 16384 bytes leaves the room: the next message that
-- anyone sends is not given to it.
pub header_handler-refuses :
    (room : ChatRoom) (id lo hi sender : ℕ) (msg : List ℕ)
    → IsRoom room
    → max_pack_size < lo + 256 * hi
    → stream ((read_handler (header_handler room id (some (lo, hi))) sender (some msg)).persons id)
      ≡ stream (room.persons id)
unfolding header_handler leave share
header_handler-refuses room id lo hi sender msg is long =
    let too_long : ltb max_pack_size (lo + 256 * hi) ≡ true = ground arith in
    let left : header_handler room id (some (lo, hi)) ≡ leave room id = rw too_long refl in
    ap (λ r. stream ((read_handler r sender (some msg)).persons id)) left
    ∙ read_handler-relays (leave room id) sender id msg (erase-IsSet id room.participants is.set)
    ∙ nothing (erased id room.participants)
  where
    nothing :
        is_member id (erase id room.participants) ≡ false
        → stream (room.persons id) ++ share id (erase id room.participants) (frame msg)
          ≡ stream (room.persons id)
    nothing e = rw (share, e) (append-nil (stream (room.persons id)))
