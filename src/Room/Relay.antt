-- ===== src/Room/Relay.antt =====
-- srv/ChatRoom.cpp: who gets what of the messages of the room.
use vjft.Prelude.{ℕ, suc, ◌+◌, ◌-◌, ◌*◌, ◌/◌, ◌%◌, ◌<◌, ◌≡◌, refl, sym, ap, ◌∙◌, List}
use vjft.Prelude.{[], ◌∷◌, ◌++◌, append-nil, append_assoc, Bool, true, false, ◌==◌, inl, inr}
use vjft.Prelude.{if◌then◌else◌, some, length, drop, arith, Bool-cases, ltb, subst}
use vjft.Prelude.{==_iff}
use vjft.ServerCrypt.{len_bytes, cast_uint16}
use vjft.Room.{ChatRoom, post, post_all, post_to, is_member}
use vjft.Room.{insert, erase, enter, trim, frame, broadcast, read, start}
use vjft.Room.{read_handler, max_recent_msgs}
use vjft.Room.Streams.{stream, stream-on_message}

-- No participant is twice in the set.
unfoldable pub IsSetOf : List ℕ → Type 0
IsSetOf [] = Unit
IsSetOf (id ∷ ids) = (is_member id ids ≡ false) × IsSetOf ids

-- What the participant `p` gets of a message to `ids`.
unfoldable pub share : ℕ → List ℕ → List ℕ → List (List ℕ)
unfolding is_member
share p ids msg = if is_member p ids then msg ∷ [] else []

stream-post_other :
    (room : ChatRoom) (id p : ℕ) (msg : List ℕ)
    → (id == p) ≡ false
    → stream ((post room id msg).persons p) ≡ stream (room.persons p)
unfolding post
stream-post_other room id p msg other = rw other refl

stream-post_same :
    (room : ChatRoom) (p : ℕ) (msg : List ℕ)
    → stream ((post room p msg).persons p) ≡ stream (room.persons p) ++ (msg ∷ [])
unfolding post
stream-post_same room p msg =
    let same : (p == p) ≡ true = ground arith in rw same (stream-on_message (room.persons p) msg)

stream-post_to :
    (room : ChatRoom) (ids : List ℕ) (p : ℕ) (msg : List ℕ)
    → IsSetOf ids
    → stream ((post_to room ids msg).persons p) ≡ stream (room.persons p) ++ share p ids msg
unfolding post_to is_member IsSetOf share
stream-post_to room [] p msg set = sym (append-nil (stream (room.persons p)))
stream-post_to room (id ∷ ids) p msg (once, set) =
    let rest = stream-post_to (post room id msg) ids p msg set in
    elim (Bool-cases (id == p)) [
      | inr other ↦
          let other' : (p == id) ≡ false = ground arith in
          rw other' (rest ∙ ap (◌++ share p ids msg) (stream-post_other room id p msg other))
      | inl same ↦
          let here : (p == id) ≡ true = ground arith in
          let gone : is_member p ids ≡ false =
            subst (λ i. is_member i ids ≡ false) ((==_iff id p).0 same) once in
          let got : stream ((post room id msg).persons p) ≡ stream (room.persons p) ++ (msg ∷ []) =
            subst
              (λ i. stream ((post room i msg).persons p) ≡ stream (room.persons p) ++ (msg ∷ []))
              (sym ((==_iff id p).0 same)) (stream-post_same room p msg) in
          rw here (rest ∙ rw gone (append-nil _ ∙ got))
    ]

pub stream-read :
    (room : ChatRoom) (id size p : ℕ) (deadline : Bool)
    → stream ((read room id size deadline).persons p) ≡ stream (room.persons p)
unfolding stream
stream-read room id size p deadline = elim (Bool-cases (id == p)) [
  | inr other ↦ rw other refl
  | inl same ↦ rw same (
      ap (λ i. (room.persons i).writes ++ drop 1 (room.persons i).write_msgs)
        ((==_iff id p).0 same))
]

-- A message that ReadHandler has read goes once to each participant of the room, its sender
-- included, behind all that the participant was given before, and to nobody else.
pub read_handler-relays :
    (room : ChatRoom) (sender p : ℕ) (msg : List ℕ)
    → IsSetOf room.participants
    → stream ((read_handler room sender (some msg)).persons p)
      ≡ stream (room.persons p) ++ share p room.participants (frame msg)
unfolding read_handler broadcast
read_handler-relays room sender p msg set =
    let bcast = frame msg in
    let kept = record room { recent_msgs = trim (room.recent_msgs ++ (bcast ∷ [])) } in
    stream-read (post_to kept room.participants bcast) sender 2 p false
    ∙ stream-post_to kept room.participants p bcast set

-- What the participants get is what the sender sent: the two bytes of the header and the body.
pub frame_header :
    (lo hi : ℕ) (msg : List ℕ)
    → lo < 256
    → hi < 256
    → length msg ≡ lo + 256 * hi
    → frame msg ≡ lo ∷ (hi ∷ msg)
unfolding frame len_bytes
frame_header lo hi msg lo_small hi_small size =
    let low : cast_uint16 (length msg) % 256 ≡ lo = omega arith in
    let high : cast_uint16 (length msg) / 256 % 256 ≡ hi = omega arith in rw (low, high) refl

stream-post_all :
    (room : ChatRoom) (p : ℕ) (msgs : List (List ℕ))
    → stream ((post_all room p msgs).persons p) ≡ stream (room.persons p) ++ msgs
unfolding post_all
stream-post_all room p [] = sym (append-nil (stream (room.persons p)))
stream-post_all room p (msg ∷ msgs) =
    stream-post_all (post room p msg) p msgs
    ∙ ap (◌++ msgs) (stream-post_same room p msg)
    ∙ append_assoc (stream (room.persons p)) (msg ∷ []) msgs

-- Who starts in the room is given the messages that it keeps, in order.
pub start-history :
    (room : ChatRoom) (id : ℕ)
    → stream ((start room id).persons id) ≡ stream (room.persons id) ++ room.recent_msgs
unfolding start enter
start-history room id =
    stream-post_all _ id room.recent_msgs
    ∙ ap (◌++ room.recent_msgs) (stream-read room id 2 id false)

-- The oldest messages go.
pub trim-drop : (msgs : List (List ℕ)) → trim msgs ≡ drop (length msgs - max_recent_msgs) msgs
unfolding trim
trim-drop [] = refl
trim-drop (msg ∷ msgs) = elim (Bool-cases (ltb max_recent_msgs (suc (length msgs)))) [
  | inl many ↦
      let one_more : suc (length msgs) - max_recent_msgs ≡ suc (length msgs - max_recent_msgs) =
        ground arith in
      rw (many, one_more) (trim-drop msgs)
  | inr few ↦
      let none_more : suc (length msgs) - max_recent_msgs ≡ 0 = ground arith in
      rw (few, none_more) refl
]

pub insert-IsSet : (id : ℕ) (ids : List ℕ) → IsSetOf ids → IsSetOf (insert id ids)
unfolding insert IsSetOf
insert-IsSet id ids set = elim (Bool-cases (is_member id ids)) [
  | inl inside ↦ rw inside set
  | inr outside ↦ rw outside (outside, set)
]

erase-member :
    (id p : ℕ) (ids : List ℕ) → is_member p ids ≡ false → is_member p (erase id ids) ≡ false
unfolding is_member erase
erase-member id p [] h = refl
erase-member id p (other ∷ ids) h = ground (arith, erase-member id p ids)

pub erase-IsSet : (id : ℕ) (ids : List ℕ) → IsSetOf ids → IsSetOf (erase id ids)
unfolding erase IsSetOf
erase-IsSet id [] set = tt
erase-IsSet id (other ∷ ids) (once, set) = elim (Bool-cases (id == other)) [
  | inl here ↦ rw here (erase-IsSet id ids set)
  | inr away ↦ rw away (erase-member id other ids once, erase-IsSet id ids set)
]
