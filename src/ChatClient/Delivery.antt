-- ===== src/ChatClient/Delivery.antt =====
-- srv/Client.cpp, srv/PersonInRoom.cpp and srv/ChatRoom.cpp: from one client through the room to another.
use vjft.Prelude.{ℕ, ◌+◌, ◌-◌, ◌*◌, ◌/◌, ◌%◌, ◌<◌, ◌≤◌, ◌≡◌, refl, sym, ap, ◌∙◌, List, [], ◌∷◌}
use vjft.Prelude.{◌++◌, true, false, ltb, ◌==◌, some, ok, ◌>>=◌, length}
use vjft.Prelude.{replicate, arith, length-append, length-replicate, take-append_length}
use vjft.Prelude.{drop-append_length, length-take}
use vjft.Crypt.{OpenSsl}
use vjft.Crypt.Working.{IsDigest, IsSigner}
use vjft.ServerCrypt.{resize, len_bytes, cast_uint16, encipher, decipher}
use vjft.ServerCrypt.Working.{IsRsa, SignsWhole}
use vjft.Room
use vjft.Room.{ChatRoom, frame}
use vjft.Room.Streams.{stream}
use vjft.Room.Relay.{IsSetOf, share, read_handler-relays, stream-read, frame_header}
use vjft.ServerCrypt.RoundTrip.{encipher-sized}
use vjft.ChatClient.{Client, a_header, check_sync_marker_from, check_sync_marker_in_queue}
use vjft.ChatClient.{read_body, header_handler, all_zero, sync_marker, sync_marker_size, pack_sync}
use vjft.ChatClient.{show_deciphered, handle_pack, read_handler, pack_all, write_front, write_impl}
use vjft.ChatClient.{min_pack_size, max_pack_size, read_header}

-- A client that has just connected and waits for a header.
pub record IsReady (client : Client) : Type 0 where
  pub header : client.reading ≡ a_header
  pub queue : client.read_queue ≡ []

no_marker : (lo hi : ℕ) → check_sync_marker_in_queue (lo ∷ (hi ∷ [])) ≡ false
unfolding check_sync_marker_in_queue check_sync_marker_from
no_marker lo hi = ground arith

-- The header of a pack of a size that fits starts the read of the body.
header_reads :
    (client : Client) (lo hi : ℕ)
    → client.read_queue ≡ []
    → min_pack_size ≤ lo + 256 * hi
    → lo + 256 * hi ≤ max_pack_size
    → header_handler client (some (lo, hi))
      ≡ read_body
          (record client { read_msg = lo ∷ (hi ∷ []); read_queue = lo ∷ (hi ∷ []) })
          (lo + 256 * hi)
unfolding header_handler
header_reads client lo hi empty enough fits =
    let small : ltb (lo + 256 * hi) min_pack_size ≡ false = ground arith in
    let large : ltb max_pack_size (lo + 256 * hi) ≡ false = ground arith in
    rw (empty, no_marker lo hi, small, large) refl

same_size : (a b : ℕ) → a ≡ b → (a == b) ≡ true
same_size a b e = ground arith

not_less : (a b : ℕ) → b ≤ a → ltb a b ≡ false
not_less a b h = ground arith

module _ {Key : Type 0} (ssl : OpenSsl Key) (private_key : Key) where
  -- A body of the size that was asked for, which ends with the marker, is deciphered.
  read_deciphers :
      (public_key : Key) (client : Client) (pack : List ℕ) (c : ℕ) (text : List ℕ)
      → length client.read_msg ≡ length pack + 32
      → decipher ssl private_key public_key pack ≡ ok (c ∷ text)
      → read_handler ssl private_key (public_key ∷ []) client (some (pack ++ sync_marker))
        ≡ ok (
            read_header (record client {
              read_msg = pack ++ sync_marker;
              timer = false;
              shown = client.shown ++ ((c ∷ text) ∷ []);
            }))
  unfolding read_handler handle_pack show_deciphered resize all_zero
  read_deciphers public_key client pack c text size deciphered =
      let bytes = pack ++ sync_marker in
      let whole : length bytes ≡ length pack + 32 = length-append {A = ℕ} pack sync_marker in
      let asked : (length bytes == length client.read_msg) ≡ true =
        same_size _ _ (whole ∙ sym size) in
      let long : ltb (length bytes) sync_marker_size ≡ false = not_less _ _ (omega arith) in
      let front : length bytes - sync_marker_size ≡ length pack = omega arith in
      rw
        (
          read_handler,
          asked,
          long,
          front,
          drop-append_length pack sync_marker,
          handle_pack,
          take-append_length pack sync_marker,
          show_deciphered,
          deciphered,
          ◌>>=◌,
        )
        refl

  -- A message to one recipient, where no write is in progress.
  writes_frame :
      (public_key : Key) (rand : ℕ → ℕ → ℕ) (client : Client) (msg pack bytes : List ℕ)
      → client.write_msgs ≡ []
      → encipher ssl (rand 0) private_key public_key msg ≡ ok pack
      → pack_sync pack ≡ bytes
      → write_impl ssl private_key rand (public_key ∷ []) client msg
        ≡ ok (record client { write_msgs = bytes ∷ []; writes = client.writes ++ (bytes ∷ []) })
  unfolding write_impl pack_all write_front
  writes_frame public_key rand client msg pack bytes idle sealed framed =
      let packed : pack_all ssl private_key rand (public_key ∷ []) msg ≡ ok (bytes ∷ []) =
        rw (pack_all, sealed, ◌>>=◌) (ap (λ b. ok (b ∷ [])) framed) in
      rw (write_impl, packed, ◌>>=◌, idle, write_front, idle, idle) refl

length-resize : (n : ℕ) (bytes : List ℕ) → length (resize n bytes) ≡ n
unfolding resize
length-resize n bytes = omega (
  arith,
  length-take {A = ℕ} n (bytes ++ replicate n 0),
  length-append {A = ℕ} bytes (replicate n 0),
  length-replicate {A = ℕ} n 0,
)

-- The room passes a frame on as it came: the header is accepted, and the body relayed.
room_relays :
    (room : ChatRoom) (sender p lo hi : ℕ) (body : List ℕ)
    → IsSetOf room.participants
    → lo < 256
    → hi < 256
    → length body ≡ lo + 256 * hi
    → lo + 256 * hi ≤ Room.max_pack_size
    → stream (
        (Room.read_handler
            (Room.header_handler room sender (some (lo, hi)))
            sender
            (some body)).persons
          p)
      ≡ stream (room.persons p) ++ share p room.participants (lo ∷ (hi ∷ body))
unfolding Room.header_handler
room_relays room sender p lo hi body set lo_small hi_small size fits =
    let accepted : ltb Room.max_pack_size (lo + 256 * hi) ≡ false = not_less _ _ fits in
    let reading = Room.read room sender (lo + 256 * hi) true in
    rw accepted (
      read_handler-relays reading sender p body set
      ∙ ap (◌++ share p room.participants (frame body))
          (stream-read room sender (lo + 256 * hi) p true)
      ∙ ap (λ f. stream (room.persons p) ++ share p room.participants f)
          (frame_header lo hi body lo_small hi_small size))

module _ {Key : Type 0} (ssl : OpenSsl Key)
    (alice_private alice_public bob_private bob_public : Key) (digest : IsDigest ssl)
    (signer : IsSigner ssl alice_private alice_public) (whole : SignsWhole ssl alice_private)
    (rsa : IsRsa ssl bob_private bob_public) where
  -- The frame that Alice's client writes, and what Bob's client does with it.
  record IsFrame (rand : ℕ → ℕ → ℕ) (c : ℕ) (text : List ℕ) (lo hi : ℕ) (body : List ℕ)
      : Type 0 where
    lo_small : lo < 256
    hi_small : hi < 256
    size : length body ≡ lo + 256 * hi
    enough : min_pack_size ≤ lo + 256 * hi
    fits : lo + 256 * hi ≤ max_pack_size
    pack : List ℕ
    sealed : encipher ssl (rand 0) alice_private bob_public (c ∷ text) ≡ ok pack
    opened : decipher ssl bob_private alice_public pack ≡ ok (c ∷ text)
    framed : pack_sync pack ≡ lo ∷ (hi ∷ body)
    ends : body ≡ pack ++ sync_marker

  encipher-IsFrame :
      (rand : ℕ → ℕ → ℕ) (c : ℕ) (text : List ℕ)
      → length text < 7103
      → (lo hi : ℕ) × (body : List ℕ) × IsFrame rand c text lo hi body
  unfolding pack_sync len_bytes
  encipher-IsFrame rand c text short =
      let (pack, count, sealed, opened, size, low, high) =
        encipher-sized ssl alice_private alice_public bob_private bob_public digest signer whole rsa
          (rand 0) (c ∷ text) (omega arith) in
      let body = pack ++ sync_marker in
      let n = length body in
      let length_body : n ≡ length pack + 32 = length-append {A = ℕ} pack sync_marker in
      let lo = cast_uint16 n % 256 in
      let hi = cast_uint16 n / 256 % 256 in
      (
        lo,
        hi,
        body,
        record {
          lo_small = omega arith;
          hi_small = omega arith;
          size = omega arith;
          enough = omega arith;
          fits = omega arith;
          pack = pack;
          sealed = sealed;
          opened = opened;
          framed = refl;
          ends = refl;
        },
      )

  -- Where OpenSSL works: a message of 1 to 7103 bytes that Alice's client, with no message queued
  -- and Bob's key as its only recipient, is given goes into one frame that it writes; the room
  -- accepts the header of this frame and gives each participant the same bytes; and of these bytes
  -- Bob's client, which waits for its first header and has Alice's key as its only one, shows the
  -- message and waits for the next header.
  pub write_impl-delivers :
      (rand : ℕ → ℕ → ℕ) (c : ℕ) (text : List ℕ) (alice bob : Client) (room : ChatRoom) (sender : ℕ)
      → length text < 7103
      → alice.write_msgs ≡ []
      → IsReady bob
      → IsSetOf room.participants
      → (lo hi : ℕ) × (body : List ℕ) × (alice' bob' : Client) × (write_impl ssl alice_private rand
            (bob_public ∷ [])
            alice
            (c ∷ text)
          ≡ ok alice')
        × (alice'.writes ≡ alice.writes ++ ((lo ∷ (hi ∷ body)) ∷ []))
        × ((p : ℕ)
            → stream (
                (Room.read_handler
                    (Room.header_handler room sender (some (lo, hi)))
                    sender
                    (some body)).persons
                  p)
              ≡ stream (room.persons p) ++ share p room.participants (lo ∷ (hi ∷ body)))
        × (read_handler ssl bob_private
              (alice_public ∷ [])
              (header_handler bob (some (lo, hi)))
              (some body)
            ≡ ok bob')
        × (bob'.shown ≡ bob.shown ++ ((c ∷ text) ∷ []))
        × (bob'.reading ≡ a_header)
  unfolding read_body
  write_impl-delivers rand c text alice bob room sender short idle ready set =
      let (lo, hi, body, f) = encipher-IsFrame rand c text short in
      let asked =
        read_body (record bob { read_msg = lo ∷ (hi ∷ []); read_queue = lo ∷ (hi ∷ []) })
          (lo + 256 * hi) in
      let body_size : length asked.read_msg ≡ length f.pack + 32 =
        length-resize (lo + 256 * hi) (lo ∷ (hi ∷ []))
        ∙ sym f.size
        ∙ ap length f.ends
        ∙ length-append {A = ℕ} f.pack sync_marker in
      let got =
        read_deciphers ssl bob_private alice_public asked f.pack c text body_size f.opened in
      (
        lo,
        hi,
        body,
        record alice {
          write_msgs = (lo ∷ (hi ∷ body)) ∷ [];
          writes = alice.writes ++ ((lo ∷ (hi ∷ body)) ∷ []);
        },
        read_header (record asked {
          read_msg = f.pack ++ sync_marker;
          timer = false;
          shown = bob.shown ++ ((c ∷ text) ∷ []);
        }),
        writes_frame ssl alice_private bob_public rand alice (c ∷ text) f.pack (lo ∷ (hi ∷ body))
            idle f.sealed f.framed,
        refl,
        λ p. room_relays room sender p lo hi body set f.lo_small f.hi_small f.size f.fits,
        ap (λ client. read_handler ssl bob_private (alice_public ∷ []) client (some body))
              (header_reads bob lo hi ready.queue f.enough f.fits)
            ∙ ap (λ b. read_handler ssl bob_private (alice_public ∷ []) asked (some b)) f.ends
            ∙ got,
        refl,
        refl,
      )
