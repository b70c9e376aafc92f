-- ===== src/Tests/Clients.antt =====
-- The theorems on the C++ chat client at concrete inputs.
use vjft.Prelude.{
  ℕ, ◌≡◌, ◌↔◌, refl, List, [], ◌∷◌, ◌++◌, true, false, some, ok, arith, codes, replicate,
}
use vjft.Tests.Packs.{length_ssl, length_ssl-IsDigest, length_ssl-IsSigner, length_ssl-SignsWhole}
use vjft.Tests.Packs.{length_ssl-IsRsa}
use vjft.Tests.Rooms.{room, room-IsRoom}
use vjft.Room
use vjft.Room.Streams.{stream}
use vjft.Room.Relay.{share}
use vjft.ChatClient.{Client, nothing, a_header, on_connect, header_handler, read_handler}
use vjft.ChatClient.{write_impl, check_sync_marker_in_queue, check_sync_marker_from}
use vjft.ChatClient.Delivery.{IsReady, write_impl-delivers}
use vjft.ChatClient.Refusals.{IsMarked, check_sync_marker_in_queue_iff}

abbrev client : Client
client = record {
  read_msg = [];
  write_msgs = [];
  read_queue = [];
  zero_byte_count = 0;
  connected = true;
  timer = false;
  reading = nothing;
  writes = [];
  shown = [];
}

connected-IsReady : IsReady (on_connect client false)
unfolding on_connect
connected-IsReady = record { header = refl; queue = refl }

write_impl-delivers_example :
    (lo hi : ℕ) × (body : List ℕ) × (alice' bob' : Client) × (write_impl length_ssl 1
        (λ i j. 0)
        (2 ∷ [])
        client
        (codes "hi")
      ≡ ok alice')
    × (alice'.writes ≡ [] ++ ((lo ∷ (hi ∷ body)) ∷ []))
    × ((p : ℕ)
        → stream (
            (Room.read_handler (Room.header_handler room 1 (some (lo, hi))) 1 (some body)).persons
              p)
          ≡ stream (room.persons p) ++ share p room.participants (lo ∷ (hi ∷ body)))
    × (read_handler length_ssl 3
          (4 ∷ [])
          (header_handler (on_connect client false) (some (lo, hi)))
          (some body)
        ≡ ok bob')
    × (bob'.shown ≡ (on_connect client false).shown ++ (codes "hi" ∷ []))
    × (bob'.reading ≡ a_header)
write_impl-delivers_example =
    write_impl-delivers length_ssl 1 4 3 2 length_ssl-IsDigest (length_ssl-IsSigner 1 4)
      (length_ssl-SignsWhole 1) (length_ssl-IsRsa 3 2) (λ i j. 0) b'h' (codes "i") client
      (on_connect client false) room 1 (omega arith) refl connected-IsReady room-IsRoom.set

check_sync_marker_in_queue_iff_example :
    (check_sync_marker_in_queue (7 ∷ replicate 32 0) ≡ true) ↔ IsMarked (7 ∷ replicate 32 0)
check_sync_marker_in_queue_iff_example = check_sync_marker_in_queue_iff (7 ∷ replicate 32 0)

unmarked : check_sync_marker_in_queue ([] ++ (5 ∷ (0 ∷ []))) ≡ false
unfolding check_sync_marker_in_queue check_sync_marker_from
unmarked = refl
