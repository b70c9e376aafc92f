-- ===== src/ChatClient.antt =====
-- srv/Client.cpp: the C++ chat client. Its handlers run one at a time; `async_read` and `async_write` of
-- boost are started here and come back as calls of the handlers. `exit` is an exception, which ends
-- the program, and `fault` is the front of an empty queue, or what ServerCrypt takes for one.
pub mod Delivery
pub mod Refusals
use vjft.Prelude.{
  ℕ, zero, suc, ◌+◌, ◌-◌, ◌*◌, List, [], ◌∷◌, ◌++◌, Bool, true, false, not, ltb, leb,
}
use vjft.Prelude.{◌==◌, ◌&&◌, if◌then◌else◌, Option, none, some, Run, ok, exit, fault, ◌>>=◌}
use vjft.Prelude.{length, take, drop, replicate}
use vjft.Crypt.{OpenSsl}
use vjft.ServerCrypt.{resize, len_bytes, cast_uint16, encipher, decipher}

-- srv/defs.hpp
abbrev pub min_pack_size : ℕ
min_pack_size = 1570

abbrev pub max_pack_size : ℕ
max_pack_size = 16384

abbrev pub read_queue_size : ℕ
read_queue_size = 32

abbrev pub sync_marker_size : ℕ
sync_marker_size = 32

-- What the `async_read` that was started last reads.
pub data Reading : Type 0 where
  nothing a_header a_marker_byte : Reading
  a_body : ℕ → Reading

-- `connected` is whether the socket is open, `timer` whether the timer of the body runs, `writes` the
-- messages of all calls of `async_write`, and `shown` the texts that were printed.
pub record Client : Type 0 where
  pub read_msg : List ℕ
  pub write_msgs : List (List ℕ)
  pub read_queue : List ℕ
  pub zero_byte_count : ℕ
  pub connected : Bool
  pub timer : Bool
  pub reading : Reading
  pub writes : List (List ℕ)
  pub shown : List (List ℕ)

abbrev pub read_header : Client → Client
unfolding resize
read_header client = record client { read_msg = resize 2 client.read_msg; reading = a_header }

unfoldable pub close_impl : Client → Client
close_impl client = record client { connected = false }

unfoldable pub recover : Client → Client
recover client = record client { connected = false; read_queue = []; read_msg = [] }

unfoldable pub on_connect : Client → Bool → Client
unfolding resize close_impl
on_connect client true = close_impl client
on_connect client false = read_header client

-- The handler in `FindSyncMarker`, with the byte that was read, or an error.
unfoldable pub find_sync_marker : Client → Option ℕ → Client
unfolding resize close_impl
find_sync_marker client none = close_impl client
find_sync_marker client (some byte) =
    let count = if byte == 0 then suc client.zero_byte_count else 0 in
    if leb 32 count
    then read_header (record client { zero_byte_count = 0 })
    else record client { zero_byte_count = count; reading = a_marker_byte }

-- The loop of `checkSyncMarkerInQueue`.
unfoldable pub check_sync_marker_from : ℕ → List ℕ → Bool
check_sync_marker_from zero_count [] = false
check_sync_marker_from zero_count (byte ∷ queue) =
    let more = check_sync_marker_from (suc zero_count) queue in
    let again = check_sync_marker_from 0 queue in
    if byte == 0 then (if leb sync_marker_size (suc zero_count) then true else more) else again

unfoldable pub check_sync_marker_in_queue : List ℕ → Bool
unfolding check_sync_marker_from
check_sync_marker_in_queue queue = check_sync_marker_from 0 queue

-- `HandleDataTimeout`, with whether the timer was cancelled.
unfoldable pub handle_data_timeout : Client → Bool → Client
unfolding close_impl recover
handle_data_timeout client true = client
handle_data_timeout client false = recover (close_impl client)

-- The end of `HeaderHandler`: the body is read.
unfoldable pub read_body : Client → ℕ → Client
unfolding resize
read_body client need_read_size = record client {
  read_queue = drop (length client.read_queue - read_queue_size) client.read_queue;
  read_msg = resize need_read_size client.read_msg;
  timer = true;
  reading = a_body need_read_size;
}

-- `HeaderHandler`, with the two bytes that were read, or an error.
unfoldable pub header_handler : Client → Option (ℕ × ℕ) → Client
unfolding close_impl recover check_sync_marker_in_queue read_body
header_handler client none = close_impl client
header_handler client (some (lo, hi)) =
    let need_read_size = lo + 256 * hi in
    let queue = client.read_queue ++ (lo ∷ (hi ∷ [])) in
    let queued = record client { read_msg = lo ∷ (hi ∷ []); read_queue = queue } in
    if check_sync_marker_in_queue queue
    then recover queued
    else if ltb need_read_size min_pack_size
    then read_body (recover queued) need_read_size
    else if ltb max_pack_size need_read_size
    then recover queued
    else read_body queued need_read_size

unfoldable pub all_zero : List ℕ → Bool
all_zero [] = true
all_zero (byte ∷ bytes) = byte == 0 && all_zero bytes

-- 32 zero bytes
abbrev pub sync_marker : List ℕ
sync_marker = replicate 32 0

-- A pack with the marker behind it and the length in front.
unfoldable pub pack_sync : List ℕ → List ℕ
unfolding len_bytes
pack_sync encrypted_msg =
    let packed_msg = encrypted_msg ++ sync_marker in
    len_bytes (cast_uint16 (length packed_msg)) ++ packed_msg

-- `async_write` of the front
unfoldable pub write_front : Client → Run Client
write_front client = elim client.write_msgs [
  | [] ↦ fault
  | msg ∷ rest ↦ ok (record client { writes = client.writes ++ (msg ∷ []) })
]

module _ {Key : Type 0} (ssl : OpenSsl Key) (private_key : Key) where
  -- The loop over the known keys.
  unfoldable pub show_deciphered : List Key → List ℕ → List (List ℕ) → Run (List (List ℕ))
  unfolding decipher
  show_deciphered [] received_msg shown = ok shown
  show_deciphered (public_key ∷ keys) received_msg shown =
      decipher ssl private_key public_key received_msg >>= λ decrypted_msg. elim decrypted_msg [
        | [] ↦ show_deciphered keys received_msg shown
        | c ∷ text ↦ show_deciphered keys received_msg (shown ++ ((c ∷ text) ∷ []))
      ]

  -- `ReadHandler` of bytes that end with the marker, from the call of `decipher` on.
  unfoldable pub handle_pack : List Key → Client → List ℕ → Run Client
  unfolding show_deciphered resize
  handle_pack keys client received_msg =
      show_deciphered keys (take (length received_msg - sync_marker_size) received_msg) client.shown
      >>= λ shown. ok (read_header (record client { shown = shown }))

  -- `ReadHandler`, with the bytes that were read, or an error. Of a body shorter than the marker the
  -- call of `resize` throws, behind `Recover`.
  unfoldable pub read_handler : List Key → Client → Option (List ℕ) → Run Client
  unfolding close_impl recover all_zero handle_pack
  read_handler keys client none = ok (close_impl client)
  read_handler keys client (some bytes) =
      let received = record client { read_msg = bytes; timer = false } in
      if not (length bytes == length client.read_msg)
      then ok (recover client)
      else if ltb (length bytes) sync_marker_size
      then exit
      else if not (all_zero (drop (length bytes - sync_marker_size) bytes))
      then ok (recover received)
      else handle_pack keys received bytes

  -- The loop over the keys of the recipients; each call of `encipher` has its own random numbers.
  unfoldable pub pack_all : (ℕ → ℕ → ℕ) → List Key → List ℕ → Run (List (List ℕ))
  unfolding encipher pack_sync
  pack_all rand [] msg = ok []
  pack_all rand (public_key ∷ keys) msg =
      encipher ssl (rand 0) private_key public_key msg >>= λ encrypted_msg.
      pack_all (λ i. rand (suc i)) keys msg >>= λ packed. ok (pack_sync encrypted_msg ∷ packed)

  unfoldable pub write_impl : (ℕ → ℕ → ℕ) → List Key → Client → List ℕ → Run Client
  unfolding pack_all write_front
  write_impl rand keys client msg = pack_all rand keys msg >>= λ packed.
      let queued = record client { write_msgs = client.write_msgs ++ packed } in
      elim client.write_msgs [ [] ↦ write_front queued | _ ∷ _ ↦ ok queued ]

-- `WriteHandler`, with whether there was an error.
unfoldable pub write_handler : Client → Bool → Run Client
unfolding write_front close_impl
write_handler client true = ok (close_impl client)
write_handler client false = elim (drop 1 client.write_msgs) [
  | [] ↦ ok (record client { write_msgs = [] })
  | msg ∷ rest ↦ write_front (record client { write_msgs = msg ∷ rest })
]
