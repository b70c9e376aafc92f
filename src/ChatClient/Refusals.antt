-- ===== src/ChatClient/Refusals.antt =====
-- srv/Client.cpp: the search for the marker, and what the handlers do where they do not go on.
use vjft.Prelude.{
  ℕ, zero, suc, ◌+◌, ◌*◌, ◌<◌, ◌≤◌, ◌≡◌, ◌↔◌, refl, sym, ap, ◌∙◌, inl, inr, List, [],
}
use vjft.Prelude.{◌∷◌, ◌++◌, true, false, ltb, leb, ◌==◌, some, exit, fault, length, replicate}
use vjft.Prelude.{arith, Bool-cases, ==_iff, append_assoc, subst}
use vjft.Crypt.{OpenSsl}
use vjft.ChatClient.{Client, a_body, check_sync_marker_from, check_sync_marker_in_queue, read_body}
use vjft.ChatClient.{
  recover, header_handler, read_handler, pack_all, write_front, write_impl, sync_marker,
}
use vjft.ChatClient.{min_pack_size, sync_marker_size}

-- The marker stands in the bytes.
pub IsMarked : List ℕ → Type 0
IsMarked queue = (before after : List ℕ) × (queue ≡ before ++ (sync_marker ++ after))

zeros_cons : (k : ℕ) (queue : List ℕ) → replicate k 0 ++ (0 ∷ queue) ≡ replicate (suc k) 0 ++ queue
zeros_cons zero queue = refl
zeros_cons (suc k) queue = ap (0 ∷◌) (zeros_cons k queue)

behind : (xs queue : List ℕ) → IsMarked queue → IsMarked (xs ++ queue)
unfolding IsMarked
behind xs queue (before, after, e) =
    (xs ++ before, after, ap (xs ++◌) e ∙ sym (append_assoc xs before (sync_marker ++ after)))

found-IsMarked :
    (k : ℕ) (queue : List ℕ)
    → k < 32
    → check_sync_marker_from k queue ≡ true
    → IsMarked (replicate k 0 ++ queue)
unfolding check_sync_marker_from IsMarked
found-IsMarked k [] small e = absurd (ground arith)
found-IsMarked k (byte ∷ queue) small e = elim (Bool-cases (byte == 0)) [
  | inr other ↦ subst IsMarked (append_assoc (replicate k 0) (byte ∷ []) queue) (
      behind (replicate k 0 ++ (byte ∷ [])) queue
        (found-IsMarked 0 queue (omega arith) (rw other at e)))
  | inl null ↦
      let same : replicate k 0 ++ (byte ∷ queue) ≡ replicate (suc k) 0 ++ queue =
        ap (λ b. replicate k 0 ++ (b ∷ queue)) ((==_iff byte 0).0 null) ∙ zeros_cons k queue in
      elim (Bool-cases (leb sync_marker_size (suc k))) [
        | inl whole ↦
            let last : suc k ≡ 32 = ground arith in
            ([], queue, same ∙ ap (λ n. replicate n 0 ++ queue) last)
        | inr more ↦
            subst IsMarked (sym same)
              (found-IsMarked (suc k) queue (ground arith) (rw (null, more) at e))
      ]
]

zeros-found :
    (n k : ℕ) (after : List ℕ)
    → k < 32
    → 32 ≤ k + n
    → check_sync_marker_from k (replicate n 0 ++ after) ≡ true
unfolding check_sync_marker_from
zeros-found zero k after small enough = absurd (omega arith)
zeros-found (suc n) k after small enough = elim (Bool-cases (leb sync_marker_size (suc k))) [
  | inl whole ↦ rw whole refl
  | inr more ↦ rw more (zeros-found n (suc k) after (ground arith) (omega arith))
]

marked-found :
    (before after : List ℕ) (k : ℕ)
    → k < 32
    → check_sync_marker_from k (before ++ (sync_marker ++ after)) ≡ true
unfolding check_sync_marker_from
marked-found [] after k small = zeros-found 32 k after small (omega arith)
marked-found (byte ∷ before) after k small = elim (Bool-cases (byte == 0)) [
  | inr other ↦ rw other (marked-found before after 0 (omega arith))
  | inl null ↦ elim (Bool-cases (leb sync_marker_size (suc k))) [
    | inl whole ↦ rw (null, whole) refl
    | inr more ↦ rw (null, more) (marked-found before after (suc k) (ground arith))
  ]
]

-- CheckSyncMarkerInQueue holds of a queue exactly if 32 zero bytes in a row stand in it.
pub check_sync_marker_in_queue_iff :
    (queue : List ℕ) → (check_sync_marker_in_queue queue ≡ true) ↔ IsMarked queue
unfolding check_sync_marker_in_queue IsMarked
check_sync_marker_in_queue_iff queue = (
  λ found. found-IsMarked 0 queue (omega arith) found,
  λ (before, after, e). ap (check_sync_marker_from 0) e ∙ marked-found before after 0 (omega arith),
)

-- Where the header asks for less than 1570 bytes and completes no marker, HeaderHandler closes the
-- socket and yet starts to read the body from it.
pub header_handler_small :
    (client : Client) (lo hi : ℕ)
    → check_sync_marker_in_queue (client.read_queue ++ (lo ∷ (hi ∷ []))) ≡ false
    → lo + 256 * hi < min_pack_size
    → ((header_handler client (some (lo, hi))).connected ≡ false)
      × ((header_handler client (some (lo, hi))).reading ≡ a_body (lo + 256 * hi))
unfolding header_handler read_body recover
header_handler_small client lo hi unmarked small =
    let short : ltb (lo + 256 * hi) min_pack_size ≡ true = ground arith in
    (rw (unmarked, short) refl, rw (unmarked, short) refl)

module _ {Key : Type 0} (ssl : OpenSsl Key) (private_key : Key) where
  -- A body shorter than the marker ends the client by an exception, though Recover was called for it.
  pub read_handler_short :
      (keys : List Key) (client : Client) (bytes : List ℕ)
      → length bytes ≡ length client.read_msg
      → length bytes < sync_marker_size
      → read_handler ssl private_key keys client (some bytes) ≡ exit
  unfolding read_handler
  read_handler_short keys client bytes size short =
      let asked : (length bytes == length client.read_msg) ≡ true = (==_iff _ _).1 size in
      let few : ltb (length bytes) sync_marker_size ≡ true = less (length bytes) short in
      rw (asked, few) refl
    where
      less : (n : ℕ) → n < 32 → ltb n 32 ≡ true
      less n h = ground arith

  -- Without recipients the first message makes WriteImpl read the front of an empty queue.
  pub write_impl_without_recipients :
      (rand : ℕ → ℕ → ℕ) (client : Client) (msg : List ℕ)
      → client.write_msgs ≡ []
      → write_impl ssl private_key rand [] client msg ≡ fault
  unfolding write_impl pack_all write_front
  write_impl_without_recipients rand client msg idle = rw (idle, write_front, idle) refl
