-- ===== src/MainLoop/Delivery.antt =====
-- term/main.c: what a round of the main loop does with the queued messages when the socket takes bytes.
use vjft.Prelude.{ℕ, suc, ◌<◌, ◌≤◌, ◌≡◌, ◌≢◌, refl, ap, sym, ◌∙◌, ◌⊎◌, inl, inr, List, [], ◌∷◌}
use vjft.Prelude.{◌++◌, true, false, some, ok, arith, length, join}
use vjft.Prelude.{All, length-append, pos, negsuc, Bool-cases, subst}
use vjft.Key.{KeyEntry}
use vjft.Keyboard.{KeyMap}
use vjft.Outgoing.{Send, Wire, send_pending}
use vjft.Outgoing.Sending.{HasFailed, IsSend, send_pending-HasSent, send_message-ends}
use vjft.MainLoop.{ready, Calls, Main, next, finish_round, redraw, sent}
use vjft.MainLoop.{socket_writable, write_ready, network_ready, after_select, round}

-- `send` takes some of what it is given, each time.
unfoldable pub IsTaking : Send → Type 0
IsTaking send =
    (i : ℕ) (buffer : List ℕ)
    → 1 ≤ length buffer
    → (n : ℕ) × (send i buffer ≡ pos n) × (1 ≤ n) × (n ≤ length buffer)

IsTaking-IsSend : (send : Send) → IsTaking send → IsSend send
unfolding IsTaking IsSend
IsTaking-IsSend send taking i buffer some_byte = inr (taking i buffer some_byte)

-- Each message is shorter than all of them and one byte.
parts_short :
    (pending : List (List ℕ)) (bound : ℕ)
    → length (join pending) < bound
    → All (λ msg. length msg < bound) pending
parts_short [] bound h = tt
parts_short (msg ∷ pending) bound h =
    let size = length-append {A = ℕ} msg (join pending) in
    (omega (arith, size), parts_short pending bound (omega (arith, size)))

no_failure :
    (send : Send)
    → IsTaking send
    → (i : ℕ) (buffer : List ℕ) → 1 ≤ length buffer
    → send i buffer ≢ negsuc 0
unfolding IsTaking
no_failure send taking i buffer some_byte e =
    let (n, went, more, fits) = taking i buffer some_byte in cc

redraw-sent :
    (main : Main)
    → ((redraw main).world.outgoing_queue ≡ main.world.outgoing_queue)
      × ((redraw main).wire ≡ main.wire)
unfolding redraw
redraw-sent main = elim (Bool-cases main.need_redraw) [
  | inl dirty ↦ (rw (redraw, dirty) refl, rw (redraw, dirty) refl)
  | inr clean ↦ (rw (redraw, clean) refl, rw (redraw, clean) refl)
]

module _ (send : Send) (taking : IsTaking send) where
  sends_all :
      (pending : List (List ℕ)) (wire : Wire)
      → (wire' : Wire) × (send_pending send
            (suc (length pending))
            (suc (length (join pending)))
            false
            pending
            wire
          ≡ some ([], wire', false))
        × (wire'.bytes ≡ wire.bytes ++ join pending)
  sends_all pending wire =
      let (rest, wire', failed, ends, h) =
        send_pending-HasSent send (suc (length (join pending))) pending wire
          (IsTaking-IsSend send taking) (parts_short pending _ (omega arith)) in
      elim h [
        | inr (fails, stop) ↦ absurd (
            no_failure send taking stop.part.call stop.part.lost stop.part.some_byte
              stop.part.failed)
        | inl (well, all) ↦ (wire', rw (all.empty, well) at ends, all.sent)
      ]

  -- Where each call of send takes some bytes, a round of the main loop in which select reports
  -- only that the socket can be written goes on with the queue empty, and the bytes of the queued
  -- messages have gone into the socket in order.
  pub round-sends :
      (key_map : List KeyEntry) (key_ctrl_g : ℕ) (key_commands : List KeyMap) (main : Main)
      (calls : Calls)
      → main.terminate ≡ false
      → calls.select ≡ ready false false true
      → (main' : Main) × (round key_map key_ctrl_g key_commands send main calls ≡ ok (next main'))
        × (main'.world.outgoing_queue ≡ [])
        × (main'.wire.bytes ≡ main.wire.bytes ++ join main.world.outgoing_queue)
  unfolding round after_select network_ready write_ready socket_writable finish_round
  round-sends key_map key_ctrl_g key_commands main calls going selected =
      let (wire, ends, bytes) = sends_all main.world.outgoing_queue main.wire in
      let left = sent main [] wire false in
      let pending = main.world.outgoing_queue in
      let ends' : send_pending send (suc (length pending)) (suc (length (join pending)))
            main.terminate pending main.wire
          ≡ some ([], wire, false) =
        subst
          (λ t.
            send_pending send (suc (length pending)) (suc (length (join pending))) t pending
              main.wire
            ≡ some ([], wire, false))
          (sym going) ends in
      let written : socket_writable send main ≡ some left = rw (socket_writable, ends') refl in
      let (emptied, wired) = redraw-sent left in
      (
        redraw left,
        rw (selected, after_select, network_ready, write_ready, written, finish_round) refl,
        emptied,
        ap (λ w. w.bytes) wired ∙ bytes,
      )

-- Once terminate is set, by Ctrl-D in the same round, the loop over the queue hands the first
-- message to send, until all of it is in the socket or a call fails, with the front of it in the
-- socket; then it stops, and the messages behind it stay in the queue; stated with more rounds for
-- the message than it has bytes and calls of send that fail or take some bytes.
pub send_pending_terminating :
    (send : Send) (rounds bound : ℕ) (msg : List ℕ) (pending : List (List ℕ)) (wire : Wire)
    → IsSend send
    → length msg < bound
    → (wire' : Wire) × (send_pending send (suc rounds) bound true (msg ∷ pending) wire
        ≡ some (pending, wire', true))
      × ((wire'.bytes ≡ wire.bytes ++ msg) ⊎ HasFailed send wire wire' msg)
unfolding send_pending
send_pending_terminating send rounds bound msg pending wire is fits =
    elim (send_message-ends send bound msg 0 wire is (omega arith) (omega arith)) [
      | inl (wire', found, all) ↦ (wire', rw (send_pending, found) refl, inl all)
      | inr (wire', found, some_lost) ↦ (wire', rw (send_pending, found) refl, inr some_lost)
    ]
