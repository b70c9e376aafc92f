-- ===== src/Outgoing/Sending.antt =====
-- term/main.c: what the main loop hands to `send` of the queued messages, and that it comes to an end.
use vjft.Prelude.{ℕ, zero, suc, ◌+◌, ◌≤◌, ◌<◌, ◌≡◌, ◌⊎◌, inl, inr, refl, sym, ap, ◌∙◌}
use vjft.Prelude.{List, [], ◌∷◌, ◌++◌, append-nil, append_assoc, Bool, true, false, ltb}
use vjft.Prelude.{some, All, length, take, drop, join, arith, length-drop}
use vjft.Prelude.{pos, negsuc, take-append-drop, drop-add, drop_all, Bool-cases}
use vjft.Outgoing.{Send, Wire, taken}
use vjft.Outgoing.{send_message, send_pending}

-- What the loop relies on of `send` of a buffer that is not empty: it fails, or it takes at least one
-- byte and no more than there are.
unfoldable pub IsSend : Send → Type 0
IsSend send =
    (i : ℕ) (buffer : List ℕ)
    → 1 ≤ length buffer
    → (send i buffer ≡ negsuc 0)
      ⊎ ((n : ℕ) × (send i buffer ≡ pos n) × (1 ≤ n) × (n ≤ length buffer))

-- The last call failed, of the bytes that are lost: those taken are the front of what was to be sent.
pub record HasFailed (send : Send) (wire wire' : Wire) (bytes : List ℕ) : Type 0 where
  pub front : List ℕ
  pub lost : List ℕ
  pub parts : front ++ lost ≡ bytes
  pub sent : wire'.bytes ≡ wire.bytes ++ front
  pub call : ℕ
  pub last_call : wire'.calls ≡ suc call
  pub some_byte : 1 ≤ length lost
  pub failed : send call lost ≡ negsuc 0

-- What a call took and what stands behind it are what there was.
joined :
    (bytes : List ℕ) (n total_sent : ℕ) (msg : List ℕ)
    → (bytes ++ take n (drop total_sent msg)) ++ drop (total_sent + n) msg
      ≡ bytes ++ drop total_sent msg
joined bytes n total_sent msg =
    append_assoc bytes (take n (drop total_sent msg)) (drop (total_sent + n) msg)
    ∙ ap (bytes ++◌) (
        ap (take n (drop total_sent msg) ++◌) (drop-add total_sent n msg)
        ∙ take-append-drop n (drop total_sent msg))

-- With more rounds than bytes are left the loop over one message ends: all of the rest is sent, or a
-- call failed.
pub send_message-ends :
    (send : Send) (rounds : ℕ) (msg : List ℕ) (total_sent : ℕ) (wire : Wire)
    → IsSend send
    → total_sent ≤ length msg
    → length msg < total_sent + rounds
    → ((wire' : Wire) × (send_message send rounds msg total_sent wire ≡ some (wire', false))
        × (wire'.bytes ≡ wire.bytes ++ drop total_sent msg))
      ⊎ ((wire' : Wire) × (send_message send rounds msg total_sent wire ≡ some (wire', true))
          × HasFailed send wire wire' (drop total_sent msg))
unfolding send_message IsSend
send_message-ends send zero msg total_sent wire is inside enough = absurd (omega arith)
send_message-ends send (suc rounds) msg total_sent wire is inside enough =
    elim (Bool-cases (ltb total_sent (length msg))) [
      | inr done ↦ inl (
        wire,
        rw (send_message, done) refl,
        rw (drop_all total_sent msg (ground arith)) (sym (append-nil wire.bytes)),
      )
      | inl more ↦
          let left = drop total_sent msg in
          let size = length-drop {A = ℕ} total_sent msg in
          elim (is wire.calls left (ground (arith, size))) [
            | inl failed ↦ inr (
              record wire { calls = suc wire.calls },
              rw (send_message, more, failed) refl,
              record {
                front = [];
                lost = left;
                parts = refl;
                sent = sym (append-nil wire.bytes);
                call = wire.calls;
                last_call = refl;
                some_byte = ground (arith, size);
                failed = failed;
              },
            )
            | inr (n, went, some_byte, fits) ↦
                let rest =
                  send_message-ends send rounds msg (total_sent + n) (taken wire left n) is
                    (ground (arith, size)) (omega arith) in
                let step : send_message send (suc rounds) msg total_sent wire
                    ≡ send_message send rounds msg (total_sent + n) (taken wire left n) =
                  rw (send_message, more, went) refl in
                elim rest [
                  | inl (wire', found, sent) ↦
                      inl (wire', step ∙ found, sent ∙ joined wire.bytes n total_sent msg)
                  | inr (wire', found, h) ↦ inr (
                    wire',
                    step ∙ found,
                    record {
                      front = take n left ++ h.front;
                      lost = h.lost;
                      parts =
                          append_assoc (take n left) h.front h.lost
                          ∙ ap (take n left ++◌) (h.parts ∙ drop-add total_sent n msg)
                          ∙ take-append-drop n left;
                      sent = h.sent ∙ append_assoc wire.bytes (take n left) h.front;
                      call = h.call;
                      last_call = h.last_call;
                      some_byte = h.some_byte;
                      failed = h.failed;
                    },
                  )
                ]
          ]
    ]

-- All messages went into the socket, in order.
pub record HasSentAll (pending rest : List (List ℕ)) (wire wire' : Wire) : Type 0 where
  pub empty : rest ≡ []
  pub sent : wire'.bytes ≡ wire.bytes ++ join pending

-- The messages of `done` went into the socket, and the front of the next one; the last call failed, of
-- what is left of that message, which is gone, and the messages behind it are queued still.
pub record HasStopped (send : Send) (pending rest : List (List ℕ)) (wire wire' : Wire)
    : Type 0 where
  pub done : List (List ℕ)
  pub msg : List ℕ
  pub messages : pending ≡ done ++ (msg ∷ rest)
  pub before : Wire
  pub sent_before : before.bytes ≡ wire.bytes ++ join done
  pub part : HasFailed send before wire' msg

-- What the loop over the queue leaves: either no call failed, or the last one.
abbrev pub HasSent : Send → List (List ℕ) → List (List ℕ) → Wire → Wire → Bool → Type 0
HasSent send pending rest wire wire' failed =
    ((failed ≡ false) × HasSentAll pending rest wire wire')
    ⊎ ((failed ≡ true) × HasStopped send pending rest wire wire')

-- Where each call of send fails or takes some of the bytes, one round for each message and one
-- more are enough for the loop over the queue, with more rounds for a message than it has bytes:
-- it ends; then all messages have gone into the socket, in order, and the queue is empty, or the
-- last call has failed: the messages before one have gone into the socket, and the front of this
-- one, the call that failed was given the rest of it, which is lost, and the messages behind it
-- are queued still.
pub send_pending-HasSent :
    (send : Send) (bound : ℕ) (pending : List (List ℕ)) (wire : Wire)
    → IsSend send
    → All (λ msg. length msg < bound) pending
    → (rest : List (List ℕ)) × (wire' : Wire) × (failed : Bool) × (send_pending send
          (suc (length pending))
          bound
          false
          pending
          wire
        ≡ some (rest, wire', failed))
      × HasSent send pending rest wire wire' failed
unfolding send_pending
send_pending-HasSent send bound [] wire is short =
    ([], wire, false, refl, inl (refl, record { empty = refl; sent = sym (append-nil wire.bytes) }))
send_pending-HasSent send bound (msg ∷ pending) wire is (fits, short) =
    elim (send_message-ends send bound msg 0 wire is (omega arith) (omega arith)) [
      | inr (wire', found, h) ↦ (
        pending,
        wire',
        true,
        rw (send_pending, found) refl,
        inr (
          refl,
          record {
            done = [];
            msg = msg;
            messages = refl;
            before = wire;
            sent_before = sym (append-nil wire.bytes);
            part = h;
          },
        ),
      )
      | inl (wire', found, sent) ↦
          let (rest, wire'', failed, ends, h) =
            send_pending-HasSent send bound pending wire' is short in
          (
            rest,
            wire'',
            failed,
            rw (send_pending, found) ends,
            elim h [
              | inl (well, all) ↦ inl (
                well,
                record {
                  empty = all.empty;
                  sent =
                      all.sent
                      ∙ ap (◌++ join pending) sent
                      ∙ append_assoc wire.bytes msg (join pending);
                },
              )
              | inr (fails, stop) ↦ inr (
                fails,
                record {
                  done = msg ∷ stop.done;
                  msg = stop.msg;
                  messages = ap (msg ∷◌) stop.messages;
                  before = stop.before;
                  sent_before =
                      stop.sent_before
                      ∙ ap (◌++ join stop.done) sent
                      ∙ append_assoc wire.bytes msg (join stop.done);
                  part = stop.part;
                },
              )
            ],
          )
    ]
