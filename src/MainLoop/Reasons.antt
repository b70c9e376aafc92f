-- ===== src/MainLoop/Reasons.antt =====
-- term/main.c: the reasons to leave the main loop, and what a failed call of `send` leaves.
use vjft.Prelude.{ℕ, zero, suc, ◌≡◌, ◌≢◌, refl, ap, sym, ◌∙◌, ◌⊎◌, inl, inr, List, [], ◌∷◌, Bool}
use vjft.Prelude.{true, false, Option, none, some, length}
use vjft.Prelude.{Option-cases, Bool-cases, subst, drop, ltb, ℤ, pos, negsuc}
use vjft.Prelude.{◌+◌}
use vjft.Prelude.{take, ◌++◌, take-add, append_assoc, append-nil}
use vjft.Outgoing.{Send, Wire, taken, send_message, send_pending}
use vjft.MainLoop.{closed, broken, interrupted}
use vjft.MainLoop.{ready, Calls, After, next, ended, goto_exit, unfinished}
use vjft.MainLoop.{exit_connection_closed, exit_socket_failed, exit_select_no_sigwinch}

-- The last call of `send` failed: it was given what was left of a message, and the socket had taken the
-- front of it last.
pub record LastCallFailed (send : Send) (wire : Wire) : Type 0 where
  pub call : ℕ
  pub last_call : wire.calls ≡ suc call
  pub msg : List ℕ
  pub total_sent : ℕ
  pub more : ltb total_sent (length msg) ≡ true
  pub before : List ℕ
  pub bytes : wire.bytes ≡ before ++ take total_sent msg
  pub error : ℕ
  pub failed : send call (drop total_sent msg) ≡ negsuc error

-- The bytes and the calls at the end of the loop.
unfoldable pub wire_of : After → Option Wire
wire_of (next main) = some main.wire
wire_of (ended main) = some main.wire
wire_of (goto_exit code main) = some main.wire
wire_of unfinished = none

-- What ends the loop with a code, in a round before which a signal came or not: a result of a call that
-- this round makes, or the last call of `send`.
pub data EndsBy (send : Send) (winch : Bool) (calls : Calls) (wire : Option Wire) : ℕ → Type 0 where
  no_signal :
      calls.select ≡ interrupted
      → winch ≡ false
      → EndsBy send winch calls wire exit_select_no_sigwinch
  peer_closed :
      (key writable : Bool)
      → calls.select ≡ ready key true writable
      → calls.net ≡ closed
      → EndsBy send winch calls wire exit_connection_closed
  read_failed :
      (key writable : Bool)
      → calls.select ≡ ready key true writable
      → calls.net ≡ broken
      → EndsBy send winch calls wire exit_socket_failed
  ctrl_d :
      (readable writable : Bool)
      → calls.select ≡ ready true readable writable
      → calls.key ≡ some (0x04 ∷ [])
      → EndsBy send winch calls wire 0
  send_failed :
      (key readable : Bool) (w : Wire)
      → calls.select ≡ ready key readable true
      → wire ≡ some w
      → LastCallFailed send w
      → EndsBy send winch calls wire 0

pub some-injective : {A : Type 0} {a b : A} → some a ≡ some b → a ≡ b
some-injective e = cc

pub ℤ-cases : (z : ℤ) → ((n : ℕ) × (z ≡ pos n)) ⊎ ((n : ℕ) × (z ≡ negsuc n))
ℤ-cases (pos n) = inl (n, refl)
ℤ-cases (negsuc n) = inr (n, refl)

pub unlike : (o : Option (Wire × Bool)) (a b : Wire) → o ≡ some (a, false) → o ≡ some (b, true) → ⊥
unlike o a b d e = cc

send_message-LastCallFailed :
    (send : Send) (rounds : ℕ) (msg : List ℕ) (total_sent : ℕ) (before : List ℕ) (wire wire' : Wire)
    → wire.bytes ≡ before ++ take total_sent msg
    → send_message send rounds msg total_sent wire ≡ some (wire', true)
    → LastCallFailed send wire'
unfolding send_message
send_message-LastCallFailed send zero msg total_sent before wire wire' bytes e = absurd cc
send_message-LastCallFailed send (suc rounds) msg total_sent before wire wire' bytes e =
    elim (Bool-cases (ltb total_sent (length msg))) [
      | inr done ↦ absurd (unlike _ wire wire' (rw (send_message, done) refl) e)
      | inl more ↦ elim (ℤ-cases (send wire.calls (drop total_sent msg))) [
        | inr (n, went) ↦
            let stopped : some (record wire { calls = suc wire.calls }, true) ≡ some (wire', true) =
              rw (send_message, more, went) at e in
            subst (LastCallFailed send) (ap (λ p. p.0) (some-injective stopped)) (record {
              call = wire.calls;
              last_call = refl;
              msg = msg;
              total_sent = total_sent;
              more = more;
              before = before;
              bytes = bytes;
              error = n;
              failed = went;
            })
        | inl (n, went) ↦
            send_message-LastCallFailed send rounds msg (total_sent + n) before
              (taken wire (drop total_sent msg) n) wire'
              (ap (◌++ take n (drop total_sent msg)) bytes
                ∙ append_assoc before (take total_sent msg) (take n (drop total_sent msg))
                ∙ ap (before ++◌) (sym (take-add total_sent n msg)))
              (rw (send_message, more, went) at e)
      ]
    ]

pub nothing : {A : Type 0} {a : A} → none ≢ some a
nothing e = cc

-- Where the loop over the queue sets `terminate`, it was set, or a call failed.
pub send_pending-terminate :
    (send : Send) (rounds bound : ℕ) (terminate : Bool) (pending rest : List (List ℕ))
    (wire wire' : Wire)
    → send_pending send rounds bound terminate pending wire ≡ some (rest, wire', true)
    → (terminate ≡ true) ⊎ LastCallFailed send wire'
unfolding send_pending
send_pending-terminate send zero bound terminate pending rest wire wire' e = absurd cc
send_pending-terminate send (suc rounds) bound true pending rest wire wire' e = inl refl
send_pending-terminate send (suc rounds) bound false [] rest wire wire' e = absurd cc
send_pending-terminate send (suc rounds) bound false (msg ∷ pending) rest wire wire' e =
    elim (Option-cases (send_message send bound msg 0 wire)) [
      | inl stuck ↦ absurd (nothing (rw (send_pending, stuck) at e))
      | inr ((wire'', true), found) ↦
          let stopped : some (pending, wire'', true) ≡ some (rest, wire', true) =
            rw (send_pending, found) at e in
          inr (
            subst (LastCallFailed send) (ap (λ p. p.1) (some-injective stopped)) (
              send_message-LastCallFailed send bound msg 0 wire.bytes wire wire''
                (sym (append-nil wire.bytes)) found))
      | inr ((wire'', false), found) ↦
          send_pending-terminate send rounds bound false pending rest wire'' wire'
            (rw (send_pending, found) at e)
    ]
