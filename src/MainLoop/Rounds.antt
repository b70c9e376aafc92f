-- ===== src/MainLoop/Rounds.antt =====
-- term/main.c: what a round of the main loop leaves on the screen.
use vjft.Prelude.{ℕ, suc, ◌≡◌, refl, ap, sym, inl, inr, List, [], ◌∷◌, Bool, true, false}
use vjft.Prelude.{Option, some, ok, arith, length, join}
use vjft.Prelude.{Option-cases, Bool-cases, ok->>=, ok-injective, subst}
use vjft.Key.{KeyEntry}
use vjft.Keyboard.{KeyMap}
use vjft.Process.{process_events}
use vjft.Outgoing.{Send, send_pending}
use vjft.MainLoop.{
  Window, NetRead, received, closed, broken, Select, interrupted, failed, timed_out,
}
use vjft.MainLoop.{ready, Calls, Main, After, next, ended, goto_exit, unfinished, visible, redraw}
use vjft.MainLoop.{
  finish_round, resized, sent, interrupt, press_key, processed, keyboard_ready, socket_readable,
}
use vjft.MainLoop.{socket_writable, write_ready, network_ready, after_select}
use vjft.MainLoop.{round, main_loop, signal}

-- What the last call of `reDraw` showed is what there is, or the screen is to be drawn.
unfoldable pub IsDrawn : Main → Type 0
IsDrawn main = main.need_redraw ≡ false → main.drawn ≡ some (visible main)

-- The screen shows what there is.
pub IsShown : After → Type 0
IsShown (next main) = (main.need_redraw ≡ false) × (main.drawn ≡ some (visible main))
IsShown (ended main) = (main.need_redraw ≡ false) × (main.drawn ≡ some (visible main))
IsShown (goto_exit code main) = Unit
IsShown unfinished = Unit

redraw-IsShown :
    (main : Main)
    → IsDrawn main
    → ((redraw main).need_redraw ≡ false) × ((redraw main).drawn ≡ some (visible (redraw main)))
unfolding redraw IsDrawn
redraw-IsShown main drawn = elim (Bool-cases main.need_redraw) [
  | inl dirty ↦ (rw (redraw, dirty) refl, rw (redraw, dirty) refl)
  | inr clean ↦ (rw (redraw, clean) clean, rw (redraw, clean) (drawn clean))
]

finish_round-IsShown : (main : Main) → IsDrawn main → IsShown (finish_round main)
unfolding finish_round IsShown
finish_round-IsShown main drawn = elim (Bool-cases main.terminate) [
  | inl stop ↦ rw (finish_round, stop) (redraw-IsShown main drawn)
  | inr go ↦ rw (finish_round, go) (redraw-IsShown main drawn)
]

-- A state that is to be drawn.
dirty-IsDrawn : (main : Main) → main.need_redraw ≡ true → IsDrawn main
unfolding IsDrawn
dirty-IsDrawn main dirty clean = absurd (ground arith)

interrupt-IsShown :
    (main : Main) (size : Option Window) → IsDrawn main → IsShown (interrupt main size)
unfolding interrupt IsShown
interrupt-IsShown main size drawn = elim (Bool-cases main.sig_winch_raised) [
  | inl raised ↦ rw (interrupt, raised) (redraw-IsShown _ (dirty-IsDrawn (resized main size) refl))
  | inr quiet ↦ rw (interrupt, quiet) tt
]

module _ (send : Send) where
  write_ready-IsShown :
      (main : Main) (writable : Bool) → IsDrawn main → IsShown (write_ready send main writable)
  unfolding write_ready socket_writable IsShown IsDrawn
  write_ready-IsShown main false drawn = finish_round-IsShown main drawn
  write_ready-IsShown main true drawn =
      let pending = main.world.outgoing_queue in
      elim (Option-cases (
        send_pending send (suc (length pending)) (suc (length (join pending))) main.terminate
          pending main.wire)) [
            | inl stuck ↦ rw (write_ready, socket_writable, stuck) tt
            | inr ((rest, wire, terminate), found) ↦
                rw (write_ready, socket_writable, found)
                  (finish_round-IsShown (sent main rest wire terminate) drawn)
          ]

  network_ready-IsShown :
      (main : Main) (readable writable : Bool) (net : NetRead)
      → IsDrawn main
      → IsShown (network_ready send main readable writable net)
  unfolding network_ready socket_readable IsShown
  network_ready-IsShown main false writable net drawn = write_ready-IsShown main writable drawn
  network_ready-IsShown main true writable (received buffer) drawn =
      write_ready-IsShown (socket_readable main (received buffer)).0 writable
        (dirty-IsDrawn (socket_readable main (received buffer)).0 refl)
  network_ready-IsShown main true writable closed drawn = tt
  network_ready-IsShown main true writable broken drawn = tt

module _ (key_map : List KeyEntry) (key_ctrl_g : ℕ) (key_commands : List KeyMap) where
  -- Every key asks for a new drawing.
  keyboard_ready-dirty :
      (main : Main) (key : Option (List ℕ)) (main' : Main)
      → keyboard_ready key_map key_ctrl_g key_commands main key ≡ ok main'
      → main'.need_redraw ≡ true
  unfolding keyboard_ready
  keyboard_ready-dirty main key main' e =
      let (kb, terminate) = press_key key_map key_ctrl_g key_commands main key in
      let (step, done, found) =
        ok->>=
          (process_events key_map kb.input_events (record main.world { msg_list = kb.msg_list })
            false)
          (λ step. ok (processed main kb.ctrl_stack step.0 terminate)) main' e in
      ap (λ m. m.need_redraw) (sym (ok-injective found))

  module _ (send : Send) where
    after_select-IsShown :
        (main : Main) (calls : Calls) (select : Select) (after : After)
        → IsDrawn main
        → after_select key_map key_ctrl_g key_commands send main calls select ≡ ok after
        → IsShown after
    unfolding after_select
    after_select-IsShown main calls interrupted after drawn e =
        subst IsShown (ok-injective e) (interrupt-IsShown main calls.size drawn)
    after_select-IsShown main calls failed after drawn e = absurd cc
    after_select-IsShown main calls timed_out after drawn e =
        subst IsShown (ok-injective e) (finish_round-IsShown main drawn)
    after_select-IsShown main calls (ready false readable writable) after drawn e =
        subst IsShown (ok-injective e)
          (network_ready-IsShown send main readable writable calls.net drawn)
    after_select-IsShown main calls (ready true readable writable) after drawn e =
        let (main', pressed, found) =
          ok->>= (keyboard_ready key_map key_ctrl_g key_commands main calls.key)
            (λ main'. ok (network_ready send main' readable writable calls.net)) after e in
        subst IsShown (ok-injective found) (
          network_ready-IsShown send main' readable writable calls.net
            (dirty-IsDrawn main' (keyboard_ready-dirty main calls.key main' pressed)))

    IsShown-main_loop :
        (after : After) (rounds : List (Bool × Calls)) (last : After)
        → IsShown after
        → main_loop key_map key_ctrl_g key_commands send after rounds ≡ ok last
        → IsShown last
    unfolding main_loop round IsShown IsDrawn
    IsShown-main_loop (next main) [] last h e = subst IsShown (ok-injective e) h
    IsShown-main_loop (next main) ((winch, calls) ∷ rounds) last (clean, h) e =
        let (step, made, found) =
          ok->>= (round key_map key_ctrl_g key_commands send (signal main winch) calls)
            (λ step. main_loop key_map key_ctrl_g key_commands send step rounds) last e in
        IsShown-main_loop step rounds last
          (after_select-IsShown (signal main winch) calls calls.select step (λ dirty. h) made) found
    IsShown-main_loop (ended main) rounds last h e = subst IsShown (ok-injective e) h
    IsShown-main_loop (goto_exit code main) rounds last h e = subst IsShown (ok-injective e) h
    IsShown-main_loop unfinished rounds last h e = subst IsShown (ok-injective e) h

    -- After at least one round of the main loop, whatever the calls of the rounds gave, no drawing
    -- is due, and the last one showed the control keys, the messages and the rest of the state,
    -- and the size of the window, as they are; so it is where the loop has ended, unless by a
    -- goto.
    pub main_loop-IsShown :
        (main : Main) (winch : Bool) (calls : Calls) (rounds : List (Bool × Calls)) (last : After)
        → IsDrawn main
        → main_loop key_map key_ctrl_g key_commands send (next main) ((winch, calls) ∷ rounds)
          ≡ ok last
        → IsShown last
    unfolding main_loop round IsDrawn
    main_loop-IsShown main winch calls rounds last drawn e =
        let (step, made, found) =
          ok->>= (round key_map key_ctrl_g key_commands send (signal main winch) calls)
            (λ step. main_loop key_map key_ctrl_g key_commands send step rounds) last e in
        IsShown-main_loop step rounds last
          (after_select-IsShown (signal main winch) calls calls.select step drawn made) found
