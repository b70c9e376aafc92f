-- ===== src/MainLoop.antt =====
-- term/main.c: the main loop, over the results of the calls that a round makes: `select`, the read of a
-- key, `read` of the socket and `ioctl` for the size of the window. FD_ISSET gives a Boolean also for the
-- descriptor -1. The tables of keys, `send` and the bounds of Outgoing are arguments.
pub mod Rounds
pub mod Reasons
pub mod Ends
pub mod Delivery
use vjft.Prelude.{ℕ, zero, suc, List, [], ◌∷◌, ◌++◌, Bool, true, false, if◌then◌else◌, ◌||◌}
use vjft.Prelude.{Option, none, some, Run, ok, exit, fault, ◌>>=◌, length, join}
use vjft.Msg.{push_message}
use vjft.World.{InputEvent, World}
use vjft.Key.{KeyEntry}
use vjft.Keyboard.{KeyMap, Keyboard, c_string, keyb}
use vjft.Process.{process_events}
use vjft.Outgoing.{Send, Wire, send_pending}

-- `win_rows` and `win_cols`
pub record Window : Type 0 where
  pub rows : ℕ
  pub cols : ℕ

-- What a call of `read` of the socket gives: `nread` bytes, 0 or -1.
pub data NetRead : Type 0 where
  received : List ℕ → NetRead
  closed broken : NetRead

-- A result of `select`: -1 with EINTR or with another error, 0, or more, with the results of FD_ISSET for
-- the terminal, for reading the socket and for writing it.
pub data Select : Type 0 where
  interrupted failed timed_out : Select
  ready : Bool → Bool → Bool → Select

-- What the calls of a round give, if it makes them.
pub record Calls : Type 0 where
  pub select : Select
  pub key : Option (List ℕ)
  pub net : NetRead
  pub size : Option Window

-- The variables of the loop. `drawn` is what the last call of `reDraw` was given.
pub record Main : Type 0 where
  pub ctrl_stack : List ℕ
  pub input_events : List InputEvent
  pub world : World
  pub window : Window
  pub wire : Wire
  pub need_redraw : Bool
  pub sig_winch_raised : Bool
  pub terminate : Bool
  pub drawn : Option (List ℕ × World × Window)

-- What a round leads to: the next call of `select`, the end of the loop, a `goto exit` with the code, or
-- a loop over `send` that did not end within the bounds.
pub data After : Type 0 where
  next : Main → After
  ended : Main → After
  goto_exit : ℕ → Main → After
  unfinished : After

abbrev pub exit_connection_closed : ℕ
exit_connection_closed = 2

abbrev pub exit_socket_failed : ℕ
exit_socket_failed = 3

abbrev pub exit_select_no_sigwinch : ℕ
exit_select_no_sigwinch = 4

-- What `reDraw` shows: all but the messages to be sent.
abbrev pub visible : Main → List ℕ × World × Window
visible main = (main.ctrl_stack, record main.world { outgoing_queue = [] }, main.window)

unfoldable pub redraw : Main → Main
redraw main = elim main.need_redraw [
  | false ↦ main
  | true ↦ record main { need_redraw = false; drawn = some (visible main) }
]

-- The end of a round without `goto`: `terminate` is tested behind a `select` without an error.
unfoldable pub finish_round : Main → After
unfolding redraw
finish_round main = elim main.terminate [ false ↦ next (redraw main) | true ↦ ended (redraw main) ]

-- `upd_win_size`
unfoldable pub upd_win_size : Main → Option Window → Main
upd_win_size main none = main
upd_win_size main (some size) = record main { window = size }

-- `handle_winch`, if the signal came
abbrev pub signal : Main → Bool → Main
signal main winch = record main { sig_winch_raised = main.sig_winch_raised || winch }

abbrev pub resized : Main → Option Window → Main
unfolding upd_win_size
resized main size = record (upd_win_size main size) { need_redraw = true; sig_winch_raised = false }

unfoldable pub interrupt : Main → Option Window → After
unfolding upd_win_size redraw
interrupt main size = elim main.sig_winch_raised [
  | false ↦ goto_exit exit_select_no_sigwinch main
  | true ↦ next (redraw (resized main size))
]

-- NETWORK, for reading: the message up to its first zero byte, or the code of `goto exit`.
unfoldable pub socket_readable : Main → NetRead → Main × Option ℕ
unfolding push_message c_string
socket_readable main (received buffer) = (
  record main {
    world = record main.world { msg_list = push_message main.world.msg_list (c_string buffer) };
    need_redraw = true;
  },
  none,
)
socket_readable main closed = (main, some exit_connection_closed)
socket_readable main broken = (main, some exit_socket_failed)

-- What the loop over the queue leaves.
abbrev pub sent : Main → List (List ℕ) → Wire → Bool → Main
sent main rest wire terminate = record main {
  world = record main.world { outgoing_queue = rest };
  wire = wire;
  terminate = terminate;
}

module _ (send : Send) where
  unfoldable pub socket_writable : Main → Option Main
  unfolding send_pending
  socket_writable main =
      let pending = main.world.outgoing_queue in
      elim (send_pending send (suc (length pending)) (suc (length (join pending))) main.terminate
        pending main.wire) [
          | none ↦ none
          | some (rest, wire, terminate) ↦ some (sent main rest wire terminate)
        ]

  -- The part of a round behind the read of the socket.
  unfoldable pub write_ready : Main → Bool → After
  unfolding socket_writable finish_round
  write_ready main false = finish_round main
  write_ready main true = elim (socket_writable main) [
    | none ↦ unfinished
    | some main' ↦ finish_round main'
  ]

  unfoldable pub network_ready : Main → Bool → Bool → NetRead → After
  unfolding socket_readable write_ready
  network_ready main false writable net = write_ready main writable
  network_ready main true writable net =
      let (main', code) = socket_readable main net in
      elim code [ none ↦ write_ready main' writable | some code ↦ goto_exit code main' ]

-- What `keyb` and `processEvents` leave.
abbrev pub processed : Main → List ℕ → World → Bool → Main
processed main ctrl_stack world terminate = record main {
  ctrl_stack = ctrl_stack;
  input_events = [];
  world = world;
  need_redraw = true;
  terminate = terminate;
}

module _ (key_map : List KeyEntry) (key_ctrl_g : ℕ) (key_commands : List KeyMap) where
  -- `keyb` on the globals that it changes.
  abbrev pub press_key : Main → Option (List ℕ) → Keyboard × Bool
  unfolding keyb
  press_key main key =
      keyb key_map key_ctrl_g key_commands
        (record {
          ctrl_stack = main.ctrl_stack;
          input_events = main.input_events;
          msg_list = main.world.msg_list;
        })
        key

  -- KEYBOARD: `keyb` gives `terminate`, and the events are processed.
  unfoldable pub keyboard_ready : Main → Option (List ℕ) → Run Main
  unfolding process_events
  keyboard_ready main key =
      let (kb, terminate) = press_key main key in
      process_events key_map kb.input_events (record main.world { msg_list = kb.msg_list }) false
      >>= λ step. ok (processed main kb.ctrl_stack step.0 terminate)

  module _ (send : Send) where
    -- What follows `select`.
    unfoldable pub after_select : Main → Calls → Select → Run After
    unfolding interrupt finish_round keyboard_ready network_ready
    after_select main calls interrupted = ok (interrupt main calls.size)
    after_select main calls failed = exit
    after_select main calls timed_out = ok (finish_round main)
    after_select main calls (ready false readable writable) =
        ok (network_ready send main readable writable calls.net)
    after_select main calls (ready true readable writable) =
        keyboard_ready main calls.key >>= λ main'.
        ok (network_ready send main' readable writable calls.net)

    -- A round of the loop.
    unfoldable pub round : Main → Calls → Run After
    unfolding after_select
    round main calls = after_select main calls calls.select

    -- The rounds of the loop, with whether the signal of a new window size came before each.
    unfoldable pub main_loop : After → List (Bool × Calls) → Run After
    unfolding round
    main_loop (next main) [] = ok (next main)
    main_loop (next main) ((winch, calls) ∷ rounds) =
        round (signal main winch) calls >>= λ after. main_loop after rounds
    main_loop (ended main) rounds = ok (ended main)
    main_loop (goto_exit code main) rounds = ok (goto_exit code main)
    main_loop unfinished rounds = ok unfinished

-- What `main` returns.
unfoldable pub exit_code : After → Option ℕ
exit_code (next main) = none
exit_code (ended main) = some 0
exit_code (goto_exit code main) = some code
exit_code unfinished = none
