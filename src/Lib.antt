-- ===== src/Lib.antt =====
-- vjft: the terminal client (term/), a message editor with undo over a list of messages, and the chat
-- in C++ (srv/), a room that relays encrypted packs between clients.
--
-- A key becomes an event (term/main.c), `processEvents` (term/event.c) takes the events one by one
-- and calls the command behind each on the current node of the message list (term/msg.c). A command
-- edits the node's UTF-8 text (term/utf8.c), moves its cursor or its marker, and returns an action,
-- which goes onto the undo stack. The main loop waits for keys and for the socket, sends what the
-- commands have queued, and draws. In srv/ a client enciphers a message for each recipient and writes
-- it in a frame; the server hands each frame to all participants of the room and keeps the last ones
-- for those who come later; each client tries its keys on what it reads.
--
-- Which file models what:
--   Utf8      term/utf8.c: the walks over bytes. Utf8/Chars has their specification, a text as a list
--             of characters; Utf8/Walk relates the two.
--   Hex       `int_to_hex` and `hex_to_int` of term/event.c.
--   Msg       term/msg.c. World: the types of term/event.h and the globals.
--   Action    the action stacks and `mngAct`. Edit: the functions `upd_*`. Command: the functions
--             `cmd_*` on a node. Undo: `cmd_enter`, `cmd_connect`, `cmd_undo`, `cmd_redo` and the table
--             of complementary commands. All of these are term/event.c.
--   Key       term/key.c. Process: the event queue and `processEvents` of term/event.c.
--             Process/Editing has the abstract editor and the refinement.
--   Keyboard  term/ctrlstk.c and `matchesCombo`, `findCommandByKey` and `keyb` of term/main.c.
--   Buffer    term/history.c and term/mbuf.c: the buffers that the status line is built in.
--   Terminal  term/kbd.c: the reader of the bytes of one key.
--   Display   term/iface.c: `calc_display_size`, and `utf8_decode` of term/utf8.c.
--   Screen    term/iface.c: `front_buffer` and `back_buffer`, what is drawn into them, and
--             `render_screen`, whose output is the numbers that its escape sequences are made from.
--   Wrapped   term/iface.c: `display_wrapped`, `display_message`, `display_message_with_frame`.
--   Crypt     term/crypt.c: the calls of OpenSSL with their guards, and `split_buffer`. Crypt/Envelope
--             has `encipher` and `decipher`, Crypt/Working what they rely on of OpenSSL. The rest of
--             the program does not call them yet.
--   Outgoing  term/main.c: the linked queue of messages and the loop that sends them. Outgoing/Links
--             says which list of messages the nodes stand for, Outgoing/Refinement and
--             Outgoing/Sending relate and bound the loops.
--   MainLoop  term/main.c: the loop of `main` over the results of the calls that it makes, with `keyb`
--             of Keyboard and `processEvents` of Process. Its queue is the list of messages that
--             Outgoing/Refinement shows the nodes to stand for.
--   ServerCrypt  srv/Crypt.cpp and `split_vec` of srv/Utils.cpp, with the OpenSSL of Crypt.
--   Room      srv/ChatRoom.cpp and srv/PersonInRoom.cpp: the room and its participants.
--   ChatClient  srv/Client.cpp: the client. ChatClient/Delivery follows a message from a client
--             through the room to another one.
-- Names keep those of the code, in snake_case.
--
-- A C string is the list of its bytes without the zero; `byte_at` reads that zero and no further, and
-- a read beyond it is `fault`, as is a null pointer that is followed; `exit(EXIT_FAILURE)` is `exit`.
-- An `int` that the code keeps in range is an integer; where the code works on its 32 bits (Hex) they
-- are written out. `size_t` has 64 bits, and an `int` compared with one is converted. Memory is not
-- exhausted. Loops are recursions on what is left to walk; where a loop takes rounds as fuel, its
-- comment says why they are enough, and the theorems about it give the result.
-- Behaviour that C leaves undefined is `fault` too: `strcpy` of overlapping bytes in `cmd_uninsert`, and
-- the copy through the old pointer behind `realloc` in `cmd_backspace`.
-- In srv/ the handlers run one at a time; what boost reads and writes comes back as a call of a handler,
-- an exception that is not caught is `exit`, and an access behind the end of a vector is `fault`.
-- In the loops that send, the rounds are fuel: one round for each message and one more, and more
-- rounds for a message than it has bytes, are enough where `send` takes some bytes or fails.
-- Not modelled: the layout of the screen by `reDraw` of term/main.c, the start and the cleanup of
-- `main`, the clipboard of term/event.c, the threads (the mutexes are held throughout, so a run is
-- one sequence of steps), the test server and the test driver, the lists of srv/Message.cpp, and the
-- interface in C++ (App.cpp), which draws with a library.
pub mod Prelude
pub mod Utf8
pub mod Hex
pub mod Msg
pub mod World
pub mod Action
pub mod Edit
pub mod Command
pub mod Undo
pub mod Key
pub mod Outgoing
pub mod MainLoop
pub mod ServerCrypt
pub mod Room
pub mod ChatClient
pub mod Process
pub mod Crypt
pub mod Buffer
pub mod Keyboard
pub mod Display
pub mod Screen
pub mod Wrapped
pub mod Terminal
mod Tests
