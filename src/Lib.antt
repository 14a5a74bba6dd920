-- ===== src/Lib.antt =====
-- Verification of Intellect Battle, a quiz game over TCP: a server whose worker and room threads
-- pass messages through a System V queue, and an ncurses client. The theorems are about these
-- parts of the C sources.
--
-- The parts and their files:
-- - Packet (include/packet.h, include/const.h, include/player.h, include/msg_struct.h): constants
--   and queue messages. Packet/SPack and Packet/CPack are the byte offsets of `spack_t` and
--   `cpack_t`, laid out as gcc does it on x86-64. The members of a union share their offsets.
-- - Memory: a packet is a function from offsets to bytes, with the effects of the libc calls that
--   the sources make on it (strcpy, strncpy, bzero, a store of an int). Memory/Laws, Memory/Text
--   and Memory/Buffers have their lemmas. A strcpy from an array without a NUL is `none`.
-- - Units (src/unit.c, include/unit.h): the heap of question units that a room walks. Units/Lines
--   is the reading of a line with `fgets`, Units/Parse that of a unit, of a file and of the
--   directory, with what becomes of a unit as a parameter, Units/Load the nodes and the ring of
--   `unit_deque_init`, and Units/Free `unit_deque_free`. Listing is the specification: the same
--   reading into a list. Alike, Linking, Deque, Closing and Refinement compare the heap with the
--   list, Cards, RoundTrip and Decks are about files that were written from units, Proper,
--   Trailing, Fuel and Rings hold further theorems.
-- - Room (src/room.c, include/room.h): the thread `room_fsm`. Room/State has its variables and what
--   the environment answers, Room/Lobby the states INIT and WAIT, Room/Game the state GAME,
--   Room/Machine the states GAMEOVER and FIN, the switch and the loop. Rules tells a round and a
--   whole game player by player, as the code plays them. Safety, Announcements, Loops, Scoring,
--   Survivor, Ending, Overflow, Packets, Greeting and Buffer hold theorems on rounds; Opening,
--   Course, WholeGame and Evening take a game from the lobby to its end.
-- - Worker (src/worker.c, include/worker.h): the thread `worker_fsm`. Worker/Machine is the code;
--   Livelock, Service and Visits hold the theorems.
-- - Network: the server's threads on their message queue (msgsnd and msgrcv of src/server.c,
--   src/worker.c, src/room.c; include/msg_struct.h). Network/Queue is the interface of the queue,
--   with the promises of the manual page, and Network/Fifo a list that keeps them. Network/Steps has
--   the threads' common state, a step of any one of them, and what can be reached by steps. Workers,
--   Safety, Kinds and Games hold the theorems.
-- - Client (src/client_logic.c, src/client.c, include/client_logic.h, include/client_ui.h):
--   Client/Logic has the functions of client_logic.c, Client/Menu the menus, Client/Errors the
--   error window, Client/Play `game_loop`, Client/Retry the loops that try again after a failure,
--   Client/Waiting the waiting room, Client/Main `main`. Phases and Sessions are about whole runs.
--   Client/Windows is where the windows stand, Client/Drawing the list of players, a chosen answer
--   and the progress bar, Client/Texts the question and its answers. Reception, Requests, Choices,
--   Rounds, Verdict, Clicks and Seats hold the theorems.
-- - Server (src/server.c, include/server.h): Server/Process has `init_server` and
--   `server_finalize` as the calls they make, Server/Loop the wait for the threads, `loop_recv`,
--   the handlers and the `main` of src/server_main.c. Release, Startup and Accepting hold the
--   theorems.
-- - System: theorems across parts. A request goes from the client over the worker to the rooms
--   (Joining, Playing), an answer from the client to the room (Answering), a connection from the
--   accept loop to the worker (Serving), and the questions from the files to the rooms and back to
--   the free heap (Questions, Freeing). Service and Tournaments put the loaded questions, the requests
--   of the clients and the threads on their queue together.
-- - Prelude: the names and lemmas that all parts share. Each part has its witnesses in test
--   modules.
--
-- How code becomes definitions. Each thread's local variables are a record, each `case` of its
-- switch a function on it, and a round of its `while` is `step`. What the kernel answers in a
-- round (msgrcv, send, recv, rand) is an argument `Input`, and the calls made are a list of
-- `Event`s. A computation of type `Option` is `none` where the C standard gives no result: a write
-- past an array, a read through a null pointer, a strcpy without a NUL. A `char` or `unsigned
-- char` is held as its byte, and `signed` reads it; sums on it are taken modulo 256. The game
-- window and the menus are functions of the list of the user's clicks.
--
-- Bounds and fuel. A run is a list of inputs, one for each round of the loop, so it needs no fuel:
-- a theorem on all lists is a theorem on all finite runs. Loops over players and the walk along
-- the units recurse on their counts. Fuel is taken by `get_behaviour` for its visits to the menu,
-- where each visit uses up a key, so that more fuel than keys is given; by `unit_deque_free` for the
-- nodes, where the number of the nodes is enough; by `read_units` for the units of a file, where
-- each round but the last uses up a character, so that the file's length and two more are enough;
-- and by `retry` and `gather` of the client, where each round but the last uses up an attempt or a
-- reception.
--
-- A step of Network is an accepted connection or a whole round of one thread's loop: a round asks the
-- queue at most once, and apart from the queue the threads share only the units, which none of them
-- writes. The shutdown after a failed `accept` ends such a run; it is in Server/Loop.
--
-- Not modelled: boxes, fixed texts, signal masks, addresses and ports, a full queue, the sizes that
-- are passed to msgsnd and msgrcv, and packets that arrive in several pieces. The progress thread
-- is modelled as its loop, not as a thread. The theorems on a single room or worker let it get
-- whatever the queue and the network may give it. The directory is a list of names with the
-- contents of the files, and `calloc` is a function from the number of the call to an address. The
-- array `input` of `unit_deque_init` is local to a round of its loop and never set before it is
-- read: what a round finds in it is an argument (`fresh`). The answer that `game_loop` colours in a
-- pass is recorded by its number; what `highlight_selected` prints there, with its undefined
-- formats, is a definition of its own (Client/Drawing). Where the printing of the players or of the
-- first question has no defined result, `game_loop` has none. A `recv` of the theorems on the whole
-- server fails, meets a closed peer or delivers a whole request of this client; other clients,
-- whose sizes no part of the server checks, are the subject of Room/Overflow and Worker/Livelock.
pub mod Prelude
pub mod Memory
pub mod Packet
pub mod Units
pub mod Room
pub mod Worker
pub mod Client
pub mod Network
pub mod System
pub mod Server
