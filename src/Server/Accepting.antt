-- ===== src/Server/Accepting.antt =====
-- What the server sends its workers (src/server.c, `loop_recv` and `main` of src/server_main.c).
use intellect_battle.Prelude.{
  ℕ, ◌≤◌, ◌≡◌, refl, ap, ◌∙◌, Bool, true, false, List, [], ◌∷◌, ◌++◌, map, ℤ, pos, negsuc,
  is_negative,
}
use intellect_battle.Packet.{Connection, msg_wrk}
use intellect_battle.Server.Process.{
  loaded, socket, queue, units, worker_handlers, room_handlers, Call, acquire, start_workers,
  start_rooms, Conf, Answers, null, room_tid, runs, after, launch, make_pools, make_queue,
  init_server, server_finalize,
}
use intellect_battle.Server.Loop.{
  Action, listens, prints, msgsnd, shutdown, no_accept, finalize, server_error_handler, accept_loop,
  loop_recv, synchronize, main, proceed, serving,
}
use intellect_battle.Server.Startup.{running, synchronize-ends}

-- The message that tells the workers of a connection.
abbrev pub connection : ℕ → Connection
connection s = record { type = msg_wrk; socket = s }

-- What the server does when it has accepted these connections before `accept` fails.
abbrev pub serve_all : Conf → List ℕ → List Action
serve_all conf sockets =
    listens 4 ∷ map (λ s. msgsnd (connection s)) sockets
    ++ (prints no_accept ∷ shutdown 1 (server_finalize conf) ∷ [])

accept_loop-each :
    (conf : Conf) (sockets : List ℕ) (err : ℕ) (later : List ℤ)
    → accept_loop conf (map pos sockets ++ negsuc err ∷ later)
      ≡ map (λ s. msgsnd (connection s)) sockets
        ++ (prints no_accept ∷ shutdown 1 (server_finalize conf) ∷ [])
unfolding accept_loop finalize server_error_handler
accept_loop-each conf [] err later = refl
accept_loop-each conf (s ∷ sockets) err later =
    ap (λ rest. msgsnd (connection s) ∷ rest) (accept_loop-each conf sockets err later)

pub loop_recv-serve_all :
    (conf : Conf) (sockets : List ℕ) (err : ℕ) (later : List ℤ)
    → loop_recv conf (map pos sockets ++ negsuc err ∷ later) ≡ serve_all conf sockets
unfolding loop_recv
loop_recv-serve_all conf sockets err later =
    ap (λ rest. listens 4 ∷ rest) (accept_loop-each conf sockets err later)

-- The configuration of a server with one worker and one room that has come up.
abbrev pub up : Conf
up = record {
  workers = record { tid = room_tid; size = 1 };
  rooms = record { tid = null; size = 0 };
}

-- The calls of a start that has come up.
abbrev pub coming_up : List Call
coming_up =
    acquire socket
    ∷ acquire queue
    ∷ acquire units
    ∷ acquire worker_handlers
    ∷ acquire room_handlers
    ∷ start_workers 1
    ∷ start_rooms 1
    ∷ []

-- Every call of the start succeeds.
pub record IsUp (env : Answers) : Type 0 where
  pub has_socket : is_negative env.socket_fd ≡ false
  pub has_port : is_negative env.bound ≡ false
  pub has_queue : is_negative env.msgqid ≡ false
  pub has_units : env.units_load ≡ loaded
  pub has_workers : env.workers_malloc ≡ true
  pub has_rooms : env.rooms_malloc ≡ true

init_server-up : (env : Answers) → IsUp env → init_server env 1 1 ≡ runs up coming_up
unfolding init_server make_queue make_pools launch after
init_server-up env ok =
    rw (ok.has_socket, ok.has_port, ok.has_queue, ok.has_units, ok.has_workers, ok.has_rooms) refl

-- A server with one worker and one room whose calls at the start succeed comes to accept connections
-- once two looks at `sync` have found a thread that runs. It tells the workers of every connection that it accepts, once each and in the order of acceptance. When `accept`
-- fails, it reports that, accepts nothing more and shuts down with code 1.
pub main-serves :
    (env : Answers) (polls : List Bool) (sockets : List ℕ) (err : ℕ) (later : List ℤ)
    → IsUp env
    → 2 ≤ running polls
    → main env polls (map pos sockets ++ negsuc err ∷ later)
      ≡ serving coming_up (serve_all up sockets)
unfolding main proceed
main-serves env polls sockets err later ok enough =
    let (left, ends, count) = synchronize-ends 1 1 polls enough in
    let accepts = map pos sockets ++ negsuc err ∷ later in
    ap (λ started. proceed started (synchronize 1 1 polls) accepts) (init_server-up env ok)
    ∙ ap (λ o. proceed (runs up coming_up) o accepts) ends
    ∙ ap (serving coming_up) (loop_recv-serve_all up sockets err later)
