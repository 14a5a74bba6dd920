-- ===== src/Server/Loop.antt =====
-- The server at work (src/server.c, include/server.h): `loop_recv`, which turns each accepted
-- connection into a message for the workers, `server_error_handler`, `signal_handler`, the wait for
-- the threads at the end of `init_server`, and the `main` of src/server_main.c. What `accept`
-- answers is an argument. The result of `msgsnd` is not looked at by the source.
use intellect_battle.Prelude.{
  ℕ, zero, suc, Bool, true, false, Option, none, some, List, [], ◌∷◌, ℤ, pos, negsuc, ◌>>=◌, ◌==◌,
  if◌then◌else◌,
}
use intellect_battle.Packet.{Connection, msg_wrk}
use intellect_battle.Server.Process.{
  Call, Conf, Answers, Started, exits, runs, init_server, server_finalize, error_msg_queue,
  error_out_of_memory, error_init_units, error_init_socket, error_bind_socket,
}

abbrev pub error_accept : ℕ
error_accept = 7

-- The length of the queue of `listen` (`USER_QUEUE_SIZE`).
abbrev pub user_queue_size : ℕ
user_queue_size = 4

-- The texts of `server_error_handler`.
pub data Text : Type 0 where
  no_message_queue out_of_memory no_unit no_socket no_bind no_accept unknown_error : Text

-- `server_error_handler`: the text that is printed, and the result.
unfoldable pub server_error_handler : (error_code : ℕ) → Text × ℕ
server_error_handler error_code =
    if error_code == error_msg_queue
    then (no_message_queue, 0)
    else if error_code == error_out_of_memory
    then (out_of_memory, 0)
    else if error_code == error_init_units
    then (no_unit, 0)
    else if error_code == error_init_socket
    then (no_socket, 0)
    else if error_code == error_bind_socket
    then (no_bind, 0)
    else if error_code == error_accept
    then (no_accept, 0)
    else (unknown_error, 0)

-- What the server does after its start. `shutdown` ends the process with a code.
pub data Action : Type 0 where
  listens : (backlog : ℕ) → Action
  prints : Text → Action
  msgsnd : Connection → Action
  shutdown : (code : ℕ) → List Call → Action

-- `server_finalize`, which leaves with `exit(1)`.
unfoldable pub finalize : Conf → Action
unfolding server_finalize
finalize conf = shutdown 1 (server_finalize conf)

-- The loop of `loop_recv` (lines 172 to 184), one round for each answer of `accept`. After the last
-- answer it waits in `accept`.
unfoldable pub accept_loop : Conf → List ℤ → List Action
unfolding finalize server_error_handler
accept_loop conf [] = []
accept_loop conf (negsuc err ∷ later) =
    prints (server_error_handler error_accept).0 ∷ finalize conf ∷ []
accept_loop conf (pos cl_sock ∷ later) =
    msgsnd (record { type = msg_wrk; socket = cl_sock }) ∷ accept_loop conf later

-- `loop_recv`
unfoldable pub loop_recv : Conf → List ℤ → List Action
loop_recv conf accepts = listens user_queue_size ∷ accept_loop conf accepts

-- `signal_handler`. `server_finalize` does not return, so its own `exit(0)` is not reached.
unfoldable pub signal_handler : Conf → Action
unfolding finalize
signal_handler conf = finalize conf

-- One of the two loops at the end of `init_server` (lines 132 to 147), which goes through the threads
-- of a pool. `polls` are the values of `sync == SYNC_ON` that it reads; it returns those that are
-- left, or `none` if it still sleeps.
unfoldable pub await : (missing : ℕ) → (polls : List Bool) → Option (List Bool)
await zero polls = some polls
await (suc missing) [] = none
await (suc missing) (true ∷ polls) = await missing polls
await (suc missing) (false ∷ polls) = await (suc missing) polls

unfoldable pub synchronize : (wnum rnum : ℕ) → (polls : List Bool) → Option (List Bool)
unfolding await
synchronize wnum rnum polls = await wnum polls >>= λ polls'. await rnum polls'

abbrev pub wnum : ℕ
wnum = 1

abbrev pub rnum : ℕ
rnum = 1

-- What a process does: it ends in its start with a code, sleeps until the threads run, or serves.
pub data Served : Type 0 where
  failed : (code : ℕ) → List Call → Served
  sleeping : List Call → Served
  serving : List Call → List Action → Served

-- What follows a start: a process that has exited does nothing more.
unfoldable pub proceed : Started → (synchronized : Option (List Bool)) → (accepts : List ℤ) → Served
proceed (exits code calls) synchronized accepts = failed code calls
proceed (runs conf calls) none accepts = sleeping calls
proceed (runs conf calls) (some left) accepts = serving calls (loop_recv conf accepts)

-- `main`
unfoldable pub main : Answers → (polls : List Bool) → (accepts : List ℤ) → Served
main env polls accepts = proceed (init_server env wnum rnum) (synchronize wnum rnum polls) accepts
