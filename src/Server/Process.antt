-- ===== src/Server/Process.antt =====
-- `init_server` and `server_finalize` of src/server.c (include/server.h), as the calls they make. What the
-- calls answer is an argument. The signal masks and the addresses are left out; Loop has the wait
-- until the threads run.
use intellect_battle.Prelude.{ℕ, Bool, List, [], ◌∷◌, ◌++◌, ℤ, is_negative, if◌then◌else◌}

abbrev pub error_msg_queue : ℕ
error_msg_queue = 1

abbrev pub error_out_of_memory : ℕ
error_out_of_memory = 2

abbrev pub error_init_units : ℕ
error_init_units = 3

abbrev pub error_init_socket : ℕ
error_init_socket = 4

abbrev pub error_bind_socket : ℕ
error_bind_socket = 5

-- What the process holds: its socket, the message queue, the deque of units, the two arrays of
-- thread ids, and what a failed load of the units has left behind.
pub data Resource : Type 0 where
  socket queue units worker_handlers room_handlers unit_remains : Resource

-- The result of `unit_deque_init`: a deque, or NULL, because of the first `calloc` (line 19 of src/unit.c) or
-- of a later one (line 93), which leaves the open file and directory behind, and nodes.
pub data UnitsLoad : Type 0 where
  loaded first_failed later_failed : UnitsLoad

-- A pointer to thread ids, with the null pointer of the zeroed `Server`.
pub data Tid : Type 0 where
  null worker_tid room_tid : Tid

-- The calls. `join` waits for the threads of a pool: `join tid size`.
pub data Call : Type 0 where
  acquire release : Resource → Call
  report : (error : ℕ) → Call
  start_workers start_rooms : (size : ℕ) → Call
  join : Tid → (size : ℕ) → Call

-- `struct pool` and the two pools of `struct server_conf`.
pub record Pool : Type 0 where
  pub tid : Tid
  pub size : ℕ

pub record Conf : Type 0 where
  pub workers : Pool
  pub rooms : Pool

-- What the system answers.
pub record Answers : Type 0 where
  pub socket_fd : ℤ
  pub bound : ℤ
  pub msgqid : ℤ
  pub units_load : UnitsLoad
  pub workers_malloc : Bool
  pub rooms_malloc : Bool

-- The end of the start: `exit` with a code, or a server that runs. Both with the calls in order.
pub data Started : Type 0 where
  exits : (code : ℕ) → List Call → Started
  runs : Conf → List Call → Started

-- Calls that were made before.
unfoldable pub after : List Call → Started → Started
after calls (exits code more) = exits code (calls ++ more)
after calls (runs conf more) = runs conf (calls ++ more)

-- `Server` before the start: a static object of zeros.
abbrev pub zeroed : Conf
zeroed = record {
  workers = record { tid = null; size = 0 };
  rooms = record { tid = null; size = 0 };
}

-- Lines 108 to 127: both arrays are there. Lines 108 and 109 assign to `workers` again.
unfoldable pub launch : (wnum rnum : ℕ) → Conf → Started
launch wnum rnum conf =
    runs (record conf { workers = record { tid = room_tid; size = rnum } })
      (start_workers wnum ∷ start_rooms rnum ∷ [])

-- Lines 88 to 109.
unfoldable pub make_pools : Answers → (wnum rnum : ℕ) → Conf → Started
unfolding launch after
make_pools env wnum rnum conf =
    if env.workers_malloc
    then after (acquire worker_handlers ∷ []) (
        let conf' = record conf { workers = record { tid = worker_tid; size = wnum } } in
        if env.rooms_malloc
        then after (acquire room_handlers ∷ []) (launch wnum rnum conf')
        else exits 2 (
            report error_out_of_memory
            ∷ release socket
            ∷ release queue
            ∷ release units
            ∷ release worker_handlers
            ∷ []))
    else exits 2 (report error_out_of_memory ∷ release socket ∷ release queue ∷ release units ∷ [])

-- Lines 65 to 85.
unfoldable pub make_queue : Answers → (wnum rnum : ℕ) → Conf → Started
unfolding make_pools after
make_queue env wnum rnum conf =
    if is_negative env.msgqid
    then exits 1 (report error_msg_queue ∷ release socket ∷ [])
    else after (acquire queue ∷ []) (elim env.units_load [
      | loaded ↦ after (acquire units ∷ []) (make_pools env wnum rnum conf)
      | first_failed ↦ exits 4 (report error_init_units ∷ release socket ∷ release queue ∷ [])
      | later_failed ↦
          exits 4
            (acquire unit_remains ∷ report error_init_units ∷ release socket ∷ release queue ∷ [])
    ])

-- `init_server`
unfoldable pub init_server : Answers → (wnum rnum : ℕ) → Started
unfolding make_queue after
init_server env wnum rnum =
    if is_negative env.socket_fd
    then exits 4 (report error_init_socket ∷ [])
    else after (acquire socket ∷ []) (
        if is_negative env.bound
        then exits 5 (report error_bind_socket ∷ release socket ∷ [])
        else make_queue env wnum rnum zeroed)

-- `free` of an array of thread ids.
unfoldable pub free : Tid → List Call
free null = []
free worker_tid = release worker_handlers ∷ []
free room_tid = release room_handlers ∷ []

-- `server_finalize`, which ends with `exit(1)`.
unfoldable pub server_finalize : Conf → List Call
unfolding free
server_finalize conf =
    (release socket
      ∷ release queue
      ∷ join conf.workers.tid conf.workers.size
      ∷ join conf.rooms.tid conf.rooms.size
      ∷ [])
    ++ free conf.workers.tid
    ++ free conf.rooms.tid
    ++ (release units ∷ [])
