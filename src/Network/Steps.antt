-- ===== src/Network/Steps.antt =====
-- The state of the server's threads, and a step of one of them. The threads share the queue and read the units;
-- a round of a thread's loop asks the queue at most once, so the rounds are the steps.
use intellect_battle.Prelude.{ℕ, ◌<◌, ◌≡◌, Option, none, some, List, [], ◌∷◌, ℤ}
use intellect_battle.Packet.{msg_wrk, msg_room, msg_join}
use intellect_battle.Units.{Heap}
use intellect_battle.Room.State.{Room, assign}
use intellect_battle.Room.State as RoomState
use intellect_battle.Room.Machine as RoomThread
use intellect_battle.Worker.Machine.{Worker, Event}
use intellect_battle.Worker.Machine as WorkerThread
use intellect_battle.Network.Queue.{Message, connection, join, Kernel}

-- What a room asks the queue for (lines 48 and 88 of src/room.c).
abbrev pub room_asks : RoomState.State → Option ℤ
room_asks RoomState.init = some msg_room
room_asks RoomState.wait = some msg_join
room_asks _ = none

-- What a worker asks the queue for (line 39 of src/worker.c).
abbrev pub worker_asks : WorkerThread.State → Option ℤ
worker_asks WorkerThread.wait = some msg_wrk
worker_asks _ = none

module _ {Q : Type 0} (kernel : Kernel Q) where
  -- What becomes of the queue when a thread asks for messages of a type, or for none, and gets an
  -- answer: a message as the struct `A` that the thread expects, or a failure.
  abbrev pub Receipt : {A : Type 0} → (A → Message) → Q → Option ℤ → Option A → Q → Type 0
  Receipt as_message q none none q' = q' ≡ q
  Receipt as_message q none (some a) q' = ⊥
  Receipt as_message q (some t) none q' = q' ≡ q
  Receipt as_message q (some t) (some a) q' = kernel.msgrcv q t ≡ some (as_message a, q')

  -- The calls of `msgsnd` of a worker's round.
  unfoldable pub post : Q → List Event → Q
  post q [] = q
  post q (Event.msgsnd msg ∷ es) = post (kernel.msgsnd q (join msg)) es
  post q (Event.report what ∷ es) = post q es

-- The threads by their indices in `workers[]` and `rooms[]` of `init_server`.
pub record System (Q : Type 0) : Type 0 where
  pub queue : Q
  pub workers : ℕ → Worker
  pub rooms : ℕ → Room

-- `Peer` says what a `recv` of a worker may deliver, `heap` holds the units, `wnum` and `rnum` are the
-- numbers of threads.
module _ {Q : Type 0} (kernel : Kernel Q) (Peer : Option (List ℕ) → Type 0) (heap : Heap)
    (wnum rnum : ℕ) where
  pub data Step (s : System Q) : System Q → Type 0 where
    -- `loop_recv` has accepted a connection.
    accept :
        (socket : ℕ)
        → Step s (record s {
          queue = kernel.msgsnd s.queue (connection (record { type = msg_wrk; socket = socket }));
        })
    -- A round of a worker.
    work :
        (i : ℕ) (io : WorkerThread.Input) (q : Q)
        → i < wnum
        → Receipt kernel connection s.queue (worker_asks (s.workers i).state) io.msgrcv q
        → Peer io.recv
        → Step s (record s {
          queue = post kernel q (WorkerThread.step io (s.workers i)).1;
          workers = assign s.workers i (WorkerThread.step io (s.workers i)).0;
        })
    -- A round of a room.
    serve :
        (i : ℕ) (io : RoomState.Input) (q : Q) (r : Room) (es : List RoomState.Event)
        → i < rnum
        → Receipt kernel join s.queue (room_asks (s.rooms i).state) io.msgrcv q
        → RoomThread.step heap io (s.rooms i) ≡ some (r, es)
        → Step s (record s { queue = q; rooms = assign s.rooms i r })

  pub data Reach (s : System Q) : System Q → Type 0 where
    start : Reach s s
    later : {t u : System Q} → Reach s t → Step t u → Reach s u
