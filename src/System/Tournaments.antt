-- ===== src/System/Tournaments.antt =====
-- The games and the messages of the whole server (src/server.c, src/worker.c, src/room.c, src/unit.c) among
-- players who use the client of this repository.
use intellect_battle.Prelude.{ℕ, suc, ◌≡◌, refl, some, List, length, All, arith, ℤ}
use intellect_battle.Memory.{Mem}
use intellect_battle.Units.{Heap, Ptr}
use intellect_battle.Units.Parse.{Quiz, Entry, ok}
use intellect_battle.Units.Load.{unit_deque_init}
use intellect_battle.Units.Listing.{listing}
use intellect_battle.Units.Deque.{IsFresh}
use intellect_battle.Room.State.{Room, RoomInfo, Input, Event, wait, game}
use intellect_battle.Room.Machine.{step, room_fsm_start}
use intellect_battle.Room.Safety.{Inv, Ring}
use intellect_battle.Room.Rules.{IsWhole}
use intellect_battle.Room.Opening.{NewUpTo}
use intellect_battle.Room.Course.{Follows}
use intellect_battle.Room.Evening.{begun}
use intellect_battle.Worker.Machine as WorkerThread
use intellect_battle.Worker.Machine.{Worker}
use intellect_battle.Network.Queue.{Message, join, Kernel}
use intellect_battle.Network.Steps.{System, Reach, Receipt, room_asks}
use intellect_battle.Network.Safety.{IsSafe}
use intellect_battle.Network.Workers.{IsHarmless}
use intellect_battle.Network.Kinds.{Thread, asks_of, IsFor, threads_get-IsFor}
use intellect_battle.Network.Games.{IsOpened, Reach-IsOpened, serve-Follows}
use intellect_battle.System.Questions.{OfDeque, fresh_room, step-fresh_room}
use intellect_battle.System.Service.{
  FromClient, FromClient-IsProperPacket, started, started-IsSafe, loaded, reached-IsSafe,
}

started-IsOpened :
    {Q : Type 0} (On : Ptr → Type 0) (heap : Heap) (q : Q) (workers : ℕ → Worker) (info : RoomInfo)
    (p : Ptr) (raw : ℕ → Room)
    → On p
    → (i : ℕ) → IsOpened On heap ((started q workers info p raw).rooms i)
unfolding room_fsm_start
started-IsOpened On heap q workers info p raw on i =
    let v : Inv On (fresh_room p (raw i) 1) = ground (arith, on) in
    (
      fresh_room p (raw i) 1,
      v,
      (λ at. cc),
      refl,
      λ io. step-fresh_room heap io p (raw i) (raw i).quest_num 1,
    )

module _ {Q : Type 0} (kernel : Kernel Q) (calloc : ℕ → Ptr) (fresh : Mem → Mem) (input : Mem)
    (entries : List Entry) (h : Heap) (qs : List Quiz) (m : ℕ) (p : Ptr) (heap : Heap)
    (new : IsFresh calloc h) (lists : listing fresh input entries ≡ ok qs)
    (many : length qs ≡ suc m)
    (loads : unit_deque_init calloc fresh input (some entries) h ≡ ok (p, heap)) (wnum rnum : ℕ)
    (q : Q) (workers : ℕ → Worker) (info : RoomInfo) (raw : ℕ → Room)
    (empty : (msg : Message) → ¬ kernel.Holds q msg)
    (waiting : (i : ℕ)
      → ((workers i).state ≡ WorkerThread.wait)
        × IsHarmless (WorkerThread.read_req (workers i).pack))
    (t : System Q)
    (reached : Reach kernel FromClient heap wnum rnum (started q workers info p raw) t) where
  deque : (OfDeque calloc (suc m)) p × Ring (OfDeque calloc (suc m)) heap
  deque = loaded kernel calloc fresh input entries h qs m p heap new lists many loads

  safe : IsSafe kernel (OfDeque calloc (suc m)) heap t
  safe =
      reached-IsSafe kernel calloc fresh input entries h qs m p heap new lists many loads wnum rnum
        q workers info raw empty waiting t reached

  -- The server runs on a deque that `unit_deque_init` has loaded, with any numbers of workers and rooms and on
  -- any queue that keeps the promises of `msgsnd` and `msgrcv`; it was started with an empty queue and
  -- waiting workers, in whose buffers, which the source leaves unset, stood the request of nobody or one that
  -- a room can serve. All players use this client: a `recv` of a worker fails, meets a peer that has closed,
  -- as after EXIT, or delivers a request of a run of the client in full.
  -- Then, whatever rounds the threads have taken in whatever order, what a thread gets from the shared queue
  -- is meant for it: a room gets a request that it can serve, a worker a connection.
  pub service-IsFor :
      (who : Thread) (asks : ℤ) (msg : Message) (q' : Q)
      → asks_of t who ≡ some asks
      → kernel.msgrcv t.queue asks ≡ some (msg, q')
      → IsFor who msg
  service-IsFor who asks msg q' asked came =
      threads_get-IsFor kernel (OfDeque calloc (suc m)) heap t safe q' msg who asks asked came

  -- The server runs on a deque that `unit_deque_init` has loaded, with any numbers of workers and rooms and on
  -- any queue that keeps the promises of `msgsnd` and `msgrcv`; it was started with an empty queue and
  -- waiting workers, in whose buffers, which the source leaves unset, stood the request of nobody or one that
  -- a room can serve. All players use this client: a `recv` of a worker fails, meets a peer that has closed,
  -- as after EXIT, or delivers a request of a run of the client in full.
  -- Whatever rounds the threads have taken in whatever order, when the next round of a room leads from WAIT to
  -- GAME, its players have no points, except for those who were lost in the lobby. If from then on each `recv` of
  -- an answer fails or delivers the answer byte, the game takes the course that `game_course` tells player
  -- by player, with the numbers `rans` of loaded units, and is over within 16 rounds of the room.
  pub service-Follows :
      (i : ℕ) (io : Input) (q' : Q) (r : Room) (es : List Event) (ios : List Input)
      → Receipt kernel join t.queue (room_asks (t.rooms i).state) io.msgrcv q'
      → step heap io (t.rooms i) ≡ some (r, es)
      → (t.rooms i).state ≡ wait
      → r.state ≡ game
      → length ios ≡ 16
      → All (λ io. (id : ℕ) → IsWhole (io.recv id)) ios
      → NewUpTo r.room_size r
        × Follows (OfDeque calloc (suc m)) heap ios 0 r (λ j. begun (r.score j))
  service-Follows i io q' r es ios received acts waits plays count whole =
      serve-Follows kernel (OfDeque calloc (suc m)) heap deque.1 t safe opened i io q' received r es
        acts ios waits plays count whole
    where
      opened : (i : ℕ) → IsOpened (OfDeque calloc (suc m)) heap (t.rooms i)
      opened =
          Reach-IsOpened kernel (OfDeque calloc (suc m)) heap deque.1 FromClient wnum rnum
            FromClient-IsProperPacket
            (started-IsSafe kernel (OfDeque calloc (suc m)) heap q workers info p raw empty waiting
              deque.0)
            (started-IsOpened (OfDeque calloc (suc m)) heap q workers info p raw deque.0) reached
