-- ===== src/System/ServiceTests.antt =====
-- The server and one of its players, from the first connection to the room.
use intellect_battle.Prelude.{ℕ, ◌≡◌, refl, none, some, Option, List, [], ◌∷◌, map, inl, arith}
use intellect_battle.Memory.{Mem, bytes, put_bytes}
use intellect_battle.Packet.{JoinInfo, Connection, msg_wrk, msg_room}
use intellect_battle.Units.{Heap}
use intellect_battle.Units.Decks.{entry_of, units_of, listing-print}
use intellect_battle.Units.Load.{unit_deque_init}
use intellect_battle.Units.Parse.{ok}
use intellect_battle.Units.Trailing.{kept}
use intellect_battle.Units.FileTests.{deck, deck-IsDeck, nothing, counter, counter-IsFresh, zeros}
use intellect_battle.Units.Refinement.{unit_deque_init-IsRing}
use intellect_battle.Room.State.{RoomInfo, assign}
use intellect_battle.Room.Machine.{step, room_fsm_start}
use intellect_battle.Room.Tests.{empty_room, created}
use intellect_battle.Worker.Machine as WorkerThread
use intellect_battle.Client.Logic.{init, send_conf}
use intellect_battle.Client.Menu.{get_behaviour, request_for}
use intellect_battle.Client.Errors.{error_window}
use intellect_battle.Client.Retry.{retry}
use intellect_battle.Client.Waiting.{wait_room}
use intellect_battle.Client.Play.{packets}
use intellect_battle.Client.Main.{Sent, answer, main}
use intellect_battle.Network.Queue.{Message, connection, join}
use intellect_battle.Network.Workers.{IsHarmless}
use intellect_battle.Network.Fifo.{fifo}
use intellect_battle.Network.Steps.{System, Reach, start, later, accept, work, post}
use intellect_battle.System.Service.{FromClient, started}
use intellect_battle.System.Tournaments.{service-IsFor}
use intellect_battle.Network.Kinds.{asks_of, room, IsFor}
use intellect_battle.System.SessionTests.{idle, world}

abbrev pub info : RoomInfo
info = record { msgqid = 7; sync = 0; units = 0 }

-- The deck of two questions, loaded.
abbrev pub loaded :
    (heap : Heap) × (unit_deque_init counter kept zeros (some (map entry_of (deck ∷ []))) nothing
      ≡ ok (counter 1, heap))
loaded =
    let (heap, loads, ring) =
      unit_deque_init-IsRing counter kept zeros (map entry_of (deck ∷ [])) nothing
        (units_of (deck ∷ [])) 1 counter-IsFresh
        (listing-print kept (deck ∷ []) zeros (deck-IsDeck, tt)) refl in
    (heap, loads)

abbrev pub first_request : List Sent → Mem
first_request [] = λ i. 0
first_request (Sent.request m ∷ sent) = m
first_request (answer m ∷ sent) = first_request sent

-- Zed's request to join.
abbrev pub zed : List ℕ
zed = bytes (first_request (main world).0) 0 56

abbrev pub at_start : System (List Message)
at_start = started [] (λ i. idle) info (counter 1) (λ i. empty_room)

abbrev pub seventh : Connection
seventh = record { type = msg_wrk; socket = 7 }

pub from_zed : FromClient (some zed)
unfolding bytes main retry get_behaviour request_for send_conf error_window wait_room packets
from_zed = (world, b'Z' ∷ b'e' ∷ b'd' ∷ [], first_request (main world).0, refl, inl refl, refl)

abbrev pub asks : Option Connection → Option (List ℕ) → WorkerThread.Input
asks msgrcv recv = record { msgrcv = msgrcv; recv = recv }

abbrev pub Reached : System (List Message) → Type 0
Reached t = Reach fifo FromClient loaded.0 1 1 at_start t

abbrev fourth : Connection
fourth = record { type = msg_wrk; socket = 4 }

-- A client connects and leaves by EXIT: its worker receives no byte.
unfoldable left_at_once : (t : System (List Message)) × Reached t
unfolding assign WorkerThread.step post
left_at_once = (
  _,
  later
      (later
        (later (later start (accept 4)) (work 0 (asks (some fourth) none) [] (omega arith) refl tt))
        (work 0 (asks none (some [])) [] (omega arith) refl tt))
      (work 0 (asks none none) [] (omega arith) refl tt),
)

-- Then the server accepts a connection, and its worker serves it in three rounds.
unfoldable evening : (t : System (List Message)) × Reached t
unfolding assign WorkerThread.step post left_at_once WorkerThread.read_req bytes put_bytes
evening = (
  _,
  later
      (later
        (later (later (left_at_once.1) (accept 7))
          (work 0 (asks (some seventh) none) [] (omega arith) refl tt))
        (work 0 (asks none (some zed)) [] (omega arith) refl from_zed))
      (work 0 (asks none none) [] (omega arith) refl tt),
)

abbrev pub first_join : List Message → Option JoinInfo
first_join [] = none
first_join (join msg ∷ q) = some msg
first_join (connection con ∷ q) = first_join q

-- What the room is told, and that the queue is empty after that.
unfoldable told : Option JoinInfo
unfolding left_at_once evening
told = first_join (evening.0).queue

pub idle-waits : (idle.state ≡ WorkerThread.wait) × IsHarmless (WorkerThread.read_req idle.pack)
unfolding WorkerThread.read_req bytes
idle-waits = (refl, inl refl)

-- The message itself.
unfoldable zed_joins : JoinInfo
unfolding told
zed_joins = elim told [ some msg ↦ msg | none ↦ created ]

zed_is_received : fifo.msgrcv (evening.0).queue msg_room ≡ some (join zed_joins, [])
unfolding left_at_once evening told zed_joins bytes main retry get_behaviour request_for send_conf
    error_window wait_room packets init
zed_is_received = refl

room_asks_first : asks_of (evening.0) (room 0) ≡ some msg_room
unfolding left_at_once evening room_fsm_start
room_asks_first = refl

service-IsFor_example : IsFor (room 0) (join zed_joins)
service-IsFor_example =
    service-IsFor fifo counter kept zeros (map entry_of (deck ∷ [])) nothing (units_of (deck ∷ []))
      1 (counter 1) loaded.0 counter-IsFresh
      (listing-print kept (deck ∷ []) zeros (deck-IsDeck, tt)) refl loaded.1 1 1 [] (λ i. idle) info
      (λ i. empty_room) (λ msg waits. waits) (λ i. idle-waits) (evening.0) (evening.1) (room 0)
      msg_room (join zed_joins) [] room_asks_first zed_is_received
