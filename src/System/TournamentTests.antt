-- ===== src/System/TournamentTests.antt =====
-- Two players on the server: Amy creates a room for two, and Zed joins it.
use intellect_battle.Prelude.{
  ℕ, ◌≡◌, refl, none, some, Option, List, [], ◌∷◌, map, inl, arith, replicate, All-replicate,
}
use intellect_battle.Memory.{bytes}
use intellect_battle.Packet.{JoinInfo, Connection, msg_wrk}
use intellect_battle.Units.Decks.{entry_of, units_of, listing-print}
use intellect_battle.Units.Trailing.{kept}
use intellect_battle.Units.FileTests.{deck, deck-IsDeck, nothing, counter, counter-IsFresh, zeros}
use intellect_battle.Room.State.{Room, Event, wait, game, assign}
use intellect_battle.Room.Machine.{step, room_fsm_start}
use intellect_battle.Room.Rules.{IsWhole}
use intellect_battle.Room.Opening.{NewUpTo}
use intellect_battle.Room.Course.{Follows}
use intellect_battle.Room.Evening.{begun}
use intellect_battle.Room.Tests.{empty_room, quiet, room_of, events_of}
use intellect_battle.Worker.Machine as WorkerThread
use intellect_battle.Client.Logic.{init, send_conf}
use intellect_battle.Client.Menu.{mouse, get_behaviour, request_for}
use intellect_battle.Client.Errors.{error_window}
use intellect_battle.Client.Retry.{retry}
use intellect_battle.Client.Waiting.{wait_room}
use intellect_battle.Client.Play.{packets}
use intellect_battle.Client.Main.{World, main}
use intellect_battle.Network.Queue.{Message, join}
use intellect_battle.Network.Fifo.{fifo}
use intellect_battle.Network.Steps.{
  System, start, later, accept, work, serve, Receipt, room_asks, post,
}
use intellect_battle.System.Questions.{OfDeque}
use intellect_battle.System.Service.{FromClient}
use intellect_battle.System.Tournaments.{service-Follows}
use intellect_battle.System.SessionTests.{idle, world, joining}
use intellect_battle.System.ServiceTests.{
  idle-waits, info, loaded, first_request, first_join, zed, from_zed, seventh, asks, Reached,
}

-- Amy chooses CREATE and the size 2.
abbrev amys_world : World
amys_world = record world {
  scanned = some (b'A' ∷ b'm' ∷ b'y' ∷ []) ∷ [];
  sessions = record joining { menu = mouse 20 3 ∷ mouse 36 3 ∷ [] } ∷ [];
}

abbrev amy : List ℕ
amy = bytes (first_request (main amys_world).0) 0 56

from_amy : FromClient (some amy)
unfolding bytes main retry get_behaviour request_for send_conf error_window wait_room packets
from_amy =
    (amys_world, b'A' ∷ b'm' ∷ b'y' ∷ [], first_request (main amys_world).0, refl, inl refl, refl)

abbrev fifth : Connection
fifth = record { type = msg_wrk; socket = 5 }

-- Amy's request reaches the queue.
unfoldable requested : (t : System (List Message)) × Reached t
unfolding assign WorkerThread.step post
requested = (
  _,
  later
      (later
        (later (later start (accept 5)) (work 0 (asks (some fifth) none) [] (omega arith) refl tt))
        (work 0 (asks none (some amy)) [] (omega arith) refl from_amy))
      (work 0 (asks none none) [] (omega arith) refl tt),
)

unfoldable amy_creates : Option JoinInfo
unfolding requested
amy_creates = first_join (requested.0).queue

unfoldable opened : Option (Room × List Event)
unfolding requested amy_creates
opened = step loaded.0 (quiet amy_creates) ((requested.0).rooms 0)

is_told :
    Receipt fifo join (requested.0).queue (room_asks ((requested.0).rooms 0).state) amy_creates []
unfolding requested amy_creates room_fsm_start bytes main retry get_behaviour request_for send_conf
    error_window wait_room packets init
is_told = refl

is_opened :
    step loaded.0 (quiet amy_creates) ((requested.0).rooms 0)
    ≡ some (room_of opened, events_of opened)
unfolding opened requested amy_creates step room_fsm_start bytes main retry get_behaviour
    request_for send_conf error_window wait_room packets init
is_opened = refl

-- The room takes Amy in, and Zed's request follows.
unfoldable night : (t : System (List Message)) × Reached t
unfolding assign WorkerThread.step post requested amy_creates opened bytes main retry get_behaviour
    request_for send_conf error_window wait_room packets init
night = (
  _,
  later
      (later
        (later
          (later
            (later (requested.1) (
              serve 0 (quiet amy_creates) [] (room_of opened) (events_of opened) (omega arith)
                is_told is_opened))
            (accept 7))
          (work 0 (asks (some seventh) none) [] (omega arith) refl tt))
        (work 0 (asks none (some zed)) [] (omega arith) refl from_zed))
      (work 0 (asks none none) [] (omega arith) refl tt),
)

unfoldable zed_joins : Option JoinInfo
unfolding night
zed_joins = first_join (night.0).queue

unfoldable entered : Option (Room × List Event)
unfolding night zed_joins
entered = step loaded.0 (quiet zed_joins) ((night.0).rooms 0)

zed_is_told : Receipt fifo join (night.0).queue (room_asks ((night.0).rooms 0).state) zed_joins []
unfolding night zed_joins step room_fsm_start
zed_is_told = refl

is_entered :
    step loaded.0 (quiet zed_joins) ((night.0).rooms 0) ≡ some (room_of entered, events_of entered)
unfolding entered night zed_joins step room_fsm_start
is_entered = refl

waits : ((night.0).rooms 0).state ≡ wait
unfolding night step room_fsm_start
waits = refl

plays : (room_of entered).state ≡ game
unfolding entered night zed_joins step room_fsm_start
plays = refl

AllWhole-quiet : (id : ℕ) → IsWhole ((quiet none).recv id)
AllWhole-quiet id = omega arith

-- Both answer with 2 in every round.
service-Follows_example :
    NewUpTo (room_of entered).room_size (room_of entered)
    × Follows
        (OfDeque counter 2)
        loaded.0
        (replicate 16 (quiet none))
        0
        (room_of entered)
        (λ j. begun ((room_of entered).score j))
service-Follows_example =
    service-Follows fifo counter kept zeros (map entry_of (deck ∷ [])) nothing
      (units_of (deck ∷ [])) 1 (counter 1) loaded.0 counter-IsFresh
      (listing-print kept (deck ∷ []) zeros (deck-IsDeck, tt)) refl loaded.1 1 1 [] (λ i. idle) info
      (λ i. empty_room) (λ msg waits. waits) (λ i. idle-waits) (night.0) (night.1) 0
      (quiet zed_joins) [] (room_of entered) (events_of entered) (replicate 16 (quiet none))
      zed_is_told is_entered waits plays refl
      (All-replicate (λ io. (id : ℕ) → IsWhole (io.recv id)) 16 (quiet none) AllWhole-quiet)
