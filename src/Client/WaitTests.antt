-- ===== src/Client/WaitTests.antt =====
-- The waits of src/client.c at concrete inputs.
use intellect_battle.Prelude.{ℕ, ◌≡◌, refl, length, Option, none, some, [], ◌∷◌}
use intellect_battle.Memory.{get_int}
use intellect_battle.Client.Logic.{RoomInfo, wait_for_players, recvfrom_server, read_wait}
use intellect_battle.Client.Errors.{error_window}
use intellect_battle.Client.Menu.{Key, mouse}
use intellect_battle.Client.Retry.{Retried, settled, stopped, waiting, out_of_fuel, retry}
use intellect_battle.Client.Waiting.{
  Reception, receive, wait_room, IsGathered, wait_room-IsGathered,
}
use intellect_battle.Client.Main.{get_nickname, named}

abbrev seat : RoomInfo
seat = record { occupancy = 1; room_size = 2; id = 0; usernames = λ i. []; score = λ i. 0 }

-- A failed reception, and packets that show a room for two with one player and with both.
abbrev failing : Reception
failing = record { stack = λ i. 9; delivered = none }

abbrev lobby : ℕ → Reception
lobby occupancy = record {
  stack = λ i. 9;
  delivered = some (0 ∷ 0 ∷ 0 ∷ 0 ∷ occupancy ∷ 2 ∷ 0 ∷ b'A' ∷ []);
}

-- A click on RETRY, and one on EXIT.
abbrev try_again : Key
try_again = mouse 28 16

abbrev leave : Key
leave = mouse 47 16

-- Is the game started, and how many receptions are left?
abbrev started : Retried Reception RoomInfo → Option ℕ
started (settled errCode room ios keys) = some (length ios)
started (stopped room) = none
started (waiting room) = none
started out_of_fuel = none

starts_at_once : started (wait_room seat (lobby 2 ∷ lobby 2 ∷ []) []) ≡ some 1
unfolding wait_room retry receive wait_for_players recvfrom_server get_int read_wait
starts_at_once = refl

starts_after_retry :
    started (wait_room seat (lobby 1 ∷ failing ∷ lobby 2 ∷ []) (try_again ∷ [])) ≡ some 0
unfolding wait_room retry receive wait_for_players recvfrom_server get_int read_wait error_window
starts_after_retry = refl

gives_up : started (wait_room seat (lobby 1 ∷ failing ∷ lobby 2 ∷ []) (leave ∷ [])) ≡ none
unfolding wait_room retry receive wait_for_players recvfrom_server get_int read_wait error_window
gives_up = refl

wait_room-IsGathered_example :
    IsGathered (wait_room seat (lobby 1 ∷ failing ∷ lobby 2 ∷ []) (try_again ∷ []))
wait_room-IsGathered_example =
    wait_room-IsGathered seat (lobby 1 ∷ failing ∷ lobby 2 ∷ []) (try_again ∷ [])

-- An empty line is asked for again.
second_try : get_nickname (none ∷ some [] ∷ some (b'A' ∷ []) ∷ []) ≡ named (b'A' ∷ [])
unfolding get_nickname
second_try = refl
