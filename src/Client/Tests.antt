-- ===== src/Client/Tests.antt =====
-- The client (src/client_logic.c) at concrete inputs.
use intellect_battle.Prelude.{ℕ, ◌≡◌, refl, some, List, [], ◌∷◌, pos, arith, ◌==◌, if◌then◌else◌}
use intellect_battle.Memory.{Mem, get_int, bytes, c_string, strncpy}
use intellect_battle.Packet.{q_len, a_len, username_len}
use intellect_battle.Packet.SPack
use intellect_battle.Room.Game.{put_round}
use intellect_battle.Client.Logic.{
  Client, RoomInfo, ShownUnit, init, wait_for_players, get_unit, recvfrom_server, game_over,
  game_cont,
}
use intellect_battle.Client.Reception.{wait_for_players-names, get_unit-pointless, get_unit-stack}
use intellect_battle.Client.Requests.{name_of, init-HasText, init-name}

abbrev blank : Client
blank = record { socket = pos 0; username = λ i. 0 }

abbrev zed : List ℕ
zed = b'Z' ∷ b'e' ∷ b'd' ∷ []

init-HasText_example : (s : List ℕ) × (c_string (name_of (init (pos 3) zed blank)) ≡ some s)
init-HasText_example = init-HasText (pos 3) zed blank

init-name_example : c_string (name_of (init (pos 3) zed blank)) ≡ some zed
init-name_example = init-name (pos 3) zed blank (λ i lt. refl) (omega arith)

-- The stack before the call: every byte is 9.
abbrev stack : Mem
stack i = 9

abbrev seat : RoomInfo
seat = record { occupancy = 2; room_size = 2; id = 1; usernames = λ i. []; score = λ i. 0 }

abbrev blank_unit : ShownUnit
blank_unit = record { quest = []; ans = λ i. [] }

-- A lobby packet for player 1 of 2.
abbrev lobby : Mem
lobby i = if i == 4 then 1 else if i == 5 then 2 else if i == 6 then 1 else 0

wait_for_players-names_example :
    (room' : RoomInfo) × ((wait_for_players stack (some (bytes lobby 0 8)) (some seat)).1
      ≡ some room')
    × (room'.usernames 1 ≡ strncpy username_len (bytes stack (SPack.usernames 1) username_len))
unfolding wait_for_players recvfrom_server get_int bytes
wait_for_players-names_example =
    wait_for_players-names stack (some (bytes lobby 0 8)) seat 1 (omega arith) (omega arith)
      (ground arith)

get_unit-pointless_example :
    (room' : RoomInfo) × (get_unit stack
        (some (bytes (put_round (λ i. 0) (λ i. 0) 2 1) 0 540))
        (some blank_unit)
        (some seat)
      ≡ some (game_over, some blank_unit, some room'))
get_unit-pointless_example =
    get_unit-pointless stack (λ i. 0) (λ i. 0) 2 1 540 blank_unit seat (omega arith) (omega arith)
      (omega arith) refl

get_unit-stack_example :
    (unit' : ShownUnit) × (room' : RoomInfo) × (get_unit stack
        (some (bytes (put_round (λ i. 0) (λ i. 3) 2 4) 0 540))
        (some blank_unit)
        (some seat)
      ≡ some (game_cont, some unit', some room'))
    × (unit'.quest ≡ strncpy q_len (bytes stack SPack.quest q_len))
    × (unit'.ans 2 ≡ strncpy a_len (bytes stack (SPack.ans 2) a_len))
get_unit-stack_example =
    get_unit-stack stack (λ i. 0) (λ i. 3) 2 4 540 2 blank_unit seat (omega arith) (omega arith)
      (omega arith) (omega arith) (omega arith) (omega arith) (omega arith)
