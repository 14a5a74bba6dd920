-- ===== src/Client/Main.antt =====
-- `main`, `get_nickname`, `refresh_values` and the end of `wait_players` of src/client.c: how the
-- parts of the client follow each other. What the user does and what the calls meet in each part is
-- an argument. Windows, colours and the thread that shows the progress are left out.
use intellect_battle.Prelude.{
  ℕ, suc, false, Option, none, some, List, [], ◌∷◌, ◌++◌, map, ℤ, pos, eqb_ℤ, ltb, length, ◌==◌,
  if◌then◌else◌, to_char,
}
use intellect_battle.Memory.{Mem}
use intellect_battle.Client.Logic.{
  Client, RoomInfo, ShownUnit, init, connect_to_server, send_conf, code_failure,
}
use intellect_battle.Client.Menu
use intellect_battle.Client.Menu.{Key, get_behaviour, request_for, back_to_main_menu}
use intellect_battle.Client.Errors.{
  error_window, err_conn_fail, err_conf_send_fail, handle_retry, handle_stop,
}
use intellect_battle.Client.Play.{Turn, returned, waiting, undefined, game_loop, packets}
use intellect_battle.Client.Retry.{settled, stopped, waiting, out_of_fuel, retry}
use intellect_battle.Client.Waiting.{Reception, wait_room}

-- `char nickname[52]`
abbrev pub nickname_size : ℕ
nickname_size = 52

-- What `get_nickname` comes to: a text, a write past the array, or not yet a text.
pub data Nickname : Type 0 where
  named : List ℕ → Nickname
  overflow unnamed : Nickname

-- `get_nickname`. `wscanw` reads a text of any length, or nothing (`none`).
unfoldable pub get_nickname : (scanned : List (Option (List ℕ))) → Nickname
get_nickname [] = unnamed
get_nickname (none ∷ later) = get_nickname later
get_nickname (some [] ∷ later) = get_nickname later
get_nickname (some (c ∷ cs) ∷ later) =
    let rest = get_nickname later in
    if ltb (length (c ∷ cs)) nickname_size
    then (if c == 0 then rest else named (c ∷ cs))
    else overflow

-- A packet that the client sends.
pub data Sent : Type 0 where
  request answer : Mem → Sent

-- The ends of the program: the EXIT entry, `exit(APPLICATION_ERROR)`, a call that has not returned
-- yet, or undefined behaviour.
pub data Ended : Type 0 where
  left aborted blocked crashed no_fuel : Ended

-- The end of a part of the program, with what it has sent.
pub data Phase : Type 0 where
  goes_on : List Sent → Phase
  ends : Ended → List Sent → Phase

-- An attempt to send a request: the stack that it meets, and the result of `send`.
pub record Attempt : Type 0 where
  pub stack : Mem
  pub sent : ℤ

-- What one round of the loop of `main` meets, part by part.
pub record Session : Type 0 where
  pub menu : List Key
  pub attempts : List Attempt
  pub send_errors : List Key
  pub r_info : RoomInfo
  pub lobby : List Reception
  pub wait_errors : List Key
  pub stack : Mem
  pub delivered : Option (List ℕ)
  pub question : ShownUnit
  pub turns : List Turn
  pub end_errors : List Key

-- The `switch` of lines 290 to 301.
unfoldable pub handle_end : (error_handle : ℕ) → List Sent → Phase
handle_end error_handle out =
    if error_handle == handle_retry
    then goes_on out
    else if error_handle == handle_stop
    then ends aborted out
    else goes_on out

-- Lines 288 to 302: what `wait_players` does with the result of `game_loop`.
unfoldable pub after_game : (errCode : ℤ) → List Sent → List Key → Phase
unfolding handle_end
after_game errCode out keys =
    if eqb_ℤ errCode code_failure
    then elim (error_window err_conn_fail false keys) [
      | none ↦ ends blocked out
      | some (error_handle, rest) ↦ handle_end error_handle out
    ]
    else goes_on out

-- Lines 286 to 302.
unfoldable pub play : RoomInfo → Session → Phase
unfolding after_game
play r_info s = elim (game_loop s.stack s.delivered s.question r_info s.turns) [
  | returned status out shown ↦ after_game status (map answer out) s.end_errors
  | waiting out ↦ ends blocked (map answer out)
  | undefined ↦ ends crashed []
]

-- `wait_players`
unfoldable pub wait_players : Session → Phase
unfolding play
wait_players s = elim (wait_room s.r_info s.lobby s.wait_errors) [
  | settled errCode r_info ios keys ↦ play r_info s
  | stopped r_info ↦ ends aborted []
  | waiting r_info ↦ ends blocked []
  | out_of_fuel ↦ ends no_fuel []
]

-- The call of `send_conf` in lines 81 and 86, with the requests that have been sent so far.
unfoldable pub try_send : Client → (type size : ℕ) → Attempt → List Mem → ℤ × List Mem
try_send client type size a out =
    let (errCode, packet) = send_conf a.stack a.sent client type size in
    (errCode, out ++ packets packet)

-- Lines 81 to 97.
unfoldable pub send_request : Client → (type size : ℕ) → List Attempt → List Key → Phase
unfolding try_send
send_request client type size [] keys = ends blocked []
send_request client type size (a ∷ later) keys =
    let (errCode, out) = try_send client type size a [] in
    elim (retry err_conf_send_fail (try_send client type size) (suc (length later)) errCode out
      later keys) [
        | settled errCode' out' as' keys' ↦ goes_on (map request out')
        | stopped out' ↦ ends aborted (map request out')
        | waiting out' ↦ ends blocked (map request out')
        | out_of_fuel ↦ ends no_fuel []
      ]

-- One part after another.
unfoldable pub followed_by : Phase → Phase → Phase
followed_by (ends e out) next = ends e out
followed_by (goes_on out) (goes_on out') = goes_on (out ++ out')
followed_by (goes_on out) (ends e out') = ends e (out ++ out')

-- Lines 69 to 101: what follows the menus.
unfoldable pub after_menu : Client → Session → Menu.Stay → Phase
unfolding send_request wait_players followed_by
after_menu client s Menu.out_of_fuel = ends no_fuel []
after_menu client s Menu.waiting = ends blocked []
after_menu client s (Menu.chosen c keys) = elim (request_for c) [
  | none ↦ ends left []
  | some (type, size) ↦
      followed_by (send_request client (to_char type) (to_char size) s.attempts s.send_errors)
        (wait_players s)
]

-- A round of the loop of `main` (lines 66 to 102).
unfoldable pub round : Client → (behaviour : ℤ) → Session → Phase
unfolding after_menu
round client behaviour s =
    after_menu client s (get_behaviour (suc (length s.menu)) s.menu behaviour)

-- `refresh_values`
abbrev pub refresh_values : ℤ
refresh_values = back_to_main_menu

-- The loop of `main`.
unfoldable pub main_loop : Client → (behaviour : ℤ) → List Session → List Sent × Ended
unfolding round
main_loop client behaviour [] = ([], blocked)
main_loop client behaviour (s ∷ later) =
    let (out', end) = main_loop client refresh_values later in
    elim (round client behaviour s) [ ends e out ↦ (out, e) | goes_on out ↦ (out ++ out', end) ]

-- What the program meets: the texts that the user types as a name, the results of `socket` and of each
-- `connect`, the keys at the error window for these, and the rounds.
pub record World : Type 0 where
  pub scanned : List (Option (List ℕ))
  pub socket : ℤ
  pub connects : List (ℤ → ℤ)
  pub connect_errors : List Key
  pub sessions : List Session

-- `connect_to_server` in lines 42 and 48, with the number of the calls so far.
unfoldable pub try_connect : Client → (connect : ℤ → ℤ) → ℕ → ℤ × ℕ
unfolding connect_to_server
try_connect client connect calls = (connect_to_server connect client, suc calls)

-- Lines 42 to 102: the connection, then the loop.
unfoldable pub connected : Client → List (ℤ → ℤ) → List Key → List Session → List Sent × Ended
unfolding main_loop try_connect
connected client [] keys sessions = ([], blocked)
connected client (connect ∷ later) keys sessions =
    let (errCode, calls) = try_connect client connect 0 in
    elim (retry err_conn_fail (try_connect client) (suc (length later)) errCode calls later keys) [
      | settled errCode' _ later' keys' ↦ main_loop client back_to_main_menu sessions
      | stopped _ ↦ ([], aborted)
      | waiting _ ↦ ([], blocked)
      | out_of_fuel ↦ ([], no_fuel)
    ]

-- The global `Client` before `init`.
abbrev pub zeroed : Client
zeroed = record { socket = pos 0; username = λ i. 0 }

-- `main`
unfoldable pub main : World → List Sent × Ended
unfolding get_nickname connected
main world = elim (get_nickname world.scanned) [
  | unnamed ↦ ([], blocked)
  | overflow ↦ ([], crashed)
  | named name ↦
      connected (init world.socket name zeroed) world.connects world.connect_errors world.sessions
]
