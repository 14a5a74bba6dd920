-- ===== src/Room/Machine.antt =====
-- The states GAMEOVER and FIN of `room_fsm`, its dispatch, and its loop (src/room.c).
use intellect_battle.Prelude.{
  ℕ, zero, suc, Option, none, some, List, [], ◌∷◌, ◌++◌, leb, if◌then◌else◌, ◌>>=◌,
}
use intellect_battle.Packet.{user_count, Player}
use intellect_battle.Units.{Heap}
use intellect_battle.Room.State.{
  State, RoomInfo, Room, Input, Event, init, wait, game, gameover, fin, exit,
}
use intellect_battle.Room.Lobby.{init_step, wait_step}
use intellect_battle.Room.Game.{game_step}

-- `for (id = from; …) close(players[id].socket);`
unfoldable pub close_from : (ℕ → Player) → ℕ → ℕ → List Event
close_from players zero id = []
close_from players (suc rounds) id =
    Event.close (players id).socket ∷ close_from players rounds (suc id)

-- `case GAMEOVER`
unfoldable pub gameover_step : Room → Option (Room × List Event)
unfolding close_from
gameover_step r =
    if leb r.room_size user_count
    then some (record r { state = init }, close_from r.players r.room_size 0)
    else none

-- `case FIN`
unfoldable pub fin_step : Room → Option (Room × List Event)
unfolding close_from
fin_step r =
    if leb r.last_plr_id user_count
    then some (record r { state = exit }, close_from r.players r.last_plr_id 0)
    else none

-- `switch (state)`. `none` stands for a step that the C standard gives no result.
unfoldable pub dispatch : State → Heap → Input → Room → Option (Room × List Event)
unfolding init_step wait_step game_step gameover_step fin_step
dispatch init h io r = init_step io r
dispatch wait h io r = wait_step io r
dispatch game h io r = game_step h io r
dispatch gameover h io r = gameover_step r
dispatch fin h io r = fin_step r
dispatch exit h io r = some (r, [])

unfoldable pub step : Heap → Input → Room → Option (Room × List Event)
unfolding dispatch
step h io r = dispatch r.state h io r

-- `while (state != EXIT)`, one round for each input. In EXIT a round changes nothing.
unfoldable pub run : Heap → List Input → Room → Option (Room × List Event)
run h [] r = some (r, [])
run h (io ∷ ios) r =
    step h io r >>= λ (r', es). run h ios r' >>= λ (r'', es'). some (r'', es ++ es')

-- The first lines of the thread, with the variables that are not yet set in `raw`.
unfoldable pub room_fsm_start : RoomInfo → Room → RoomInfo × Room
room_fsm_start info raw =
    (record info { sync = 1 }, record raw { state = init; cur_unit = info.units })
