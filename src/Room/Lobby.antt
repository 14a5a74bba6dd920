-- ===== src/Room/Lobby.antt =====
-- The states INIT and WAIT of `room_fsm` (src/room.c): the first player opens the room, and each
-- further one is announced to all.
use intellect_battle.Prelude.{
  ℕ, zero, suc, ◌+◌, ◌%◌, Option, none, some, List, [], ◌∷◌, ◌++◌, is_negative, to_char, ◌==◌,
  if◌then◌else◌, ◌>>=◌,
}
use intellect_battle.Memory.{Mem, put, put_int, bzero, strcpy}
use intellect_battle.Packet.{s_wait, Player, JoinInfo}
use intellect_battle.Packet.SPack
use intellect_battle.Room.State.{
  Room, Input, Event, wait, game, fin, plr_disconnect, set_at, assign,
}

-- Lines 42 to 46, before the queue is asked.
unfoldable pub reset : Room → Room
unfolding bzero
reset r = record r {
  room_size = 0;
  last_plr_id = 0;
  quest_num = 1;
  spack = bzero r.spack SPack.size;
}

-- The packet of lines 64 to 68.
unfoldable pub first_packet : Mem → JoinInfo → Option Mem
unfolding put put_int strcpy
first_packet m msg =
    let tagged = put_int m SPack.type s_wait in
    let filled =
      put (put (put tagged SPack.occupancy 1) SPack.room_size msg.room_size) SPack.id 0 in
    strcpy filled (SPack.usernames 0) msg.player.username

-- `case INIT`
unfoldable pub init_step : Input → Room → Option (Room × List Event)
unfolding reset first_packet assign
init_step io r = elim io.msgrcv [
  | none ↦ some (record (reset r) { state = fin }, [])
  | some msg ↦ first_packet (reset r).spack msg >>= λ packet. some (
    record (reset r) {
      room_size = msg.room_size;
      players = assign r.players 0 msg.player;
      score = assign r.score 0 0;
      spack = packet;
      state = if is_negative (io.send 0) then fin else wait;
      last_plr_id = 1;
    },
    Event.send msg.player.socket packet ∷ [],
  )
]

-- The variables that the loop of lines 112 to 122 changes.
pub record Notice : Type 0 where
  pub packet : Mem
  pub score : ℕ → ℕ
  pub events : List Event

-- The loop of lines 112 to 122, from player `id` on: it stops at the first `send` that fails.
unfoldable pub notify : Input → (ℕ → Player) → ℕ → ℕ → Notice → Notice
unfolding put assign
notify io players zero id n = n
notify io players (suc rounds) id n =
    let packet = put n.packet SPack.id id in
    let sent = record n {
      packet = packet;
      events = n.events ++ Event.send (players id).socket packet ∷ [];
    } in
    let rest = notify io players rounds (suc id) sent in
    if is_negative (io.send id)
    then record sent { score = assign sent.score id (to_char plr_disconnect) }
    else rest

-- Lines 101 to 103.
unfoldable pub wait_fields : Mem → (last room_size : ℕ) → Mem
unfolding put put_int
wait_fields m last room_size =
    let tagged = put_int m SPack.type s_wait in
    put (put tagged SPack.occupancy ((last + 1) % 256)) SPack.room_size room_size

-- The packet of lines 101 to 105, for the player who joins as `last`.
unfoldable pub wait_packet : Mem → (last room_size : ℕ) → Player → Option Mem
unfolding wait_fields strcpy
wait_packet m last room_size player =
    strcpy (wait_fields m last room_size) (SPack.usernames last) player.username

-- `case WAIT`
unfoldable pub wait_step : Input → Room → Option (Room × List Event)
unfolding wait_packet set_at notify
wait_step io r = elim io.msgrcv [
  | none ↦ some (record r { state = fin }, [])
  | some msg ↦ set_at r.players r.last_plr_id msg.player >>= λ players.
      set_at r.score r.last_plr_id 0 >>= λ score.
      wait_packet r.spack r.last_plr_id r.room_size msg.player >>= λ packet.
      let last = (r.last_plr_id + 1) % 256 in
      let told =
        notify io players last 0 (record { packet = packet; score = score; events = [] }) in
      some (
        record r {
          players = players;
          score = told.score;
          spack = told.packet;
          state = if r.last_plr_id + 1 == r.room_size then game else wait;
          last_plr_id = last;
        },
        told.events,
      )
]
