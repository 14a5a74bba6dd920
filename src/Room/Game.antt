-- ===== src/Room/Game.antt =====
-- The state GAME of `room_fsm` (src/room.c): a round sends a question to every player who is in the
-- game, and takes the answers.
use intellect_battle.Prelude.{
  ℕ, ◌+◌, ◌%◌, Option, none, some, List, [], ◌∷◌, ◌++◌, ℤ, pos, is_negative, to_char, signed, ltb_ℤ,
  leb_ℤ, eqb_ℤ, leb, ◌==◌, if◌then◌else◌, ◌>>=◌,
}
use intellect_battle.Memory.{Mem, put, put_int, strcpy}
use intellect_battle.Packet.{s_game, user_count, Player}
use intellect_battle.Packet.SPack
use intellect_battle.Packet.CPack
use intellect_battle.Units.{Heap, UnitNode, walk}
use intellect_battle.Room.State.{
  Room, Input, Event, gameover, plr_disconnect, plr_lost, max_step, last_quest, assign,
  recvfrom_user, for_each,
}

-- Lines 135 to 139: the texts of the unit.
unfoldable pub put_question : Mem → UnitNode → Option Mem
unfolding strcpy
put_question m u = strcpy m SPack.quest u.quest >>= λ m. strcpy m (SPack.ans 0) (u.ans 0) >>= λ m.
    strcpy m (SPack.ans 1) (u.ans 1) >>= λ m.
    strcpy m (SPack.ans 2) (u.ans 2) >>= λ m. strcpy m (SPack.ans 3) (u.ans 3)

-- The body of the loop of line 146.
unfoldable pub put_score : (ℕ → ℕ) → ℕ → Mem → Mem
unfolding put
put_score score i m = put m (SPack.score i) (score i)

-- Lines 145 to 149.
unfoldable pub put_round : Mem → (ℕ → ℕ) → (room_size quest_num : ℕ) → Mem
unfolding put put_int for_each put_score
put_round m score room_size quest_num =
    let tagged = put_int m SPack.type s_game in
    let scored = for_each room_size 0 (put_score score) tagged in
    put scored SPack.quest_num quest_num

-- The variables that the loops of a round change. `alive` is `user_alive_counter`.
pub record Round : Type 0 where
  pub score : ℕ → ℕ
  pub alive : ℕ
  pub cpack : Mem
  pub events : List Event

-- Lines 158 to 168.
unfoldable pub offer : Input → (ℕ → Player) → Mem → ℕ → Round → Round
unfolding assign
offer io players packet id s =
    if leb_ℤ plr_lost (signed (s.score id))
    then (let sent = record s { events = s.events ++ Event.send (players id).socket packet ∷ [] } in
        if is_negative (io.send id)
        then record sent { score = assign sent.score id (to_char plr_disconnect) }
        else record sent { alive = (sent.alive + 1) % 256 })
    else s

-- Lines 170 to 172.
unfoldable pub retire : ℕ → Round → Round
unfolding assign
retire id s =
    if eqb_ℤ (signed (s.score id)) plr_lost
    then record s { score = assign s.score id (to_char plr_disconnect) }
    else s

-- The body of the loop that sends the question.
unfoldable pub ask : Input → (ℕ → Player) → Mem → ℕ → Round → Round
unfolding offer retire
ask io players packet id s = retire id (offer io players packet id s)

-- Lines 185 to 195, after the call of `recvfrom_user`.
unfoldable pub mark : ℤ → ℕ → ℕ → Round → Round
unfolding assign
mark got rans id s =
    if is_negative got
    then record s { score = assign s.score id (to_char plr_disconnect) }
    else if s.cpack CPack.ans == rans
    then record s { score = assign s.score id ((s.score id + 1) % 256) }
    else record s { score = assign s.score id (to_char plr_lost) }

-- The body of the loop that takes the answers. All players share the one buffer `cpack`.
unfoldable pub judge : Input → (ℕ → Player) → ℕ → ℕ → Round → Round
unfolding mark recvfrom_user
judge io players rans id s =
    if ltb_ℤ plr_lost (signed (s.score id))
    then (let (got, buffer) = recvfrom_user (io.recv id) s.cpack CPack.size in
        mark got rans id
          (record s { cpack = buffer; events = s.events ++ Event.recv (players id).socket ∷ [] }))
    else s

-- Lines 199 to 203.
unfoldable pub next_quest : ℕ → ℕ
next_quest n = if n == last_quest then 0 else (n + 1) % 256

-- The two loops, with the test between them.
unfoldable pub play : Input → UnitNode → Room → Room × List Event
unfolding ask judge for_each next_quest
play io u r =
    let asked =
      for_each r.room_size 0 (ask io r.players r.spack)
        (record { score = r.score; alive = 0; cpack = r.cpack; events = [] }) in
    let judged = for_each r.room_size 0 (judge io r.players u.rans) asked in
    if leb_ℤ (signed asked.alive) (pos 1)
    then (record r { score = asked.score; state = gameover }, asked.events)
    else (
      record r { score = judged.score; cpack = judged.cpack; quest_num = next_quest r.quest_num },
      judged.events,
    )

-- `case GAME`. The loops read `score[]` and `players[]` below `room_size`.
unfoldable pub game_step : Heap → Input → Room → Option (Room × List Event)
unfolding walk put_question put_round play
game_step h io r =
    if r.quest_num == 0
    then some (record r { state = gameover }, [])
    else walk h (io.rand % max_step + 1) r.cur_unit >>= λ p. h p >>= λ u.
        put_question r.spack u >>= λ texts.
        if leb r.room_size user_count
        then some (
            play io u
              (record r { cur_unit = p; spack = put_round texts r.score r.room_size r.quest_num }))
        else none
