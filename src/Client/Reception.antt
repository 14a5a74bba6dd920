-- ===== src/Client/Reception.antt =====
-- What the client gets to see of a server packet: `recvfrom_server` asks for `sizeof(recv_pack)`
-- bytes, the size of a pointer (src/client_logic.c, line 19).
use intellect_battle.Prelude.{
  ℕ, ◌<◌, ◌≤◌, ◌≡◌, ◌≢◌, refl, false, ◌∙◌, Option, none, some, List, pos, arith, ltb, ◌==◌,
  if◌then◌else◌, length-take, take, get_or-past, lt→ltb, Bool-cases, inl, inr,
}
use intellect_battle.Memory.{Mem, bytes, put_bytes, get_int, strncpy}
use intellect_battle.Memory.Laws.{bytes-cong, get_or-bytes, length-bytes}
use intellect_battle.Packet.{username_len, q_len, a_len, user_count, s_wait}
use intellect_battle.Packet.SPack
use intellect_battle.Room.Game.{put_round}
use intellect_battle.Room.Loops.{get_or-take}
use intellect_battle.Room.Packets.{put_round-score}
use intellect_battle.Client.Logic.{
  RoomInfo, ShownUnit, recvfrom_server, read_wait, wait_for_players, read_question, get_unit,
  is_loser, read_scores, read_unit, code_failure, code_success, game_over, game_cont, start_game,
  wait_more,
}

-- Past the first 8 bytes the packet keeps what the stack held before.
pub recvfrom_server-past :
    (delivered : Option (List ℕ)) (raw : Mem) (i : ℕ)
    → 8 ≤ i
    → (recvfrom_server delivered raw).1 i ≡ raw i
unfolding recvfrom_server put_bytes
recvfrom_server-past none raw i past = refl
recvfrom_server-past (some bs) raw i past =
    ground (arith, length-take 8 bs, get_or-past (take 8 bs) i (raw i))

bytes-past :
    (delivered : Option (List ℕ)) (raw : Mem) (o n : ℕ)
    → 8 ≤ o
    → bytes (recvfrom_server delivered raw).1 o n ≡ bytes raw o n
bytes-past delivered raw o n past =
    bytes-cong (recvfrom_server delivered raw).1 raw o n
      (λ i low high. recvfrom_server-past delivered raw i (omega arith))

read_wait-names :
    (raw : Mem) (delivered : Option (List ℕ)) (room : RoomInfo) (idx : ℕ)
    → 1 ≤ idx
    → idx < user_count
    → (read_wait (recvfrom_server delivered raw).1 room).usernames idx
      ≡ strncpy username_len (bytes raw (SPack.usernames idx) username_len)
unfolding read_wait
read_wait-names raw delivered room idx low high =
    rw (lt→ltb idx 4 high, bytes-past delivered raw (SPack.usernames idx) 40 (omega arith)) refl

-- When `wait_for_players` accepts a packet, the names of the second, third and fourth player are not
-- in what it received: they are what the stack held before, whatever the server has sent.
pub wait_for_players-names :
    (raw : Mem) (delivered : Option (List ℕ)) (room : RoomInfo) (idx : ℕ)
    → 1 ≤ idx
    → idx < user_count
    → (wait_for_players raw delivered (some room)).0 ≢ code_failure
    → (room' : RoomInfo) × ((wait_for_players raw delivered (some room)).1 ≡ some room')
      × (room'.usernames idx ≡ strncpy username_len (bytes raw (SPack.usernames idx) username_len))
unfolding wait_for_players
wait_for_players-names raw delivered room idx low high ok = (
  read_wait (recvfrom_server delivered raw).1 room,
  ground arith,
  read_wait-names raw delivered room idx low high,
)

-- The first 8 bytes of a packet that arrives in full.
pub recvfrom_server-first :
    (raw packet : Mem) (n i : ℕ)
    → 8 ≤ n
    → i < 8
    → (recvfrom_server (some (bytes packet 0 n)) raw).1 i ≡ packet i
unfolding recvfrom_server put_bytes
recvfrom_server-first raw packet n i full low = ground (
  arith,
  get_or-take 8 i (bytes packet 0 n) (raw i),
  get_or-bytes packet 0 n i 0,
  length-bytes packet 0 n,
)

recvfrom_server-ok : (bs : List ℕ) (raw : Mem) → (recvfrom_server (some bs) raw).0 ≡ code_success
unfolding recvfrom_server
recvfrom_server-ok bs raw = refl

-- Of a lobby packet that arrives in full the client learns how many have joined, the size of the
-- room and its own id, and it waits for more exactly while the room is not full.
pub wait_for_players-counts :
    (raw packet : Mem) (n : ℕ) (room : RoomInfo)
    → 8 ≤ n
    → get_int packet SPack.type ≡ s_wait
    → (room' : RoomInfo) × (wait_for_players raw (some (bytes packet 0 n)) (some room) ≡ (
      if ltb (packet SPack.occupancy) (packet SPack.room_size) then wait_more else start_game,
      some room',
    ))
      × (room'.occupancy ≡ packet SPack.occupancy)
      × (room'.room_size ≡ packet SPack.room_size)
      × (room'.id ≡ packet SPack.id)
unfolding wait_for_players read_wait get_int
wait_for_players-counts raw packet n room full lobby =
    let at = λ (i : ℕ) (low : i < 8). recvfrom_server-first raw packet n i full low in
    (
      read_wait (recvfrom_server (some (bytes packet 0 n)) raw).1 room,
      ground (arith, recvfrom_server-ok (bytes packet 0 n) raw, at 0, at 1, at 2, at 3, at 4, at 5),
      at 4 (omega arith),
      at 5 (omega arith),
      at 6 (omega arith),
    )

read_question-lost :
    (m : Mem) (unit : ShownUnit) (room : RoomInfo)
    → is_loser (read_scores m room) ≡ some (pos 1)
    → read_question m unit room
      ≡ some (game_over, unit, (if m SPack.quest_num == 0 then room else read_scores m room))
unfolding read_question
read_question-lost m unit room lost = elim (Bool-cases (m SPack.quest_num == 0)) [
  | inl e ↦ rw e refl
  | inr e ↦ rw (e, lost) refl
]

read_question-won :
    (m : Mem) (unit : ShownUnit) (room : RoomInfo)
    → is_loser (read_scores m room) ≡ some (pos 0)
    → m SPack.quest_num ≢ 0
    → read_question m unit room ≡ some (game_cont, read_unit m unit, read_scores m room)
unfolding read_question
read_question-won m unit room won numbered =
    let e : (m SPack.quest_num == 0) ≡ false = ground arith in rw (e, won) refl

-- A client that receives at least 8 bytes of a question of the room while its player has no point is told that the game
-- is over: `is_loser` wants a score above 0, and in the first round nobody has one.
pub get_unit-pointless :
    (raw texts : Mem) (score : ℕ → ℕ) (size quest_num n : ℕ) (unit : ShownUnit) (room : RoomInfo)
    → 8 ≤ n
    → room.id < size
    → size ≤ 4
    → score room.id ≡ 0
    → (room' : RoomInfo) × (get_unit raw
          (some (bytes (put_round texts score size quest_num) 0 n))
          (some unit)
          (some room)
        ≡ some (game_over, some unit, some room'))
unfolding get_unit
get_unit-pointless raw texts score size quest_num n unit room full own sized pointless =
    let packet = put_round texts score size quest_num in
    let conf = (recvfrom_server (some (bytes packet 0 n)) raw).1 in
    let seen : conf (SPack.score room.id) ≡ 0 =
      recvfrom_server-first raw packet n (SPack.score room.id) full (omega arith)
      ∙ put_round-score texts score size quest_num room.id own sized
      ∙ pointless in
    let lost : is_loser (read_scores conf room) ≡ some (pos 1) =
      unfold is_loser read_scores in rw (lt→ltb room.id 4 (omega arith), seen) refl in
    (
      (if conf SPack.quest_num == 0 then room else read_scores conf room),
      rw (recvfrom_server-ok (bytes packet 0 n) raw, read_question-lost conf unit room lost) refl,
    )

-- A client whose player has points goes on with the game if the byte that its stack held in the place
-- of the question's number is not 0: its score is from 1 to 127, and at least 8 bytes of the room's
-- packet arrive. The question and the answers that it then shows are what the
-- stack held, whatever the room has sent.
pub get_unit-stack :
    (raw texts : Mem) (score : ℕ → ℕ) (size quest_num n it : ℕ) (unit : ShownUnit) (room : RoomInfo)
    → 8 ≤ n
    → it < 4
    → room.id < size
    → size ≤ 4
    → 0 < score room.id
    → score room.id < 128
    → raw SPack.quest_num ≢ 0
    → (unit' : ShownUnit) × (room' : RoomInfo) × (get_unit raw
          (some (bytes (put_round texts score size quest_num) 0 n))
          (some unit)
          (some room)
        ≡ some (game_cont, some unit', some room'))
      × (unit'.quest ≡ strncpy q_len (bytes raw SPack.quest q_len))
      × (unit'.ans it ≡ strncpy a_len (bytes raw (SPack.ans it) a_len))
unfolding get_unit
get_unit-stack raw texts score size quest_num n it unit room full low own sized some_points small
      garbage =
    let packet = put_round texts score size quest_num in
    let delivered = some (bytes packet 0 n) in
    let conf = (recvfrom_server delivered raw).1 in
    let seen : conf (SPack.score room.id) ≡ score room.id =
      recvfrom_server-first raw packet n (SPack.score room.id) full (omega arith)
      ∙ put_round-score texts score size quest_num room.id own sized in
    let won : is_loser (read_scores conf room) ≡ some (pos 0) =
      unfold is_loser read_scores in rw (lt→ltb room.id 4 (omega arith), seen) (ground arith) in
    let same = recvfrom_server-past delivered raw SPack.quest_num (omega arith) in
    (
      read_unit conf unit,
      read_scores conf room,
      rw
          (
            recvfrom_server-ok (bytes packet 0 n) raw,
            read_question-won conf unit room won (ground arith),
          )
          refl,
      unfold read_unit in rw (bytes-past delivered raw SPack.quest q_len (omega arith)) refl,
      unfold read_unit in
          rw (lt→ltb it 4 low, bytes-past delivered raw (SPack.ans it) a_len (omega arith)) refl,
    )
