-- ===== src/Client/Logic.antt =====
-- The functions of src/client_logic.c (include/client_logic.h). What a system call answers is an
-- argument. A local packet that the source leaves unset is the memory `raw`. A function that sends
-- returns the packet with its result (`none`: nothing was sent).
use intellect_battle.Prelude.{
  ℕ, ◌-◌, Option, none, some, List, ℤ, pos, negsuc, signed, to_char, ltb_ℤ, leb_ℤ, eqb_ℤ,
  is_negative, ltb, leb, ◌==◌, ◌||◌, if◌then◌else◌, length, ◌>>=◌,
}
use intellect_battle.Memory.{Mem, put, put_int, get_int, put_bytes, bytes, strncpy}
use intellect_battle.Packet.{
  username_len, q_len, a_len, user_count, answer_count, req_join, req_create, c_join, c_ans, s_wait,
}
use intellect_battle.Packet.SPack
use intellect_battle.Packet.CPack
use intellect_battle.Room.State.{recvfrom_user}

abbrev pub code_success : ℤ
code_success = pos 0

abbrev pub code_failure : ℤ
code_failure = negsuc 0

abbrev pub start_game : ℤ
start_game = pos 0

abbrev pub wait_more : ℤ
wait_more = pos 1

abbrev pub game_over : ℤ
game_over = pos 0

abbrev pub game_cont : ℤ
game_cont = pos 1

-- `sizeof(recv_pack)` in `recvfrom_server`: `recv_pack` is a pointer (x86-64).
abbrev pub pointer_size : ℕ
pointer_size = 8

-- The global `player_t Client`.
pub record Client : Type 0 where
  pub socket : ℤ
  pub username : Mem

-- `roominfo_t`. A `char` is held as its byte.
pub record RoomInfo : Type 0 where
  pub occupancy : ℕ
  pub room_size : ℕ
  pub id : ℕ
  pub usernames : ℕ → List ℕ
  pub score : ℕ → ℕ

-- `unit_t` of the client.
pub record ShownUnit : Type 0 where
  pub quest : List ℕ
  pub ans : ℕ → List ℕ

-- `sendto_server`; `sent` is the result of `send`.
unfoldable pub sendto_server : (sent : ℤ) → Mem → ℤ × Option Mem
sendto_server sent send_pack =
    (if is_negative sent then code_failure else code_success, some send_pack)

-- `recvfrom_server`: the result, and the packet's memory after it.
unfoldable pub recvfrom_server : (delivered : Option (List ℕ)) → Mem → ℤ × Mem
unfolding recvfrom_user
recvfrom_server delivered recv_pack =
    let (got, buffer) = recvfrom_user delivered recv_pack pointer_size in
    (if is_negative got then code_failure else code_success, buffer)

-- `init`; `socket` is the result of `socket`, `name` the text before its NUL.
unfoldable pub init : (socket : ℤ) → List ℕ → Client → Client
unfolding put put_bytes strncpy
init socket name client =
    let name_len = if leb username_len (length name) then username_len - 1 else length name in
    record {
      socket = socket;
      username = put (put_bytes client.username 0 (strncpy name_len name)) (username_len - 1) 0;
    }

-- `connect_to_server`: `connect` is the system's answer for a socket and the server's address.
unfoldable pub connect_to_server : (connect : ℤ → ℤ) → Client → ℤ
connect_to_server connect client = connect client.socket

-- `finalize`: `close` is the system's answer for a socket.
unfoldable pub finalize : (close : ℤ → ℤ) → Client → ℤ
finalize close client = close client.socket

-- The request that `send_conf` fills in, with the type and size of a case: first its tag and the
-- two numbers, then the name.
unfoldable pub request_head : Mem → (type : ℤ) → (room_size : ℕ) → Mem
unfolding put put_int
request_head raw type room_size =
    put (put (put_int raw CPack.type c_join) CPack.req_type (to_char type)) CPack.room_size
      room_size

unfoldable pub request_packet : Mem → Mem → (type : ℤ) → (room_size : ℕ) → Mem
unfolding request_head put_bytes
request_packet raw username type room_size =
    put_bytes (request_head raw type room_size) CPack.username
      (strncpy username_len (bytes username 0 username_len))

-- `send_conf`
unfoldable pub send_conf : Mem → (sent : ℤ) → Client → (type size : ℕ) → ℤ × Option Mem
unfolding request_packet sendto_server
send_conf raw sent client type size =
    if eqb_ℤ (signed type) req_join
    then sendto_server sent (request_packet raw client.username req_join user_count)
    else if eqb_ℤ (signed type) req_create
    then sendto_server sent (request_packet raw client.username req_create size)
    else (code_failure, none)

-- Lines 90 to 98: the room as an S_WAIT packet describes it.
unfoldable pub read_wait : Mem → RoomInfo → RoomInfo
read_wait m room = record {
  occupancy = m SPack.occupancy;
  room_size = m SPack.room_size;
  id = m SPack.id;
  usernames = λ idx.
      if ltb idx user_count
      then strncpy username_len (bytes m (SPack.usernames idx) username_len)
      else room.usernames idx;
  score = λ idx. if ltb idx user_count then 0 else room.score idx;
}

-- `wait_for_players`; `none` is the null pointer.
unfoldable pub wait_for_players :
    Mem → (delivered : Option (List ℕ)) → Option RoomInfo → ℤ × Option RoomInfo
wait_for_players raw delivered none = (code_failure, none)
wait_for_players raw delivered (some room) =
    let (code, room_conf) = recvfrom_server delivered raw in
    let room' = read_wait room_conf room in
    if eqb_ℤ code code_failure
    then (code_failure, some room)
    else if get_int room_conf SPack.type == s_wait
    then (if ltb room'.occupancy room'.room_size then wait_more else start_game, some room')
    else (code_failure, some room)

-- `is_loser`. An id past the end of `score[]` has no defined result.
unfoldable pub is_loser : RoomInfo → Option ℤ
is_loser room =
    if ltb room.id user_count
    then some (if ltb_ℤ (pos 0) (signed (room.score room.id)) then pos 0 else pos 1)
    else none

-- Lines 141 to 143.
unfoldable pub read_scores : Mem → RoomInfo → RoomInfo
read_scores m room = record room {
  score = λ idx. if ltb idx user_count then m (SPack.score idx) else room.score idx;
}

-- Lines 149 to 152.
unfoldable pub read_unit : Mem → ShownUnit → ShownUnit
read_unit m unit = record {
  quest = strncpy q_len (bytes m SPack.quest q_len);
  ans = λ it.
      if ltb it answer_count then strncpy a_len (bytes m (SPack.ans it) a_len) else unit.ans it;
}

-- `get_unit` on pointers that are not null: the code, the unit and the room.
unfoldable pub read_question : Mem → ShownUnit → RoomInfo → Option (ℤ × ShownUnit × RoomInfo)
read_question room_conf unit room =
    if room_conf SPack.quest_num == 0
    then some (game_over, unit, room)
    else (let room' = read_scores room_conf room in
        is_loser room' >>= λ loser.
        if eqb_ℤ loser (pos 0)
        then some (game_cont, read_unit room_conf unit, room')
        else some (game_over, unit, room'))

-- `get_unit`; `null` pointers are refused before anything is received.
unfoldable pub get_unit :
    Mem
    → (delivered : Option (List ℕ)) → Option ShownUnit
    → Option RoomInfo
    → Option (ℤ × Option ShownUnit × Option RoomInfo)
get_unit raw delivered none room = some (code_failure, none, room)
get_unit raw delivered (some unit) none = some (code_failure, some unit, none)
get_unit raw delivered (some unit) (some room) =
    let (code, room_conf) = recvfrom_server delivered raw in
    if eqb_ℤ code code_failure
    then some (code_failure, some unit, some room)
    else read_question room_conf unit room >>= λ (code', unit', room').
        some (code', some unit', some room')

-- The packet that `send_ans` fills in; the time stamp is the 16 bytes of a `struct timeval`.
unfoldable pub answer_packet : Mem → (ans : ℕ) → (timestamp : List ℕ) → Mem
unfolding put put_int put_bytes
answer_packet raw ans timestamp =
    put_bytes (put (put_int raw CPack.type c_ans) CPack.ans ans) CPack.timestamp timestamp

-- `send_ans`; the answer is a `char`.
unfoldable pub send_ans : Mem → (sent : ℤ) → (ans : ℕ) → (timestamp : List ℕ) → ℤ × Option Mem
unfolding sendto_server
send_ans raw sent ans timestamp =
    if ltb_ℤ (signed ans) (pos 0) || leb_ℤ (pos answer_count) (signed ans)
    then (code_failure, none)
    else sendto_server sent (answer_packet raw ans timestamp)
