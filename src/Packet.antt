-- ===== src/Packet.antt =====
-- The packets of client and server (include/packet.h, include/const.h, include/player.h,
-- include/msg_struct.h): constants, and the structures that threads pass through the message
-- queue. The children have the byte layouts of the two packets.
pub mod SPack
pub mod CPack
use intellect_battle.Prelude.{ℕ, List, ℤ, pos, negsuc}

-- include/const.h
abbrev pub q_len : ℕ
q_len = 202

abbrev pub a_len : ℕ
a_len = 82

abbrev pub ans_count : ℕ
ans_count = 4

-- include/player.h
abbrev pub username_len : ℕ
username_len = 40

-- include/packet.h
abbrev pub user_count : ℕ
user_count = 4

abbrev pub answer_count : ℕ
answer_count = 4

abbrev pub req_join : ℤ
req_join = pos 0

abbrev pub req_create : ℤ
req_create = pos 1

abbrev pub req_disconnect : ℤ
req_disconnect = negsuc 0

abbrev pub s_wait : ℕ
s_wait = 0

abbrev pub s_game : ℕ
s_game = 1

abbrev pub c_join : ℕ
c_join = 0

abbrev pub c_ans : ℕ
c_ans = 1

-- `player_t`. The user name is the content of a char array of `username_len` bytes.
pub record Player : Type 0 where
  pub socket : ℕ
  pub username : List ℕ

-- The types of queue messages (include/msg_struct.h); a room first asks for `MSG_ROOM`.
abbrev pub msg_join : ℤ
msg_join = pos 1

abbrev pub msg_create : ℤ
msg_create = pos 2

abbrev pub msg_wrk : ℤ
msg_wrk = pos 3

abbrev pub msg_room : ℤ
msg_room = negsuc 1

-- `con_t`, from the server to a worker.
pub record Connection : Type 0 where
  pub type : ℤ
  pub socket : ℕ

-- `join_t`, from a worker to a room.
pub record JoinInfo : Type 0 where
  pub type : ℤ
  pub room_size : ℕ
  pub player : Player
