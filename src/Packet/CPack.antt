-- ===== src/Packet/CPack.antt =====
-- Offsets in `cpack_t` (include/packet.h, gcc, x86-64): an `int` tag, then the union at offset 8,
-- where `timeval` aligns it; 56 bytes. The members of the union share their offsets.
use intellect_battle.Prelude.{ℕ}

abbrev pub size : ℕ
size = 56

abbrev pub type : ℕ
type = 0

-- `p_req`
abbrev pub req_type : ℕ
req_type = 8

abbrev pub room_size : ℕ
room_size = 9

abbrev pub username : ℕ
username = 10

-- `p_ans`
abbrev pub ans : ℕ
ans = 8

abbrev pub timestamp : ℕ
timestamp = 16
