-- ===== src/Packet/SPack.antt =====
-- Offsets in `spack_t` (include/packet.h, gcc, x86-64): an `int` tag, then the union at offset 4; 540
-- bytes with the padding. The members of the union share their offsets: a write to one is seen
-- through the other.
use intellect_battle.Prelude.{ℕ, ◌+◌, ◌*◌}

abbrev pub size : ℕ
size = 540

abbrev pub type : ℕ
type = 0

-- `p_wait`
abbrev pub occupancy : ℕ
occupancy = 4

abbrev pub room_size : ℕ
room_size = 5

abbrev pub id : ℕ
id = 6

abbrev pub usernames : ℕ → ℕ
usernames i = 7 + 40 * i

-- `p_game`
abbrev pub score : ℕ → ℕ
score i = 4 + i

abbrev pub quest_num : ℕ
quest_num = 8

abbrev pub quest : ℕ
quest = 9

abbrev pub ans : ℕ → ℕ
ans i = 211 + 82 * i
