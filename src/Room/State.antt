-- ===== src/Room/State.antt =====
-- The local variables of `room_fsm`, what the environment answers in one round of its loop, and the
-- counted loop that its states share (src/room.c, include/room.h).
use intellect_battle.Prelude.{
  ℕ, zero, suc, ◌+◌, ◌≤◌, ◌<◌, ◌≡◌, ◌&&◌, Option, none, some, List, ℤ, pos, negsuc, ltb, leb, ◌==◌,
  if◌then◌else◌, length, take, arith,
}
use intellect_battle.Memory.{Mem, put_bytes}
use intellect_battle.Packet.{user_count, Player, JoinInfo}
use intellect_battle.Units.{Ptr}

abbrev pub last_quest : ℕ
last_quest = 15

abbrev pub plr_disconnect : ℤ
plr_disconnect = negsuc 1

abbrev pub plr_lost : ℤ
plr_lost = negsuc 0

abbrev pub max_step : ℕ
max_step = 5

-- `enum State`
pub data State : Type 0 where
  init wait game gameover fin exit : State

-- `room_t`
pub record RoomInfo : Type 0 where
  pub msgqid : ℕ
  pub sync : ℕ
  pub units : Ptr

-- The variables that live across rounds of the loop. A `char` is held as its byte.
pub record Room : Type 0 where
  pub state : State
  pub cur_unit : Ptr
  pub spack : Mem
  pub cpack : Mem
  pub score : ℕ → ℕ
  pub players : ℕ → Player
  pub room_size : ℕ
  pub last_plr_id : ℕ
  pub quest_num : ℕ

-- What the kernel and libc answer in one round. A round asks the queue at most once, and sends to
-- and receives from each player at most once, so the answers are given by the player's id:
-- the message of `msgrcv` (`none`: it failed), the result of each `send`, the bytes that each
-- `recv` delivers (`none`: it failed; `some []`: the peer has closed), and `rand()`.
pub record Input : Type 0 where
  pub msgrcv : Option JoinInfo
  pub send : ℕ → ℤ
  pub recv : ℕ → Option (List ℕ)
  pub rand : ℕ

-- The calls on sockets, in order. `send` carries the packet's bytes.
pub data Event : Type 0 where
  send : (socket : ℕ) → Mem → Event
  recv : (socket : ℕ) → Event
  close : (socket : ℕ) → Event

-- A write to `players[]` or `score[]`. Past the end of the array it has no defined result.
unfoldable pub set_at {ℓ} : {A : Type ℓ} → (ℕ → A) → ℕ → A → Option (ℕ → A)
set_at a i v = if ltb i user_count then some (λ j. if j == i then v else a j) else none

-- The same write where the index is known to lie in the array.
unfoldable pub assign {ℓ} : {A : Type ℓ} → (ℕ → A) → ℕ → A → (ℕ → A)
assign a i v = λ j. if j == i then v else a j

-- `recvfrom_user`: the result of `recv`, and the buffer after it. The kernel writes at most
-- `data_size` bytes.
unfoldable pub recvfrom_user : Option (List ℕ) → Mem → ℕ → ℤ × Mem
unfolding put_bytes
recvfrom_user none buffer data_size = (negsuc 0, buffer)
recvfrom_user (some bs) buffer data_size =
    let got = take data_size bs in (pos (length got), put_bytes buffer 0 got)

-- `for (id = from; id < from + rounds; ++id) body`
unfoldable pub for_each {ℓ} : {S : Type ℓ} → ℕ → ℕ → (ℕ → S → S) → S → S
for_each zero id body s = s
for_each (suc rounds) id body s = for_each rounds (suc id) body (body id s)

-- What the body keeps below a bound, a loop below that bound keeps.
pub for_each_inv {ℓ κ} :
    {S : Type ℓ} (P : S → Type κ) (hi : ℕ) (body : ℕ → S → S)
    → ((id : ℕ) (s : S) → id < hi → P s → P (body id s))
    → (rounds id : ℕ) (s : S) → id + rounds ≤ hi
    → P s
    → P (for_each rounds id body s)
unfolding for_each
for_each_inv P hi body keep zero id s h p = p
for_each_inv P hi body keep (suc rounds) id s h p =
    for_each_inv P hi body keep rounds (suc id) (body id s) (omega arith)
      (keep id s (omega arith) p)

-- A loop whose body changes entry `id` of an array only, by `g id`, changes each entry in its range
-- once, and no other.
pub for_each-at {ℓ κ} :
    {S : Type ℓ} {V : Type κ} (entry : S → ℕ → V) (g : ℕ → V → V) (body : ℕ → S → S)
    → ((id j : ℕ) (s : S)
        → entry (body id s) j ≡ (if j == id then g id (entry s id) else entry s j))
    → (rounds id j : ℕ) (s : S)
    → entry (for_each rounds id body s) j
      ≡ (if leb id j && ltb j (id + rounds) then g j (entry s j) else entry s j)
unfolding for_each
for_each-at entry g body local zero id j s = ground arith
for_each-at entry g body local (suc rounds) id j s =
    ground (arith, for_each-at entry g body local rounds (suc id) j (body id s), local id j s)
