-- ===== src/Room/Overflow.antt =====
-- What happens in `room_fsm` (src/room.c) to a room whose size nobody checked: the WAIT state leaves
-- only when `last_plr_id + 1 == room_size`, and writes past `players[]` before that.
use intellect_battle.Prelude.{
  ℕ, zero, suc, ◌+◌, ◌≤◌, ◌<◌, ◌≡◌, refl, ◌⊎◌, none, some, List, [], ◌∷◌, arith, length, lt→ltb,
  ltb-eq-false, All, result, Returns, Returns-of_some,
}
use intellect_battle.Packet.{JoinInfo}
use intellect_battle.Units.{Heap}
use intellect_battle.Room.State.{Room, Input, wait, set_at}
use intellect_battle.Room.Lobby.{wait_step}
use intellect_battle.Room.Machine.{step, run}
use intellect_battle.Room.Safety.{HasText, wait_packet-Returns}

-- The queue delivers a player with a proper user name.
abbrev pub Joins : Input → Type 0
Joins io = (msg : JoinInfo) × (io.msgrcv ≡ some msg) × HasText msg.player.username

-- A size that the count of players does not meet from `last` on while the arrays last.
abbrev pub IsUnmet : Room → Type 0
IsUnmet r = (r.room_size ≤ r.last_plr_id) ⊎ (4 < r.room_size)

-- What a further player leaves behind in such a room.
record Waits (r r' : Room) : Type 0 where
  state : r'.state ≡ wait
  size : r'.room_size ≡ r.room_size
  last : r'.last_plr_id ≡ r.last_plr_id + 1

wait_step-more :
    (io : Input) (r : Room)
    → r.last_plr_id < 4
    → IsUnmet r
    → Joins io
    → Returns (λ (r', es). Waits r r') (wait_step io r)
unfolding wait_step set_at
wait_step-more io r room unmet (msg, e, text) =
    let (packet, written, _) =
      result (wait_packet-Returns r.spack r.last_plr_id r.room_size msg.player text) in
    rw (e, lt→ltb r.last_plr_id 4 room, written) (Returns-of_some _ refl (ground arith))

wait_step-past : (io : Input) (r : Room) → r.last_plr_id ≡ 4 → Joins io → wait_step io r ≡ none
unfolding wait_step set_at
wait_step-past io r four (msg, e, text) = rw (e, ltb-eq-false r.last_plr_id 4 (omega arith))

IsUnmet-Waits : (r r' : Room) → IsUnmet r → Waits r r' → IsUnmet r'
IsUnmet-Waits r r' unmet w = omega arith

-- With `left` free places, the player after the last free place is written past the arrays.
overflow_from :
    (h : Heap) (left : ℕ) (ios : List Input) (r : Room)
    → r.state ≡ wait
    → r.last_plr_id + left ≡ 4
    → IsUnmet r
    → length ios ≡ suc left
    → All Joins ios
    → run h ios r ≡ none
unfolding run step
overflow_from h left [] r at full unmet count joins = absurd (omega arith)
overflow_from h zero (io ∷ ios) r at full unmet count (one, more) =
    rw (at, wait_step-past io r (omega arith) one)
overflow_from h (suc left) (io ∷ ios) r at full unmet count (one, more) =
    let ((r', es), e, w) = result (wait_step-more io r (omega arith) unmet one) in
    rw (
      at,
      e,
      overflow_from h left ios r' w.state (omega (arith, w.last)) (IsUnmet-Waits r r' unmet w)
          (omega arith) more,
    )

-- A room in WAIT that was opened for 0, 1 or more than 4 players: if four more players with proper
-- names join, the run has no defined result, since a player is written past the end of `players[]`.
pub bad_size-overflows :
    (h : Heap) (ios : List Input) (r : Room)
    → r.state ≡ wait
    → r.last_plr_id ≡ 1
    → (r.room_size < 2) ⊎ (4 < r.room_size)
    → length ios ≡ 4
    → All Joins ios
    → run h ios r ≡ none
bad_size-overflows h ios r at first bad count joins =
    overflow_from h 3 ios r at (omega arith) (omega arith) count joins
