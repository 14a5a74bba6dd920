-- ===== src/System/Answering.antt =====
-- From the client's `send_ans` (src/client_logic.c) to the room's verdict (src/room.c).
use intellect_battle.Prelude.{
  ℕ, ◌+◌, ◌-◌, ◌<◌, ◌≤◌, ◌≡◌, refl, ap, sym, ◌∙◌, Option, some, none, List, ℤ, arith, ◌==◌,
  if◌then◌else◌, is_negative,
}
use native.Mathlib.Decide.{dec_lt}
use intellect_battle.Memory.{Mem, bytes}
use intellect_battle.Memory.Laws.{length-bytes, get_or-bytes}
use intellect_battle.Packet.{Player}
use intellect_battle.Packet.CPack
use intellect_battle.Room.State.{Input}
use intellect_battle.Room.Game.{Round, judge}
use intellect_battle.Room.Loops.{get_or-take}
use intellect_battle.Client.Logic.{send_ans, answer_packet, code_success, code_failure}

-- `send_ans` refuses an answer outside 0 to 3, and sends nothing then.
pub send_ans-refuses :
    (raw : Mem) (sent : ℤ) (ans : ℕ) (timestamp : List ℕ)
    → 4 ≤ ans
    → ans < 256
    → send_ans raw sent ans timestamp ≡ (code_failure, none)
unfolding send_ans
send_ans-refuses raw sent ans timestamp out char = ground arith

-- An answer from 0 to 3 is sent, in the byte that the room reads.
pub send_ans-sends :
    (raw : Mem) (sent : ℤ) (ans : ℕ) (timestamp : List ℕ)
    → ans < 4
    → (m : Mem) × (send_ans raw sent ans timestamp
        ≡ ((if is_negative sent then code_failure else code_success), some m))
      × (m CPack.ans ≡ ans)
unfolding send_ans
send_ans-sends raw sent ans timestamp known =
    (answer_packet raw ans timestamp, ground arith, unfold answer_packet in refl)

-- What the room makes of an answer that arrives in full from a player who is in the game.
verdict :
    (io : Input) (players : ℕ → Player) (rans id n : ℕ) (s : Round) (m : Mem)
    → s.score id < 127
    → 9 ≤ n
    → io.recv id ≡ some (bytes m 0 n)
    → (judge io players rans id s).score id ≡ (if m CPack.ans == rans then s.score id + 1 else 255)
unfolding judge
verdict io players rans id n s m playing full got =
    ground (
      arith,
      get_or-take 56 8 (bytes m 0 n) (s.cpack 8),
      get_or-bytes m 0 n 8 0,
      length-bytes m 0 n,
    )

-- The client numbers the four options from 0, and the units file numbers them from 1: a player who
-- chooses the right option, number `rans` in the file, sends `rans - 1`. If at least 9 bytes of
-- that packet arrive while the player's score is below 127, the room sets the score to 255, the char
-- of PLR_LOST, which is that of a wrong answer.
pub right_option-loses :
    (raw : Mem) (sent : ℤ) (timestamp : List ℕ) (io : Input) (players : ℕ → Player) (rans id n : ℕ)
    (s : Round) (m : Mem)
    → 1 ≤ rans
    → rans ≤ 4
    → s.score id < 127
    → 9 ≤ n
    → (send_ans raw sent (rans - 1) timestamp).1 ≡ some m
    → io.recv id ≡ some (bytes m 0 n)
    → (judge io players rans id s).score id ≡ 255
right_option-loses raw sent timestamp io players rans id n s m low high playing full sends got =
    let (m', result, answer) = send_ans-sends raw sent (rans - 1) timestamp (omega arith) in
    let same : some m' ≡ some m = sym (ap (λ (p : ℤ × Option Mem). p.1) result) ∙ sends in
    let at : m CPack.ans ≡ rans - 1 = cc in ground (arith, verdict io players rans id n s m, at)

-- A question whose right option is the fourth cannot be answered: of a player whose score is
-- below 127, every answer that the client can send, if at least 9 bytes of it arrive, sets the score
-- to 255, the char of PLR_LOST.
pub fourth_option-unreachable :
    (raw : Mem) (sent : ℤ) (ans : ℕ) (timestamp : List ℕ) (io : Input) (players : ℕ → Player)
    (id n : ℕ) (s : Round) (m : Mem)
    → ans < 256
    → s.score id < 127
    → 9 ≤ n
    → (send_ans raw sent ans timestamp).1 ≡ some m
    → io.recv id ≡ some (bytes m 0 n)
    → (judge io players 4 id s).score id ≡ 255
fourth_option-unreachable raw sent ans timestamp io players id n s m char playing full sends got =
    elim (dec_lt ans 4) [
      | yes known ↦
          let (m', result, answer) = send_ans-sends raw sent ans timestamp known in
          let same : some m' ≡ some m = sym (ap (λ (p : ℤ × Option Mem). p.1) result) ∙ sends in
          let at : m CPack.ans ≡ ans = cc in ground (arith, verdict io players 4 id n s m, at)
      | no out ↦
          let refused = send_ans-refuses raw sent ans timestamp (omega arith) char in
          let nothing : none ≡ some m = sym (ap (λ (p : ℤ × Option Mem). p.1) refused) ∙ sends in cc
    ]
