-- ===== src/Room/Packets.antt =====
-- What the packets of `room_fsm` carry (src/room.c).
use intellect_battle.Prelude.{ℕ, ◌+◌, ◌<◌, ◌≤◌, ◌≡◌, some, arith, if◌then◌else◌, leb, ltb, ◌&&◌}
use intellect_battle.Memory.{Mem, put_int, get_int}
use intellect_battle.Memory.Laws.{get_int-put_int}
use intellect_battle.Packet.{JoinInfo, Player, s_wait, s_game}
use intellect_battle.Packet.SPack
use intellect_battle.Units.{UnitNode}
use intellect_battle.Room.State.{for_each, for_each-at, for_each_inv}
use intellect_battle.Room.Lobby.{first_packet, wait_packet}
use intellect_battle.Room.Game.{put_question, put_round, put_score}

-- The tag of a packet, as a receiver reads it.
abbrev pub tag : Mem → ℕ
tag m = get_int m SPack.type

pub first_packet-tag :
    (m : Mem) (msg : JoinInfo) {m' : Mem} → first_packet m msg ≡ some m' → tag m' ≡ s_wait
unfolding first_packet get_int
first_packet-tag m msg e = ground arith

pub wait_packet-tag :
    (m : Mem) (last size : ℕ) (p : Player) {m' : Mem}
    → wait_packet m last size p ≡ some m'
    → tag m' ≡ s_wait
unfolding wait_packet get_int
wait_packet-tag m last size p e = ground arith

pub put_question-below :
    (m : Mem) (u : UnitNode) {m' : Mem} (i : ℕ) → put_question m u ≡ some m' → i < 9 → m' i ≡ m i
unfolding put_question
put_question-below m u i e lt = ground arith

put_scores-tag :
    (score : ℕ → ℕ) (size : ℕ) (m : Mem)
    → tag m ≡ s_game
    → tag (for_each size 0 (put_score score) m) ≡ s_game
put_scores-tag score size m h =
    for_each_inv (λ m. tag m ≡ s_game) size (put_score score) (λ i m below e. kept i m e) size 0 m
      (omega arith) h
  where
    kept : (i : ℕ) (m : Mem) → tag m ≡ s_game → tag (put_score score i m) ≡ s_game
    kept i m e = unfold put_score get_int in ground arith

pub put_round-tag : (m : Mem) (score : ℕ → ℕ) (size n : ℕ) → tag (put_round m score size n) ≡ s_game
put_round-tag m score size n =
    let h = put_scores-tag score size (put_int m SPack.type s_game) (get_int-put_int m 0 1) in
    unfold put_round get_int in ground arith

pub put_round-quest_num :
    (m : Mem) (score : ℕ → ℕ) (size n : ℕ) → put_round m score size n SPack.quest_num ≡ n
unfolding put_round
put_round-quest_num m score size n = ground arith

put_scores-at :
    (score : ℕ → ℕ) (size j : ℕ) (m : Mem)
    → for_each size 0 (put_score score) m (SPack.score j)
      ≡ (if leb 0 j && ltb j (0 + size) then score j else m (SPack.score j))
put_scores-at score size j m =
    for_each-at (λ (m : Mem) j. m (SPack.score j)) (λ i v. score i) (put_score score)
      (λ i j m. unfold put_score in ground arith) size 0 j m

pub put_round-score :
    (m : Mem) (score : ℕ → ℕ) (size n i : ℕ)
    → i < size
    → size ≤ 4
    → put_round m score size n (SPack.score i) ≡ score i
put_round-score m score size n i below sized =
    let at = put_scores-at score size i (put_int m SPack.type s_game) in
    unfold put_round in ground arith
