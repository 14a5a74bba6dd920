-- ===== src/Room/WholeGame.antt =====
-- A whole game of `room_fsm` (src/room.c) takes the course of `Rules`.
use intellect_battle.Prelude.{
  ℕ, zero, suc, ◌+◌, ◌<◌, ◌≤◌, ◌≡◌, refl, ap, sym, subst, ◌∙◌, inl, inr, List, [], ◌∷◌, arith,
  length, leb, Bool-cases, Returns_at, result, All,
}
use intellect_battle.Units.{Heap, Ptr}
use intellect_battle.Room.State.{Room, Input, game}
use intellect_battle.Room.Game.{next_quest}
use intellect_battle.Room.Safety.{Ring, Inv, game_step-Inv}
use intellect_battle.Room.Rules.{Standing, IsWhole, receivers}
use intellect_battle.Room.Loops.{Scores}
use intellect_battle.Room.Scoring.{game_step-rule}
use intellect_battle.Room.Survivor.{keeps_size}
use intellect_battle.Room.Course.{
  Level, Follows, IsRound-of, Follows-end, Follows-over, Follows-next, round_rule-Level,
  question_of,
}

module _ (On : Ptr → Type 0) (h : Heap) (ring : Ring On h) where
  next_number :
      (played : ℕ) → played < 15 → next_quest (question_of played) ≡ question_of (played + 1)
  unfolding next_quest
  next_number played small = ground arith

  follows :
      (left played : ℕ) (ios : List Input) (r : Room) (st : ℕ → Standing)
      → played + left ≡ 15
      → length ios ≡ suc left
      → Inv On r
      → r.state ≡ game
      → r.quest_num ≡ question_of played
      → Scores r st
      → Level played st
      → All (λ io. (id : ℕ) → IsWhole (io.recv id)) ios
      → Follows On h ios played r st
  follows zero played [] r st sum count v at number scored level whole = absurd (omega arith)
  follows (suc left) played [] r st sum count v at number scored level whole = absurd (omega arith)
  follows zero played (io ∷ ios) r st sum count v at number scored level whole =
      let last : played ≡ 15 = omega arith in
      subst (λ k. Follows On h (io ∷ ios) k r st) (sym last)
        (Follows-end On h io ios r st at (number ∙ rw last refl) scored
          (subst (λ k. Level k st) last level))
  follows (suc left) played (io ∷ ios) r st sum count v at number scored level (whole, more) =
      let small : played < 15 = omega arith in
      let (p, u, on, round) = IsRound-of On h ring io played r st small v at number scored level in
      elim (Bool-cases (leb (receivers io st r.room_size 0) 1)) [
        | inl few ↦ Follows-over On h io ios played r st p u small on round at level (ground arith)
        | inr many ↦
            let many' : 2 ≤ receivers io st r.room_size 0 = ground arith in
            let ((r', es), plays, (same, next, scored')) =
              result (game_step-rule h io r p u st round many' whole) in
            let v' = Returns_at (game_step-Inv On h io r ring v at) plays in
            let size = Returns_at (keeps_size h io r p u st round) plays in
            Follows-next On h io ios played r r' es st p u small on round at many' plays size (
              follows left (played + 1) ios r' _ (omega arith) (omega arith) v' (same ∙ at)
                (next ∙ ap next_quest number ∙ next_number played small) scored'
                (round_rule-Level io u.rans played st level) more)
      ]

  -- A game that begins with question 1, with a score of 0 for each player who has not been lost in the lobby,
  -- takes the course of `game_course`, if each `recv` of an answer fails or delivers the answer byte.
  pub game-Follows :
      (ios : List Input) (r : Room) (st : ℕ → Standing)
      → Inv On r
      → r.state ≡ game
      → r.quest_num ≡ 1
      → Scores r st
      → Level 0 st
      → length ios ≡ 16
      → All (λ io. (id : ℕ) → IsWhole (io.recv id)) ios
      → Follows On h ios 0 r st
  game-Follows ios r st v at number scored level count whole =
      follows 15 0 ios r st refl count v at number scored level whole
