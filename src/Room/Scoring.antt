-- ===== src/Room/Scoring.antt =====
-- A round of `room_fsm` (src/room.c) takes the course of `Rules`, player by player.
use intellect_battle.Prelude.{
  ℕ, ◌+◌, ◌%◌, ◌<◌, ◌≤◌, ◌≡◌, ◌≢◌, refl, le→leb, result, Returns, Returns-of_some, ap, ◌∙◌, false,
  some, ◌==◌, arith,
}
use intellect_battle.Memory.{Mem}
use intellect_battle.Units.{Heap, Ptr, UnitNode, walk}
use intellect_battle.Room.State.{Room, Input, max_step, gameover}
use intellect_battle.Room.Game.{play, next_quest, game_step, put_round}
use intellect_battle.Room.Safety.{HasTexts, put_question-Returns}
use intellect_battle.Room.Rules.{
  Standing, char_of, Fits, told, round_rule, reaches, answer_of, IsWhole, receivers,
}
use intellect_battle.Room.Loops.{
  Scores, judged_score, asked_score, play-over, play-on, receivers-le,
}

-- What a round of the game starts from: the unit that it draws, and a standing for each player.
pub record IsRound (h : Heap) (io : Input) (r : Room) (p : Ptr) (u : UnitNode) (st : ℕ → Standing)
    : Type 0 where
  pub numbered : r.quest_num ≢ 0
  pub drawn : walk h (io.rand % max_step + 1) r.cur_unit ≡ some p
  pub unit_at : h p ≡ some u
  pub texts : HasTexts u
  pub sized : r.room_size ≤ 4
  pub fits : (j : ℕ) → Fits (st j)
  pub scored : (j : ℕ) → j < r.room_size → r.score j ≡ char_of (st j)

module _ (h : Heap) (io : Input) (r : Room) (p : Ptr) (u : UnitNode) (st : ℕ → Standing)
    (round : IsRound h io r p u st) where
  abbrev pub posed : Mem → Room
  posed texts = record r { cur_unit = p; spack = put_round texts r.score r.room_size r.quest_num }

  -- The round is played with the unit that was drawn.
  pub game_step-play : (texts : Mem) × (game_step h io r ≡ some (play io u (posed texts)))
  unfolding game_step
  game_step-play =
      let (texts, written, _) = result (put_question-Returns r.spack u round.texts) in
      let running : (r.quest_num == 0) ≡ false = ground (arith, round.numbered) in
      (
        texts,
        rw (running, round.drawn, round.unit_at, written, le→leb r.room_size 4 round.sized) refl,
      )

  -- A question of a round that reaches at most one player ends the game: nobody is asked for an answer, and the
  -- standings are those after the question.
  pub game_step-over :
      receivers io st r.room_size 0 ≤ 1
      → Returns
          (λ (r', es).
            (r'.state ≡ gameover)
            × (r'.quest_num ≡ r.quest_num)
            × Scores r' (λ j. told (reaches io j) (st j)))
          (game_step h io r)
  game_step-over few =
      let (texts, e) = game_step-play in
      let r₁ = posed texts in
      Returns-of_some _ (e ∙ ap some (play-over io r₁ st round.fits u round.sized round.scored few))
        (
          refl,
          refl,
          λ j below.
              asked_score io r.players r₁.spack st round.fits r.room_size j _ (round.scored j below)
                below,
        )

  -- A question of a round that reaches two players or more, those who have just lost and are now told
  -- included, where each `recv` of an answer fails or delivers the answer byte: who cannot be reached or
  -- heard is gone, who has just lost is gone, who sends the byte `rans` of the unit has one point more, who
  -- sends another byte has lost, and the next question is due.
  pub game_step-rule :
      2 ≤ receivers io st r.room_size 0
      → ((id : ℕ) → IsWhole (io.recv id))
      → Returns
          (λ (r', es).
            (r'.state ≡ r.state)
            × (r'.quest_num ≡ next_quest r.quest_num)
            × Scores r' (λ j. round_rule (reaches io j) (answer_of (io.recv j)) u.rans (st j)))
          (game_step h io r)
  game_step-rule many whole =
      let (texts, e) = game_step-play in
      let r₁ = posed texts in
      let bound : receivers io st r.room_size 0 ≤ 4 =
        omega (arith, receivers-le io st r.room_size 0, round.sized) in
      Returns-of_some _
        (e ∙ ap some (play-on io r₁ st round.fits u round.sized round.scored many bound))
        (
          refl,
          refl,
          λ j below.
              judged_score io r.players r₁.spack st round.fits u.rans r.room_size j _ whole
                (round.scored j below) below,
        )
