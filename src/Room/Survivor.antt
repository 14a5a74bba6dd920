-- ===== src/Room/Survivor.antt =====
-- The last player in a game of `room_fsm` (src/room.c) is asked once more.
use intellect_battle.Prelude.{
  ℕ, zero, suc, ◌+◌, ◌<◌, ◌≤◌, ◌≡◌, ◌≢◌, refl, sym, ◌∙◌, ap, inl, inr, true, false, some, List,
  arith, ◌==◌, Bool-cases, Returns, result, returns, Returns_at, Returns-of_some, get_or,
}
use intellect_battle.Packet.CPack
use intellect_battle.Units.{Heap, UnitNode, Ptr}
use intellect_battle.Room.State.{Room, Input, game}
use intellect_battle.Room.Game.{game_step}
use intellect_battle.Room.Rules.{
  Standing, playing, lost, char_of, told, answered, round_rule, reaches, answer_of, IsWhole,
  is_told, receivers,
}
use intellect_battle.Room.Scoring.{IsRound, game_step-rule, game_step-play}
use intellect_battle.Room.Course.{play-size}

receivers-one :
    (io : Input) (st : ℕ → Standing) (rounds id a : ℕ)
    → id ≤ a
    → a < id + rounds
    → is_told (st a) ≡ true
    → reaches io a ≡ true
    → 1 ≤ receivers io st rounds id
unfolding receivers
receivers-one io st zero id a low high is heard = absurd (omega arith)
receivers-one io st (suc rounds) id a low high is heard = elim (Bool-cases (a == id)) [
  | inl e ↦
      let here : a ≡ id = ground arith in
      rw (ap is_told (ap st (sym here)) ∙ is, ap (reaches io) (sym here) ∙ heard) (omega arith)
  | inr e ↦
      omega (arith, receivers-one io st rounds (suc id) a (ground arith) (omega arith) is heard)
]

-- Two players whom the question reaches.
receivers-two :
    (io : Input) (st : ℕ → Standing) (rounds id a b : ℕ)
    → a ≢ b
    → id ≤ a
    → id ≤ b
    → a < id + rounds
    → b < id + rounds
    → is_told (st a) ≡ true
    → is_told (st b) ≡ true
    → reaches io a ≡ true
    → reaches io b ≡ true
    → 2 ≤ receivers io st rounds id
unfolding receivers
receivers-two io st zero id a b apart low low' high high' is is' heard heard' = absurd (omega arith)
receivers-two io st (suc rounds) id a b apart low low' high high' is is' heard heard' =
    elim (Bool-cases (a == id)) [
      | inl e ↦
          let here : a ≡ id = ground arith in
          rw (ap is_told (ap st (sym here)) ∙ is, ap (reaches io) (sym here) ∙ heard)
            (omega
              (arith, receivers-one io st rounds (suc id) b (omega arith) (omega arith) is' heard'))
      | inr e ↦ elim (Bool-cases (b == id)) [
        | inl e' ↦
            let here : b ≡ id = ground arith in
            rw (ap is_told (ap st (sym here)) ∙ is', ap (reaches io) (sym here) ∙ heard')
              (omega (
                arith,
                receivers-one io st rounds (suc id) a (ground arith) (omega arith) is heard,
              ))
        | inr e' ↦ omega (
          arith,
          receivers-two io st rounds (suc id) a b apart (ground arith) (ground arith) (omega arith)
              (omega arith) is is' heard heard',
        )
      ]
    ]

missed :
    (io : Input) (rans n a : ℕ) (bs : List ℕ) (s : Standing)
    → s ≡ playing n
    → reaches io a ≡ true
    → io.recv a ≡ some bs
    → get_or bs CPack.ans 0 ≢ rans
    → char_of (round_rule (reaches io a) (answer_of (io.recv a)) rans s) ≡ 255
unfolding round_rule told answered char_of
missed io rans n a bs s plays heard sent wrong =
    let differs : (get_or bs CPack.ans 0 == rans) ≡ false = ground arith in
    rw (plays, heard, sent, differs) refl

pub keeps_size :
    (h : Heap) (io : Input) (r : Room) (p : Ptr) (u : UnitNode) (st : ℕ → Standing)
    → IsRound h io r p u st
    → Returns (λ (r', es). r'.room_size ≡ r.room_size) (game_step h io r)
keeps_size h io r p u st round =
    let (texts, plays) = game_step-play h io r p u st round in rw plays (returns (play-size io u _))

-- A round of a game with a question, which reaches the player `a`, who is still playing, and another, `b`, who
-- has lost in the round before, where each `recv` of an answer fails or delivers the answer byte. Whoever else
-- plays, nobody at all included, the room asks `a`: if the byte that `a` sends is not the number of the
-- unit, `a` has lost, with 255 for a score, the char of PLR_LOST, and the game goes on. So a player
-- who "just stayed last" has not won yet, as README.md says, but can still lose.
pub survivor-loses :
    (h : Heap) (io : Input) (r : Room) (p : Ptr) (u : UnitNode) (st : ℕ → Standing) (a b n : ℕ)
    (bs : List ℕ)
    → IsRound h io r p u st
    → r.state ≡ game
    → a < r.room_size
    → b < r.room_size
    → st a ≡ playing n
    → st b ≡ lost
    → reaches io a ≡ true
    → reaches io b ≡ true
    → ((id : ℕ) → IsWhole (io.recv id))
    → io.recv a ≡ some bs
    → get_or bs CPack.ans 0 ≢ u.rans
    → Returns
        (λ (r', es). (r'.state ≡ game) × (r'.room_size ≡ r.room_size) × (r'.score a ≡ 255))
        (game_step h io r)
unfolding is_told
survivor-loses h io r p u st a b n bs round at in_room in_room' plays has_lost heard heard' whole
      sent wrong =
    let apart : a ≢ b = λ same. told_apart (sym plays ∙ ap st same ∙ has_lost) in
    let many =
      receivers-two io st r.room_size 0 a b apart (omega arith) (omega arith) (omega arith)
        (omega arith) (rw plays refl) (rw has_lost refl) heard heard' in
    let ((r', es), acts, (same, next, scored)) =
      result (game_step-rule h io r p u st round many whole) in
    let size : r'.room_size ≡ r.room_size = Returns_at (keeps_size h io r p u st round) acts in
    Returns-of_some _ acts (
      same ∙ at,
      size,
      scored a (omega arith) ∙ missed io u.rans n a bs (st a) plays heard sent wrong,
    )
  where
    told_apart : ¬ (playing n ≡ lost)
    told_apart e = cc
