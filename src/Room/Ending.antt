-- ===== src/Room/Ending.antt =====
-- A game of `room_fsm` (src/room.c) comes to its end.
use intellect_battle.Prelude.{
  ℕ, zero, suc, ◌+◌, ◌-◌, ◌%◌, ◌<◌, ◌≤◌, ◌≡◌, ◌≢◌, refl, ap, ◌∙◌, ◌⊎◌, inl, inr, List, [], ◌∷◌,
  arith, length, take, ◌==◌, if◌then◌else◌, Bool-cases, Returns, bind, returns, result, Yields,
  fails, yields, chain, Returns-Yields, leb,
}
use intellect_battle.Memory.{Mem}
use intellect_battle.Units.{Heap, UnitNode, Ptr, walk}
use intellect_battle.Room.State.{Room, Input, Event, game, gameover, last_quest, max_step}
use intellect_battle.Room.Game.{put_question, put_round, play, game_step, next_quest}
use intellect_battle.Room.Machine.{step, run, dispatch}
use intellect_battle.Room.Safety.{Ring, Inv, game_step-Inv}

-- How many more rounds the game can have.
abbrev pub rounds_left : ℕ → ℕ
rounds_left n = if n == 0 then 0 else 16 - n

-- A round ends the game, or brings its end nearer.
abbrev pub Progress : Room → Room × List Event → Type 0
Progress r (r', es) =
    (r'.state ≡ gameover)
    ⊎ ((r'.state ≡ r.state) × (rounds_left r'.quest_num < rounds_left r.quest_num))

pub step-game : (h : Heap) (io : Input) (r : Room) → r.state ≡ game → step h io r ≡ game_step h io r
unfolding step
step-game h io r at = ap (λ s. dispatch s h io r) at

play-Progress :
    (io : Input) (u : UnitNode) (r : Room)
    → r.quest_num ≢ 0
    → r.quest_num ≤ last_quest
    → Progress r (play io u r)
unfolding play next_quest
play-Progress io u r numbered small = ground arith

pub game_step-Progress :
    (h : Heap) (io : Input) (r : Room)
    → r.quest_num ≤ last_quest
    → Yields (Progress r) (game_step h io r)
unfolding game_step
game_step-Progress h io r small = elim (Bool-cases (r.quest_num == 0)) [
  | inl z ↦ rw z (yields (inl refl))
  | inr nz ↦ rw nz (
      chain (walk h (io.rand % max_step + 1) r.cur_unit) λ p _. chain (h p) λ u _.
        chain (put_question r.spack u) λ texts _. elim (Bool-cases (leb r.room_size 4)) [
          | inl fits ↦ rw fits (yields (posed p u texts (ground arith)))
          | inr not_fits ↦ rw not_fits fails
        ])
]
  where
    posed :
        (p : Ptr) (u : UnitNode) (texts : Mem)
        → r.quest_num ≢ 0
        → Progress r (
            play io u
              (record r { cur_unit = p; spack = put_round texts r.score r.room_size r.quest_num }))
    posed p u texts numbered =
        play-Progress io u
          (record r { cur_unit = p; spack = put_round texts r.score r.room_size r.quest_num })
          numbered small

module _ (On : Ptr → Type 0) (h : Heap) (ring : Ring On h) where
  ends_within :
      (k : ℕ) (ios : List Input) (r : Room)
      → Inv On r
      → r.state ≡ game
      → rounds_left r.quest_num < k
      → length ios ≡ k
      → (n : ℕ) × (n ≤ k)
        × Returns (λ (r', es). Inv On r' × (r'.state ≡ gameover)) (run h (take n ios) r)
  unfolding run
  ends_within zero ios r v at short count = absurd (omega arith)
  ends_within (suc k) [] r v at short count = absurd (omega arith)
  ends_within (suc k) (io ∷ ios) r v at short count =
      let ((r', es), e, (v', moved)) = result (
        Returns-Yields (game_step-Inv On h io r ring v at)
          (game_step-Progress h io r v.round_bound)) in
      elim moved [
        | inl over ↦ (1, omega arith, rw (step-game h io r at ∙ e) (returns (v', over)))
        | inr (same, less) ↦
            let (n, few, rest) = ends_within k ios r' v' (same ∙ at) (omega arith) (omega arith) in
            (
              suc n,
              omega arith,
              rw (step-game h io r at ∙ e) (bind rest λ (r'', es'') last. returns last),
            )
      ]

  -- From any round of a game that satisfies the invariant, at most 16 rounds of the loop lead to GAMEOVER, whatever the players,
  -- the network and the random numbers do.
  pub game_ends :
      (ios : List Input) (r : Room)
      → Inv On r
      → r.state ≡ game
      → length ios ≡ 16
      → (n : ℕ) × (n ≤ 16)
        × Returns (λ (r', es). Inv On r' × (r'.state ≡ gameover)) (run h (take n ios) r)
  game_ends ios r v at count = ends_within 16 ios r v at (ground arith) count
