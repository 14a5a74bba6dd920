-- ===== src/Room/Evening.antt =====
-- A game of `room_fsm` (src/room.c) from the lobby to its end.
use intellect_battle.Prelude.{
  ℕ, ◌≡◌, refl, inl, inr, List, ◌==◌, if◌then◌else◌, some, length, All, Returns_at, Yields_at, Bool,
  true, false,
}
use intellect_battle.Units.{Heap, Ptr}
use intellect_battle.Room.State.{Room, Input, Event, init, wait, game}
use intellect_battle.Room.Machine.{step, run}
use intellect_battle.Room.Safety.{Ring, Inv, Admissible, step-Inv}
use intellect_battle.Room.Rules.{Standing, playing, gone, char_of, IsWhole}
use intellect_battle.Room.Opening.{IsNew, NewUpTo, run-Opening, step-Begins}
use intellect_battle.Room.Course.{Level, Follows}
use intellect_battle.Room.WholeGame.{game-Follows}

-- The standing with which a player begins: with no points, or gone.
unfoldable pub begun : ℕ → Standing
begun n = if n == 0 then playing 0 else gone

begun-char : (n : ℕ) → IsNew n → n ≡ char_of (begun n)
unfolding begun char_of
begun-char n (inl none) = rw none refl
begun-char n (inr dropped) = rw dropped refl

begun-playing : (b : Bool) (k : ℕ) → (if b then playing 0 else gone) ≡ playing k → k ≡ 0
begun-playing true k e = cc
begun-playing false k e = cc

begun-Level : (score : ℕ → ℕ) → Level 0 (λ j. begun (score j))
unfolding begun
begun-Level score j k e = begun-playing (score j == 0) k e

module _ (On : Ptr → Type 0) (h : Heap) (ring : Ring On h) where
  -- A game from its first round on.
  pub begun-Follows :
      (ios : List Input) (r : Room)
      → Inv On r
      → r.state ≡ game
      → NewUpTo r.room_size r
      → length ios ≡ 16
      → All (λ io. (id : ℕ) → IsWhole (io.recv id)) ios
      → Follows On h ios 0 r (λ j. begun (r.score j))
  begun-Follows ios r v plays (first, new) count whole =
      game-Follows On h ring ios r (λ j. begun (r.score j)) v plays first
        (λ j below. begun-char (r.score j) (new j below)) (begun-Level r.score) count whole

  -- A room that has been in INIT, and has been opened and entered with sizes from 2 to 4 and proper names
  -- since then, passes from WAIT to GAME. Its players then have no points, except for those who were
  -- lost in the lobby. If from then on each `recv` of an answer fails or delivers the answer byte, the game
  -- takes the course that `game_course` tells player by player, with the numbers `rans` of units of the ring,
  -- one for each question: it is over within 16 rounds of the loop, the room is then in GAMEOVER, and
  -- `score[]` shows the final standings. A player who is still in the game then has one point for
  -- every round that was played to its end. In that course a player who has just lost still counts as
  -- reached, and an answer counts when its byte is `rans`.
  pub lobby-Follows :
      (before : List Input) (entry : Input) (ios : List Input) (r₀ r r' : Room)
      (es es' : List Event)
      → Inv On r₀
      → r₀.state ≡ init
      → All Admissible before
      → Admissible entry
      → run h before r₀ ≡ some (r, es)
      → r.state ≡ wait
      → step h entry r ≡ some (r', es')
      → r'.state ≡ game
      → length ios ≡ 16
      → All (λ io. (id : ℕ) → IsWhole (io.recv id)) ios
      → NewUpTo r'.room_size r' × Follows On h ios 0 r' (λ j. begun (r'.score j))
  lobby-Follows before entry ios r₀ r r' es es' v at sound sound' ran waits entered plays count
        whole =
      let (v', opens) = Returns_at (run-Opening On h before r₀ ring v (λ now. cc) sound) ran in
      let v'' = Returns_at (step-Inv On h entry r ring v' sound') entered in
      let new = Yields_at (step-Begins On h entry r v' opens waits) entered plays in
      (new, begun-Follows ios r' v'' plays new count whole)
