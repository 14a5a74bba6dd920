-- ===== src/Room/CourseTests.antt =====
-- A whole game of two players (src/room.c) at concrete inputs.
use intellect_battle.Prelude.{
  ℕ, ◌≡◌, refl, some, none, List, [], ◌∷◌, ◌++◌, replicate, arith, ◌==◌, if◌then◌else◌, Option, All,
  All-replicate, Bool-cases, inl, inr, Bool, true, false, Returns,
}
use intellect_battle.Room.State.{Room, Input, Event, wait, game}
use intellect_battle.Room.Rules.{Standing, playing, lost, char_of, Fits, IsWhole, game_course}
use intellect_battle.Room.Scoring.{IsRound}
use intellect_battle.Room.Survivor.{survivor-loses}
use intellect_battle.Room.Game.{game_step}
use intellect_battle.Units.{walk}
use intellect_battle.Room.Course.{Follows}
use intellect_battle.Room.Machine.{step, run}
use intellect_battle.Room.Opening.{NewUpTo}
use intellect_battle.Room.Evening.{begun, lobby-Follows}
use intellect_battle.Room.Tests.{
  playing_room, one_unit, one_unit-HasTexts, On, heap, heap-Ring, empty_room, empty_room-Inv,
  created, created-IsSound, joined, joined-IsSound, quiet, quiet-Admissible, room_of, events_of,
}

-- The answer 1 of the second player is wrong in the third round.
abbrev wrong : List ℕ
wrong = replicate 8 0 ++ 1 ∷ replicate 47 0

abbrev slip : Input
slip = record (quiet none) { recv = λ id. if id == 1 then some wrong else (quiet none).recv id }

abbrev evening : List Input
evening = quiet none ∷ quiet none ∷ slip ∷ replicate 13 (quiet none)

-- The game ends in the fifth round: the loser is told in the fourth.
abbrev scores_after : Option ((ℕ → Standing) × ℕ) → Option (Standing × ℕ)
scores_after none = none
scores_after (some (st, n)) = some (st 0, n)

first_player_wins :
    scores_after (game_course 2 evening (2 ∷ 2 ∷ 2 ∷ 2 ∷ 2 ∷ []) 0 (λ j. playing 0))
    ≡ some (playing 4, 4)
unfolding game_course
first_player_wins = refl

abbrev AllWhole : Input → Type 0
AllWhole io = (id : ℕ) → IsWhole (io.recv id)

slip-AllWhole : AllWhole slip
slip-AllWhole id = elim (Bool-cases (id == 1)) [
  | inl e ↦ rw e (omega arith)
  | inr e ↦ rw e (omega arith)
]

evening-whole : All AllWhole evening
evening-whole = (right, (right, (slip-AllWhole, All-replicate AllWhole 13 (quiet none) right)))
  where
    right : AllWhole (quiet none)
    right id = omega arith

-- The first player opens the room.
unfoldable opened : Option (Room × List Event)
unfolding run
opened = run heap (quiet (some created) ∷ []) empty_room

-- The second one enters.
unfoldable entered : Option (Room × List Event)
unfolding opened step
entered = step heap (quiet (some joined)) (room_of opened)

is_opened :
    run heap (quiet (some created) ∷ []) empty_room ≡ some (room_of opened, events_of opened)
unfolding opened step
is_opened = refl

is_entered :
    step heap (quiet (some joined)) (room_of opened) ≡ some (room_of entered, events_of entered)
unfolding opened entered step
is_entered = refl

waits : (room_of opened).state ≡ wait
unfolding opened step
waits = refl

plays : (room_of entered).state ≡ game
unfolding opened entered step
plays = refl

lobby-Follows_example :
    NewUpTo (room_of entered).room_size (room_of entered)
    × Follows On heap evening 0 (room_of entered) (λ j. begun ((room_of entered).score j))
lobby-Follows_example =
    lobby-Follows On heap heap-Ring (quiet (some created) ∷ []) (quiet (some joined)) evening
      empty_room (room_of opened) (room_of entered) (events_of opened) (events_of entered)
      empty_room-Inv refl (quiet-Admissible created created-IsSound, tt)
      (quiet-Admissible joined joined-IsSound) is_opened waits is_entered plays refl evening-whole

-- The first player is left, and the second has just lost.
abbrev last_one : Room
last_one = record playing_room { score = λ i. if i == 0 then 1 else 255 }

abbrev last_standings : ℕ → Standing
last_standings i = if i == 0 then playing 1 else lost

-- The first player's answer is 1, too.
abbrev last_slip : Input
last_slip = record (quiet none) { recv = λ id. some wrong }

last_one-IsRound : IsRound heap last_slip last_one 1 one_unit last_standings
unfolding walk
last_one-IsRound = record {
  numbered = omega arith;
  drawn = refl;
  unit_at = refl;
  texts = one_unit-HasTexts;
  sized = omega arith;
  fits = λ j. fits_if (j == 0);
  scored = λ j low. scored_if (j == 0);
}
  where
    fits_if : (b : Bool) → Fits (if b then playing 1 else lost)
    fits_if true = omega arith
    fits_if false = tt

    scored_if : (b : Bool) → (if b then 1 else 255) ≡ char_of (if b then playing 1 else lost)
    scored_if true = unfold char_of in refl
    scored_if false = unfold char_of in refl

survivor-loses_example :
    Returns
      (λ (r', es). (r'.state ≡ game) × (r'.room_size ≡ 2) × (r'.score 0 ≡ 255))
      (game_step heap last_slip last_one)
survivor-loses_example =
    survivor-loses heap last_slip last_one 1 one_unit last_standings 0 1 1 wrong last_one-IsRound
      refl (omega arith) (omega arith) refl refl refl refl (λ id. omega arith) refl (omega arith)
