-- ===== src/Room/Tests.antt =====
-- A room of two players on a ring of one unit: runs of `room_fsm` (src/room.c), and the theorems at
-- these inputs.
use intellect_battle.Prelude.{
  ℕ, ◌≤◌, ◌≡◌, refl, subst, inl, Option, some, none, List, [], ◌∷◌, ◌++◌, pos, arith, replicate,
  take, Returns, ◌==◌, if◌then◌else◌,
}
use mathlib.Core.Option.{some-injective}
use intellect_battle.Memory.{c_string}
use intellect_battle.Packet.{JoinInfo, Player, msg_join, msg_create}
use intellect_battle.Units.{Heap, Ptr, UnitNode, walk}
use intellect_battle.Room.State.{Event, Room, Input, init, wait, game, gameover}
use intellect_battle.Room.Game.{game_step, next_quest}
use intellect_battle.Room.Machine.{run}
use intellect_battle.Room.Safety.{HasTexts, IsSound, Admissible, Ring, Inv}
use intellect_battle.Room.Rules.{
  Standing, playing, char_of, round_rule, reaches, answer_of, receivers,
}
use intellect_battle.Room.Loops.{Scores}
use intellect_battle.Room.Scoring.{IsRound, game_step-rule}
use intellect_battle.Room.Ending.{game_ends}
use intellect_battle.Room.Overflow.{Joins, bad_size-overflows}

abbrev pub one_unit : UnitNode
one_unit = record { quest = b'Q' ∷ 0 ∷ []; ans = λ i. b'A' ∷ 0 ∷ []; rans = 2; next = 1; prev = 1 }

abbrev pub heap : Heap
heap p = if p == 1 then some one_unit else none

abbrev pub On : Ptr → Type 0
On p = p ≡ 1

pub one_unit-HasTexts : HasTexts one_unit
unfolding c_string
one_unit-HasTexts = record {
  quest = (b'Q' ∷ [], refl);
  ans0 = (b'A' ∷ [], refl);
  ans1 = (b'A' ∷ [], refl);
  ans2 = (b'A' ∷ [], refl);
  ans3 = (b'A' ∷ [], refl);
}

pub heap-Ring : Ring On heap
heap-Ring p e = (one_unit, rw e refl, refl, one_unit-HasTexts)

abbrev pub ann : Player
ann = record { socket = 7; username = b'A' ∷ replicate 39 0 }

abbrev pub bob : Player
bob = record { socket = 8; username = b'B' ∷ replicate 39 0 }

abbrev pub created : JoinInfo
created = record { type = msg_create; room_size = 2; player = ann }

abbrev pub joined : JoinInfo
joined = record { type = msg_join; room_size = 4; player = bob }

pub created-IsSound : IsSound created
unfolding c_string
created-IsSound = record { least = omega arith; most = omega arith; named = (b'A' ∷ [], refl) }

pub joined-IsSound : IsSound joined
unfolding c_string
joined-IsSound = record { least = omega arith; most = omega arith; named = (b'B' ∷ [], refl) }

-- Every send succeeds, and every player answers 2.
abbrev pub answer_two : List ℕ
answer_two = replicate 8 0 ++ 2 ∷ replicate 47 0

abbrev pub quiet : Option JoinInfo → Input
quiet msg = record { msgrcv = msg; send = λ id. pos 540; recv = λ id. some answer_two; rand = 3 }

abbrev pub empty_room : Room
empty_room = record {
  state = init;
  cur_unit = 1;
  spack = λ i. 0;
  cpack = λ i. 0;
  score = λ i. 0;
  players = λ i. ann;
  room_size = 0;
  last_plr_id = 0;
  quest_num = 1;
}

pub empty_room-Inv : Inv On empty_room
empty_room-Inv = ground arith

-- The room after a round with a result.
abbrev pub room_of : Option (Room × List Event) → Room
room_of (some (r, es)) = r
room_of none = empty_room

abbrev pub events_of : Option (Room × List Event) → List Event
events_of (some (r, es)) = es
events_of none = []

pub quiet-Admissible : (msg : JoinInfo) → IsSound msg → Admissible (quiet (some msg))
quiet-Admissible msg sound other e = subst IsSound (some-injective msg other e) sound

abbrev evening : List Input
evening = quiet (some created) ∷ quiet (some joined) ∷ quiet none ∷ []

-- A game of the two, where the first has one point and the second none.
abbrev pub playing_room : Room
playing_room = record empty_room {
  state = game;
  room_size = 2;
  last_plr_id = 2;
  players = λ i. if i == 0 then ann else bob;
  score = λ i. if i == 0 then 1 else 0;
}

abbrev standings : ℕ → Standing
standings i = playing (if i == 0 then 1 else 0)

standings-IsRound : (io : Input) → io.rand ≡ 3 → IsRound heap io playing_room 1 one_unit standings
unfolding walk
standings-IsRound io e = record {
  numbered = omega arith;
  drawn = rw e refl;
  unit_at = refl;
  texts = one_unit-HasTexts;
  sized = omega arith;
  fits = λ j. ground arith;
  scored = λ j low. unfold char_of in refl;
}

game_step-rule_example :
    Returns
      (λ (r', es).
        (r'.state ≡ game)
        × (r'.quest_num ≡ next_quest 1)
        × Scores r' (λ j.
          round_rule (reaches (quiet none) j) (answer_of ((quiet none).recv j)) 2 (standings j)))
      (game_step heap (quiet none) playing_room)
game_step-rule_example =
    game_step-rule heap (quiet none) playing_room 1 one_unit standings
      (standings-IsRound (quiet none) refl) (unfold receivers in omega arith) (λ id. omega arith)

pub playing_room-Inv : Inv On playing_room
playing_room-Inv = ground arith

game_ends_example :
    (n : ℕ) × (n ≤ 16)
    × Returns
        (λ (r', es). Inv On r' × (r'.state ≡ gameover))
        (run heap (take n (replicate 16 (quiet none))) playing_room)
game_ends_example =
    game_ends On heap heap-Ring (replicate 16 (quiet none)) playing_room playing_room-Inv refl refl

-- A room for one: the second player to join does not fill it, and the fifth breaks it.
abbrev pub lone_room : Room
lone_room = record empty_room { state = wait; room_size = 1; last_plr_id = 1 }

quiet-Joins : Joins (quiet (some joined))
quiet-Joins = (joined, refl, joined-IsSound.named)

bad_size-overflows_example : run heap (replicate 4 (quiet (some joined))) lone_room ≡ none
bad_size-overflows_example =
    bad_size-overflows heap (replicate 4 (quiet (some joined))) lone_room refl refl
      (inl (omega arith)) refl (quiet-Joins, (quiet-Joins, (quiet-Joins, (quiet-Joins, tt))))
