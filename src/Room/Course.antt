-- ===== src/Room/Course.antt =====
-- The rounds of a game of `room_fsm` (src/room.c) beside the course that Rules tells: the cases of a round.
use intellect_battle.Prelude.{
  ℕ, suc, ◌+◌, ◌%◌, ◌<◌, ◌≤◌, ◌≡◌, refl, ap, sym, ◌∙◌, Bool, true, false, Option, none, some, List,
  [], ◌∷◌, arith, length, take, ◌==◌, if◌then◌else◌, leb, le→leb, Returns, bind, returns, result,
  All,
}
use intellect_battle.Units.{Heap, UnitNode, Ptr}
use intellect_battle.Room.State.{Room, Input, Event, game, gameover, max_step}
use intellect_battle.Room.Game.{play, game_step}
use intellect_battle.Room.Machine.{run}
use intellect_battle.Room.Safety.{Ring, Inv, walk-On}
use intellect_battle.Room.Rules.{
  Standing, playing, lost, gone, Fits, told, answered, round_rule, reaches, answer_of, receivers,
  game_course,
}
use intellect_battle.Room.Loops.{Scores}
use intellect_battle.Room.Scoring.{IsRound, game_step-over}
use intellect_battle.Room.Ending.{step-game}

-- Who is still in the game has a point for each round that is over.
abbrev pub Level : ℕ → (ℕ → Standing) → Type 0
Level played st = (j k : ℕ) → st j ≡ playing k → k ≡ played

Level-Fits :
    (played : ℕ) (st : ℕ → Standing) → played ≤ 15 → Level played st → (j : ℕ) → Fits (st j)
Level-Fits played st small level j = of (st j) (level j)
  where
    of : (s : Standing) → ((k : ℕ) → s ≡ playing k → k ≡ played) → Fits s
    of (playing n) known = omega (arith, known n refl)
    of lost known = tt
    of gone known = tt

told-Level : (b : Bool) (s : Standing) (k : ℕ) → told b s ≡ playing k → s ≡ playing k
unfolding told
told-Level true (playing n) k e = e
told-Level false (playing n) k e = cc
told-Level b lost k e = cc
told-Level b gone k e = cc

answered-Level :
    (answer : Option ℕ) (right : ℕ) (s : Standing) (k : ℕ)
    → answered answer right s ≡ playing k
    → (n : ℕ) × (s ≡ playing n) × (k ≡ n + 1)
unfolding answered
answered-Level none right (playing n) k e = cc
answered-Level (some a) right (playing n) k e = (n, refl, grown (a == right) e)
  where
    grown : (b : Bool) → (if b then playing (n + 1) else lost) ≡ playing k → k ≡ n + 1
    grown true e = cc
    grown false e = cc
answered-Level answer right lost k e = cc
answered-Level answer right gone k e = cc

pub round_rule-Level :
    (io : Input) (right played : ℕ) (st : ℕ → Standing)
    → Level played st
    → Level (played + 1) (λ j. round_rule (reaches io j) (answer_of (io.recv j)) right (st j))
unfolding round_rule
round_rule-Level io right played st level j k e =
    let (n, was, grown) =
      answered-Level (answer_of (io.recv j)) right (told (reaches io j) (st j)) k e in
    omega (arith, level j n (told-Level (reaches io j) (st j) n was), grown)

-- The number of the question of a round.
abbrev pub question_of : ℕ → ℕ
question_of played = if played == 15 then 0 else played + 1

pub play-size : (io : Input) (u : UnitNode) (r : Room) → (play io u r).0.room_size ≡ r.room_size
unfolding play
play-size io u r = ground arith

module _ (On : Ptr → Type 0) (h : Heap) where
  -- The right answer of one of the units.
  abbrev pub Right : ℕ → Type 0
  Right right = (p : Ptr) × On p × (u : UnitNode) × (h p ≡ some u) × (u.rans ≡ right)

  -- A game that is over after some of the rounds `ios`, by the course of `game_course`.
  pub record Follows (ios : List Input) (played : ℕ) (r : Room) (st : ℕ → Standing) : Type 0 where
    pub rights : List ℕ
    pub drawn : All Right rights
    pub rounds : ℕ
    pub few : rounds ≤ length ios
    pub final : ℕ → Standing
    pub done : ℕ
    pub ruled : game_course r.room_size ios rights played st ≡ some (final, done)
    pub level : Level done final
    pub ends :
        Returns (λ (r', es). (r'.state ≡ gameover) × Scores r' final) (run h (take rounds ios) r)

  -- The round that a unit is drawn for.
  pub IsRound-of :
      Ring On h
      → (io : Input) (played : ℕ) (r : Room) (st : ℕ → Standing) → played < 15
      → Inv On r
      → r.state ≡ game
      → r.quest_num ≡ question_of played
      → Scores r st
      → Level played st
      → (p : Ptr) × (u : UnitNode) × On p × IsRound h io r p u st
  IsRound-of ring io played r st small v at number scored level =
      let (p, drawn, on) =
        result (walk-On On h (io.rand % max_step + 1) r.cur_unit ring v.placed) in
      let (u, unit_at, next, texts) = ring p on in
      (
        p,
        u,
        on,
        record {
          numbered = ground arith;
          drawn = drawn;
          unit_at = unit_at;
          texts = texts;
          sized = (v.full at).1;
          fits = Level-Fits played st (omega arith) level;
          scored = scored;
        },
      )

  -- One round that ends the game.
  last_round :
      (io : Input) (r r' : Room) (es : List Event) (final : ℕ → Standing)
      → r.state ≡ game
      → game_step h io r ≡ some (r', es)
      → r'.state ≡ gameover
      → Scores r' final
      → Returns (λ (r', es). (r'.state ≡ gameover) × Scores r' final) (run h (io ∷ []) r)
  unfolding run
  last_round io r r' es final at plays over scored =
      rw (step-game h io r at ∙ plays) (returns (over, scored))

  -- After the fifteenth question.
  pub Follows-end :
      (io : Input) (ios : List Input) (r : Room) (st : ℕ → Standing)
      → r.state ≡ game
      → r.quest_num ≡ 0
      → Scores r st
      → Level 15 st
      → Follows (io ∷ ios) 15 r st
  unfolding game_course game_step
  Follows-end io ios r st at number scored level = record {
    rights = [];
    drawn = tt;
    rounds = 1;
    few = omega arith;
    final = st;
    done = 15;
    ruled = refl;
    level = level;
    ends = last_round io r (record r { state = gameover }) [] st at (rw number refl) refl scored;
  }

  -- A question that reaches too few.
  pub Follows-over :
      (io : Input) (ios : List Input) (played : ℕ) (r : Room) (st : ℕ → Standing) (p : Ptr)
      (u : UnitNode)
      → played < 15
      → On p
      → IsRound h io r p u st
      → r.state ≡ game
      → Level played st
      → receivers io st r.room_size 0 ≤ 1
      → Follows (io ∷ ios) played r st
  unfolding game_course
  Follows-over io ios played r st p u small on round at level few =
      let ((r', es), plays, (over, same, scored)) =
        result (game_step-over h io r p u st round few) in
      let unfinished : (played == 15) ≡ false = ground arith in
      record {
        rights = u.rans ∷ [];
        drawn = ((p, on, u, round.unit_at, refl), tt);
        rounds = 1;
        few = omega arith;
        final = λ j. told (reaches io j) (st j);
        done = played;
        ruled = rw (unfinished, le→leb (receivers io st r.room_size 0) 1 few) refl;
        level = λ j k e. level j k (told-Level (reaches io j) (st j) k e);
        ends = last_round io r r' es _ at plays over scored;
      }

  -- A round that is played to its end, and the rounds after it.
  pub Follows-next :
      (io : Input) (ios : List Input) (played : ℕ) (r r' : Room) (es : List Event)
      (st : ℕ → Standing) (p : Ptr) (u : UnitNode)
      → played < 15
      → On p
      → IsRound h io r p u st
      → r.state ≡ game
      → 2 ≤ receivers io st r.room_size 0
      → game_step h io r ≡ some (r', es)
      → r'.room_size ≡ r.room_size
      → Follows ios
          (played + 1)
          r'
          (λ j. round_rule (reaches io j) (answer_of (io.recv j)) u.rans (st j))
      → Follows (io ∷ ios) played r st
  unfolding game_course run
  Follows-next io ios played r r' es st p u small on round at many plays size later =
      let unfinished : (played == 15) ≡ false = ground arith in
      let goes_on : leb (receivers io st r.room_size 0) 1 ≡ false = ground arith in
      record {
        rights = u.rans ∷ later.rights;
        drawn = ((p, on, u, round.unit_at, refl), later.drawn);
        rounds = suc later.rounds;
        few = omega (arith, later.few);
        final = later.final;
        done = later.done;
        ruled =
            rw (unfinished, goes_on)
              (ap
                  (λ size.
                    game_course size ios later.rights (played + 1)
                      (λ j. round_rule (reaches io j) (answer_of (io.recv j)) u.rans (st j)))
                  (sym size)
                ∙ later.ruled);
        level = later.level;
        ends = rw (step-game h io r at ∙ plays) (bind later.ends λ (r'', es'') last. returns last);
      }
