-- ===== src/Room/Rules.antt =====
-- The course of a game as src/room.c plays it, told player by player: a description that its loops over
-- arrays are compared with. It is not README.md's in two points: an answer counts as right when its byte is
-- the unit's number `rans`, whatever option the player has meant (System/Answering), and a player who
-- has just lost and is still to be told counts as one whom a question reaches, so that a sole survivor
-- is asked once more (Room/Survivor).
use intellect_battle.Prelude.{
  ℕ, zero, suc, ◌+◌, ◌<◌, Bool, true, false, not, ◌&&◌, Option, none, some, is_negative, ◌==◌,
  if◌then◌else◌, get_or, List, [], ◌∷◌, length, leb,
}
use intellect_battle.Packet.CPack
use intellect_battle.Room.State.{Input, last_quest}

-- A player in a game: with a score, just eliminated (and still to be told), or gone.
pub data Standing : Type 0 where
  playing : ℕ → Standing
  lost : Standing
  gone : Standing

-- The `char` of `score[]` that stands for it.
unfoldable pub char_of : Standing → ℕ
char_of (playing n) = n
char_of lost = 255
char_of gone = 254

-- The score can grow by one without leaving the positive `char`s.
abbrev pub Fits : Standing → Type 0
Fits (playing n) = n < 127
Fits lost = Unit
Fits gone = Unit

-- After the question is sent: who cannot be reached is gone, and so is who has lost.
unfoldable pub told : Bool → Standing → Standing
told reached (playing n) = if reached then playing n else gone
told reached lost = gone
told reached gone = gone

-- After the answers: `none` is a failed reception, and an answer is the byte that was received. It is
-- compared with the number `rans` of the unit.
unfoldable pub answered : (answer : Option ℕ) → (rans : ℕ) → Standing → Standing
answered none rans (playing n) = gone
answered (some a) rans (playing n) = if a == rans then playing (n + 1) else lost
answered answer rans lost = lost
answered answer rans gone = gone

-- One whole round for one player.
unfoldable pub round_rule : Bool → Option ℕ → ℕ → Standing → Standing
unfolding told answered
round_rule reached answer rans st = answered answer rans (told reached st)

abbrev pub reaches : Input → ℕ → Bool
reaches io id = not (is_negative (io.send id))

-- The answer byte of what a `recv` delivers.
abbrev pub answer_of : Option (List ℕ) → Option ℕ
answer_of none = none
answer_of (some bs) = some (get_or bs CPack.ans 0)

-- A reception fails, or delivers the answer byte.
abbrev pub IsWhole : Option (List ℕ) → Type 0
IsWhole none = Unit
IsWhole (some bs) = CPack.ans < length bs

unfoldable pub is_told : Standing → Bool
is_told (playing n) = true
is_told lost = true
is_told gone = false

-- How many of the players from `id` on the question reaches, those among them who have just lost
-- included.
unfoldable pub receivers : Input → (ℕ → Standing) → (rounds id : ℕ) → ℕ
unfolding is_told
receivers io st zero id = 0
receivers io st (suc rounds) id =
    (if is_told (st id) && reaches io id then 1 else 0) + receivers io st rounds (suc id)

-- A whole game: the standings in which it ends, and the number of the rounds that were played to the end. Each
-- entry of the lists is for one round: whom the network reaches and what the players answer, and the
-- number `rans` of the unit. `none` if the game is not over after these rounds. `played` counts the rounds that
-- are over; there are fifteen questions.
unfoldable pub game_course :
    (size : ℕ)
    → List Input
    → (rights : List ℕ) → (played : ℕ) → (ℕ → Standing)
    → Option ((ℕ → Standing) × ℕ)
unfolding told round_rule receivers
game_course size [] rights played st = none
game_course size (io ∷ ios) [] played st = if played == last_quest then some (st, played) else none
game_course size (io ∷ ios) (right ∷ rights) played st =
    let rest =
      game_course size ios rights (played + 1)
        (λ j. round_rule (reaches io j) (answer_of (io.recv j)) right (st j)) in
    if played == last_quest
    then some (st, played)
    else if leb (receivers io st size 0) 1
    then some (λ j. told (reaches io j) (st j), played)
    else rest
