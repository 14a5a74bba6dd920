-- ===== src/Client/Play.antt =====
-- `game_loop` of src/client.c: a player's clicks on the answers, and what the loop does with them.
use intellect_battle.Prelude.{
  ℕ, ◌+◌, ◌-◌, ◌/◌, Bool, true, false, ◌&&◌, Option, none, some, List, [], ◌∷◌, ◌++◌, ℤ, eqb_ℤ, ltb,
  if◌then◌else◌, ◌>>=◌,
}
use intellect_battle.Memory.{Mem}
use intellect_battle.Client.Logic.{
  RoomInfo, ShownUnit, get_unit, is_loser, send_ans, code_success, code_failure, game_cont,
  game_over,
}
use intellect_battle.Client.Menu.{Key, mouse, other, spacer, answer_width, question_height}
use intellect_battle.Client.Drawing.{print_nickname}
use intellect_battle.Client.Texts.{print_unit}

-- What the loop shows: an answer's box in a colour, or the window that says that the game is lost.
pub data Shown : Type 0 where
  blue red green : ℕ → Shown
  game_lost : Shown

-- A key, and what the calls of the pass that handles it meet: the stack and the result of `send`, the
-- time, the stack and the bytes of `recv`.
pub record Turn : Type 0 where
  pub key : Key
  pub stack_out : Mem
  pub sent : ℤ
  pub time : List ℕ
  pub stack_in : Mem
  pub delivered : Option (List ℕ)

-- The locals of the loop after a pass, `broke` if it has ended with `break`, with the packets that
-- were sent and what was shown.
pub record Pass : Type 0 where
  pub status : ℤ
  pub broke : Bool
  pub question : ShownUnit
  pub r_info : RoomInfo
  pub out : List Mem
  pub shown : List Shown

pub data Played : Type 0 where
  returned : (status : ℤ) (out : List Mem) (shown : List Shown) → Played
  waiting : (out : List Mem) → Played
  undefined : Played

unfoldable pub packets : Option Mem → List Mem
packets none = []
packets (some m) = m ∷ []

-- Lines 501 to 516: is the player told that he has lost?
unfoldable pub verdict : ℕ → ℤ → ShownUnit → RoomInfo → List Mem → Option Pass
verdict win_id status question r_info out = is_loser r_info >>= λ loser.
    if eqb_ℤ loser game_over
    then some (record {
      status = game_over;
      broke = true;
      question = question;
      r_info = r_info;
      out = out;
      shown = blue win_id ∷ red win_id ∷ game_lost ∷ [];
    })
    else some (record {
      status = status;
      broke = false;
      question = question;
      r_info = r_info;
      out = out;
      shown = blue win_id ∷ green win_id ∷ [];
    })

-- A pass that ends with `break` after an error's code.
unfoldable pub give_up : ℕ → ℤ → ShownUnit → RoomInfo → List Mem → Pass
give_up win_id status question r_info out = record {
  status = status;
  broke = true;
  question = question;
  r_info = r_info;
  out = out;
  shown = blue win_id ∷ [];
}

-- Lines 496 to 516, after the answer went out.
unfoldable pub next_unit : ℕ → Turn → ShownUnit → RoomInfo → List Mem → Option Pass
unfolding verdict give_up
next_unit win_id turn question r_info out =
    get_unit turn.stack_in turn.delivered (some question) (some r_info)
    >>= λ (status, question', r_info'). question' >>= λ unit. r_info' >>= λ room.
        if eqb_ℤ status code_success
        then verdict win_id status unit room out
        else some (give_up win_id status unit room out)

-- Lines 483 to 516: an answer's box is clicked. There are four boxes; a row below them reads past
-- `answer[]`, which has no defined result.
unfoldable pub pick : ℕ → Turn → ShownUnit → RoomInfo → Option Pass
unfolding next_unit packets
pick win_id turn question r_info =
    let (status, packet) = send_ans turn.stack_out turn.sent win_id turn.time in
    if ltb win_id 4
    then (if eqb_ℤ status code_success
        then next_unit win_id turn question r_info (packets packet)
        else some (give_up win_id status question r_info (packets packet)))
    else none

-- A pass that changes nothing.
unfoldable pub idle_pass : ℤ → ShownUnit → RoomInfo → Pass
idle_pass status question r_info = record {
  status = status;
  broke = false;
  question = question;
  r_info = r_info;
  out = [];
  shown = [];
}

-- The body of the loop (lines 477 to 518).
unfoldable pub pass : Key → ℤ → Turn → ShownUnit → RoomInfo → Option Pass
unfolding pick idle_pass
pass (mouse x y) status turn question r_info =
    if ltb x answer_width && ltb (question_height + spacer) y
    then pick ((y - (question_height + spacer)) / 4) turn question r_info
    else some (idle_pass status question r_info)
pass other status turn question r_info = some (idle_pass status question r_info)

-- What earlier passes have sent and shown comes first.
unfoldable pub before : List Mem → List Shown → Played → Played
before out shown (returned status out' shown') = returned status (out ++ out') (shown ++ shown')
before out shown (waiting out') = waiting (out ++ out')
before out shown undefined = undefined

-- The loop, `waiting` when it has used up the turns.
unfoldable pub turns : ℤ → ShownUnit → RoomInfo → List Turn → Played
unfolding pass before
turns status question r_info [] =
    if eqb_ℤ status game_cont then waiting [] else returned status [] []
turns status question r_info (turn ∷ rest) =
    if eqb_ℤ status game_cont
    then elim (pass turn.key status turn question r_info) [
      | none ↦ undefined
      | some p ↦
          let more = turns p.status p.question p.r_info rest in
          before p.out p.shown (if p.broke then returned p.status [] [] else more)
    ]
    else returned status [] []

-- `game_loop` from the result of its first `get_unit` on. The question is printed before the loop; later ones
-- are not.
unfoldable pub play_from : Option (ℤ × Option ShownUnit × Option RoomInfo) → List Turn → Played
unfolding turns
play_from none clicks = undefined
play_from (some (status, none, room)) clicks = undefined
play_from (some (status, some unit, none)) clicks = undefined
play_from (some (status, some unit, some room)) clicks =
    if eqb_ℤ status code_failure
    then returned code_failure [] []
    else elim (print_unit unit) [ none ↦ undefined | some texts ↦ turns status unit room clicks ]

-- `game_loop`; `raw` and `delivered` are what its first `get_unit` meets, `question` the local it
-- fills in. It has no defined result where the printing of the players or of the question has none.
unfoldable pub game_loop :
    (raw : Mem) (delivered : Option (List ℕ)) (question : ShownUnit) → RoomInfo → List Turn → Played
unfolding play_from
game_loop raw delivered question r_info clicks = elim (print_nickname r_info) [
  | none ↦ undefined
  | some seats ↦ play_from (get_unit raw delivered (some question) (some r_info)) clicks
]
