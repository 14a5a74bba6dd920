-- ===== src/Client/MenuTests.antt =====
-- The menus and the game of src/client.c at concrete clicks.
use intellect_battle.Prelude.{
  if◌then◌else◌, ◌==◌, inl, ℕ, ◌≤◌, ◌≡◌, refl, some, List, [], ◌∷◌, pos, arith, Yields,
}
use intellect_battle.Memory.{Mem, c_string, bytes, put_bytes, strncpy}
use intellect_battle.Client.Drawing.{print_nickname}
use intellect_battle.Client.Texts.{print_unit}
use intellect_battle.Client.Logic.{
  RoomInfo, ShownUnit, game_cont, get_unit, recvfrom_server, read_question, read_unit, is_loser,
  read_scores, send_ans,
}
use intellect_battle.Client.Menu.{
  Key, mouse, other, exit, menu_click, chosen, get_behaviour, back_to_main_menu,
}
use intellect_battle.Client.Choices.{Settles, get_behaviour-Settles, menu_click-below}
use intellect_battle.Client.Play.{Turn, game_loop, pass}
use intellect_battle.Client.Rounds.{answers, game_loop-once}
use intellect_battle.Client.Verdict.{LostHasPoints, pass-points}

-- CREATE, the size 3, BACK and JOIN.
abbrev create_three : List Key
create_three = mouse 20 3 ∷ other ∷ mouse 36 8 ∷ []

abbrev back_and_join : List Key
back_and_join = mouse 20 3 ∷ mouse 36 18 ∷ mouse 20 10 ∷ []

picks_three : get_behaviour 4 create_three back_to_main_menu ≡ chosen (pos 3) []
unfolding get_behaviour
picks_three = refl

joins : get_behaviour 4 back_and_join back_to_main_menu ≡ chosen (pos 1) []
unfolding get_behaviour
joins = refl

get_behaviour-Settles_example : Settles (get_behaviour 4 back_and_join back_to_main_menu)
get_behaviour-Settles_example =
    get_behaviour-Settles 4 back_and_join back_to_main_menu (inl refl) (omega arith)

menu_click-below_example : menu_click 20 30 ≡ some exit
menu_click-below_example =
    menu_click-below 20 30 (omega arith) (omega arith) (omega arith) (omega arith)

-- The stack holds zeros but for the byte in the place of the question's number.
abbrev pub stack : Mem
stack i = if i == 8 then 9 else 0

abbrev pub seat : RoomInfo
seat = record { occupancy = 2; room_size = 2; id = 1; usernames = λ i. 0 ∷ []; score = λ i. 0 }

abbrev pub blank_unit : ShownUnit
blank_unit = record { quest = []; ans = λ i. [] }

-- A round's packet that gives everybody three points.
abbrev pub scored : List ℕ
scored = 3 ∷ 0 ∷ 0 ∷ 0 ∷ 3 ∷ 3 ∷ 3 ∷ 3 ∷ []

-- A click on the second answer, and the round that comes then.
abbrev pub second_answer : Turn
second_answer = record {
  key = mouse 10 13;
  stack_out = stack;
  sent = pos 56;
  time = [];
  stack_in = stack;
  delivered = some scored;
}

game_loop-once_example :
    answers (game_loop stack (some scored) blank_unit seat (second_answer ∷ second_answer ∷ [])) ≤ 1
game_loop-once_example =
    game_loop-once stack (some scored) blank_unit seat (second_answer ∷ second_answer ∷ [])

-- That bound is reached.
answers_one :
    answers (game_loop stack (some scored) blank_unit seat (second_answer ∷ second_answer ∷ [])) ≡ 1
unfolding answers game_loop get_unit recvfrom_server read_question is_loser read_scores send_ans
    print_nickname print_unit c_string bytes put_bytes read_unit strncpy
answers_one = refl

pass-points_example :
    Yields LostHasPoints (pass (mouse 10 13) game_cont second_answer blank_unit seat)
pass-points_example = pass-points (mouse 10 13) game_cont second_answer blank_unit seat
