-- ===== src/Client/ScreenTests.antt =====
-- The windows of src/client.c at concrete clicks and rooms.
use intellect_battle.Prelude.{
  ◌+◌, replicate, Returns, true, ℕ, ◌<◌, ◌≡◌, refl, some, [], ◌∷◌, arith, ◌==◌, if◌then◌else◌, List,
  zero, suc,
}
use intellect_battle.Memory.{c_string}
use intellect_battle.Client.Logic.{ShownUnit, RoomInfo, game_cont}
use intellect_battle.Client.Menu.{mouse, menu_click, size_click}
use intellect_battle.Client.Errors.{error_click}
use intellect_battle.Client.Play.{pass}
use intellect_battle.Client.Windows.{question_window, answer}
use intellect_battle.Client.Clicks.{
  hit, size_boxes, error_boxes, menu_boxes, answer_boxes, clicked, clicks-hit,
}
use intellect_battle.Client.Drawing.{
  highlight_selected, highlight_green, green, print_nickname, progress_show,
}
use intellect_battle.Client.Texts.{
  is_printable, IsPrintable, ShowAll, inner, answer_texts, print_unit, print_unit-Shows,
}
use intellect_battle.Client.Seats.{seats, print_nickname-seats}
use intellect_battle.Client.MenuTests.{second_answer, blank_unit, seat}

-- A click on the second answer.
clicks-hit_example :
    (size_click 10 13 ≡ hit size_boxes 10 13)
    × (error_click true 10 13 ≡ hit (error_boxes true) 10 13)
    × (menu_click 10 13 ≡ hit menu_boxes 10 13)
    × (pass (mouse 10 13) game_cont second_answer blank_unit seat
        ≡ clicked (hit answer_boxes 10 13) game_cont second_answer blank_unit seat)
clicks-hit_example = clicks-hit 10 13 true game_cont second_answer blank_unit seat (omega arith)

the_second_answer : hit answer_boxes 10 13 ≡ some 1
unfolding answer
the_second_answer = refl

-- Ann and Bob wait for two more players.
abbrev waiting : RoomInfo
waiting = record seat {
  occupancy = 2;
  room_size = 4;
  usernames = λ i. if i == 0 then b'A' ∷ b'n' ∷ b'n' ∷ 0 ∷ [] else b'B' ∷ b'o' ∷ b'b' ∷ 0 ∷ [];
}

abbrev ann_or_bob : ℕ → List ℕ
ann_or_bob i = if i == 0 then b'A' ∷ b'n' ∷ b'n' ∷ [] else b'B' ∷ b'o' ∷ b'b' ∷ []

waiting_names : (it : ℕ) → it < 2 → c_string (waiting.usernames it) ≡ some (ann_or_bob it)
unfolding c_string
waiting_names zero below = refl
waiting_names (suc zero) below = refl
waiting_names (suc (suc it)) below = absurd (omega arith)

print_nickname-seats_example : print_nickname waiting ≡ some (seats ann_or_bob 2 4 0)
print_nickname-seats_example = print_nickname-seats waiting ann_or_bob waiting_names (omega arith)

a_chosen_answer :
    highlight_selected
      (record { height = 4; width = 50; top = 8; left = 0 })
      (b'4' ∷ b'2' ∷ 0 ∷ [])
      highlight_green
    ≡ some (record {
      window = record { height = 2; width = 48; top = 9; left = 1 };
      colour = green;
      text = b'4' ∷ b'2' ∷ [];
      blanks = 198;
    })
unfolding highlight_selected c_string
a_chosen_answer = refl

-- After 146 characters the second row is begun.
second_row :
    progress_show 146 (record { i = 0; iteration_num = 0 }) ≡ record { i = 0; iteration_num = 1 }
unfolding progress_show
second_row = refl

-- "1+1" with the answers "0" to "3".
abbrev sum : ShownUnit
sum = record {
  quest = b'1' ∷ b'+' ∷ b'1' ∷ 0 ∷ replicate 198 9;
  ans = λ i. (b'0' + i) ∷ 0 ∷ replicate 80 9;
}

digit-IsPrintable : (i : ℕ) → i < 4 → IsPrintable 82 (sum.ans i)
unfolding c_string is_printable
digit-IsPrintable zero below = (omega arith, (b'0' ∷ [], refl, (refl, tt)))
digit-IsPrintable (suc zero) below = (omega arith, (b'1' ∷ [], refl, (refl, tt)))
digit-IsPrintable (suc (suc zero)) below = (omega arith, (b'2' ∷ [], refl, (refl, tt)))
digit-IsPrintable (suc (suc (suc zero))) below = (omega arith, (b'3' ∷ [], refl, (refl, tt)))
digit-IsPrintable (suc (suc (suc (suc i)))) below = absurd (omega arith)

sum-IsPrintable : IsPrintable 202 sum.quest
unfolding c_string is_printable
sum-IsPrintable = (omega arith, (b'1' ∷ b'+' ∷ b'1' ∷ [], refl, (refl, (refl, (refl, tt)))))

print_unit-Shows_example :
    Returns (ShowAll ((inner question_window, sum.quest) ∷ answer_texts sum 4 0)) (print_unit sum)
print_unit-Shows_example = print_unit-Shows sum sum-IsPrintable digit-IsPrintable
