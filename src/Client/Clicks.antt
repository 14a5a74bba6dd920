-- ===== src/Client/Clicks.antt =====
-- A click on a window of src/client.c does what the window shows.
use intellect_battle.Prelude.{
  ℕ, ◌+◌, ◌-◌, ◌/◌, ◌<◌, ◌≡◌, refl, Bool, ◌&&◌, true, false, Option, none, some, List, [], ◌∷◌, ℤ,
  pos, if◌then◌else◌, arith, ◌==◌, zero, suc, Bool-cases, inl, inr, ltb,
}
use intellect_battle.Client.Menu.{
  mouse, Entry, create, join, exit, back_to_main_menu, within, size_click, size_of, back_click,
  menu_click, entry_of,
}
use intellect_battle.Client.Logic.{RoomInfo, ShownUnit}
use intellect_battle.Client.Play.{Turn, Pass, pass, pick, idle_pass}
use intellect_battle.Client.Errors.{error_click, handle_retry, handle_stop}
use intellect_battle.Client.Windows.{
  Window, create_button, join_button, exit_button, choices, back_button, retry, stop, err_win,
  answer,
}

-- Is the place on the window?
abbrev pub on : Window → (x y : ℕ) → Bool
on w x y = within w.left w.width x && within w.top w.height y

-- What the window at the place stands for.
abbrev pub hit : {A : Type 0} → List (Window × A) → (x y : ℕ) → Option A
hit [] x y = none
hit ((w, a) ∷ ws) x y = if on w x y then some a else hit ws x y

-- The window without its first column, or without its first row.
abbrev pub right_of_edge : Window → Window
right_of_edge w = record w { width = w.width - 1; left = w.left + 1 }

abbrev pub below_edge : Window → Window
below_edge w = record w { height = w.height - 1; top = w.top + 1 }

abbrev pub size_boxes : List (Window × ℤ)
size_boxes =
    (choices 0, pos 2)
    ∷ (choices 1, pos 3)
    ∷ (choices 2, pos 4)
    ∷ (back_button, back_to_main_menu)
    ∷ []

abbrev pub error_boxes : Bool → List (Window × ℕ)
error_boxes true = (retry, handle_retry) ∷ (stop, handle_stop) ∷ []
error_boxes false = (stop, handle_stop) ∷ []

abbrev pub menu_boxes : List (Window × Entry)
menu_boxes =
    (right_of_edge create_button, create)
    ∷ (right_of_edge join_button, join)
    ∷ (right_of_edge exit_button, exit)
    ∷ []

error_click-hits : (b : Bool) (x y : ℕ) → error_click b x y ≡ hit (error_boxes b) x y
unfolding error_click retry stop err_win
error_click-hits true x y = ground arith
error_click-hits false x y = ground arith

size_of_if :
    (n : ℕ)
    → size_of n ≡ (
        if n == 0
        then some (pos 2)
        else if n == 1
        then some (pos 3)
        else if n == 2
        then some (pos 4)
        else none)
unfolding size_of
size_of_if zero = refl
size_of_if (suc zero) = refl
size_of_if (suc (suc zero)) = refl
size_of_if (suc (suc (suc n))) = ground arith

size_click-hits : (x y : ℕ) → size_click x y ≡ hit size_boxes x y
unfolding size_click back_click choices back_button
size_click-hits x y = rw (size_of_if ((y - 2) / 5)) (ground arith)

entry_of_if : (n : ℕ) → entry_of n ≡ (if n == 0 then create else if n == 1 then join else exit)
unfolding entry_of
entry_of_if zero = refl
entry_of_if (suc zero) = refl
entry_of_if (suc (suc n)) = ground arith

menu_click-hits : (x y : ℕ) → y < 23 → menu_click x y ≡ hit menu_boxes x y
unfolding menu_click create_button join_button exit_button
menu_click-hits x y above = rw (entry_of_if ((y - 2) / 7)) (ground arith)

-- The answers, the first without its first row.
abbrev pub answer_boxes : List (Window × ℕ)
answer_boxes = (below_edge (answer 0), 0) ∷ (answer 1, 1) ∷ (answer 2, 2) ∷ (answer 3, 3) ∷ []

-- What a pass of `game_loop` does with a click on an answer, or beside them.
unfoldable pub clicked : Option ℕ → ℤ → Turn → ShownUnit → RoomInfo → Option Pass
clicked none status turn question r_info = some (idle_pass status question r_info)
clicked (some win_id) status turn question r_info = pick win_id turn question r_info

answer_at :
    (x y : ℕ)
    → y < 24
    → hit answer_boxes x y ≡ (if ltb x 50 && ltb 8 y then some ((y - 8) / 4) else none)
unfolding answer
answer_at x y above = ground arith

pass-hits :
    (x y : ℕ) (status : ℤ) (turn : Turn) (question : ShownUnit) (r_info : RoomInfo)
    → y < 24
    → pass (mouse x y) status turn question r_info
      ≡ clicked (hit answer_boxes x y) status turn question r_info
unfolding pass clicked
pass-hits x y status turn question r_info above = elim (Bool-cases (ltb x 50 && ltb 8 y)) [
  | inl e ↦ rw (e, answer_at x y above, e) refl
  | inr e ↦ rw (e, answer_at x y above, e) refl
]

-- On a screen of 23 rows, a click on a window does what the window stands for, and a click beside the
-- windows does nothing: on the sizes and BACK, on the buttons of an error window, on the entries of the main
-- menu, whose first columns do not count, and on the answers, the first of which does not count with its
-- first row.
pub clicks-hit :
    (x y : ℕ) (is_retryable : Bool) (status : ℤ) (turn : Turn) (question : ShownUnit)
    (r_info : RoomInfo)
    → y < 23
    → (size_click x y ≡ hit size_boxes x y)
      × (error_click is_retryable x y ≡ hit (error_boxes is_retryable) x y)
      × (menu_click x y ≡ hit menu_boxes x y)
      × (pass (mouse x y) status turn question r_info
          ≡ clicked (hit answer_boxes x y) status turn question r_info)
clicks-hit x y is_retryable status turn question r_info above = (
  size_click-hits x y,
  error_click-hits is_retryable x y,
  menu_click-hits x y above,
  pass-hits x y status turn question r_info (omega arith),
)
