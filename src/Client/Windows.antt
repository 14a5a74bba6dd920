-- ===== src/Client/Windows.antt =====
-- The windows that src/client.c opens (include/client_ui.h): where they stand on the screen.
use intellect_battle.Prelude.{ℕ, ◌+◌, ◌-◌, ◌*◌, ◌/◌}
use intellect_battle.Client.Menu.{
  terminal_width, spacer, select_box_h, select_box_w, back_box_w, back_box_h, menu_create_w,
  menu_create_h, menu_join_h,
}
use intellect_battle.Client.Errors.{
  err_box_offt_y, err_box_offt_x, retry_box_h, retry_box_w, rel_retry_box_offt_y,
  rel_retry_box_offt_x, exit_box_h, exit_box_w, rel_exit_box_offt_x,
}
use intellect_battle.Client.Menu.{answer_width, question_height}

abbrev pub menu_join_w : ℕ
menu_join_w = 50

abbrev pub menu_exit_w : ℕ
menu_exit_w = 50

abbrev pub menu_exit_h : ℕ
menu_exit_h = 5

abbrev pub question_width : ℕ
question_width = 70

abbrev pub answer_height : ℕ
answer_height = 4

abbrev pub err_box_h : ℕ
err_box_h = 10

abbrev pub err_box_w : ℕ
err_box_w = 30

abbrev pub rel_exit_box_offt_y : ℕ
rel_exit_box_offt_y = 6

abbrev pub nickname_win_w : ℕ
nickname_win_w = 27

abbrev pub nickname_win_h : ℕ
nickname_win_h = 4

abbrev pub nickname_spacer : ℕ
nickname_spacer = 20

-- A rectangle of the screen, as ncurses numbers rows and columns.
pub record Window : Type 0 where
  pub height : ℕ
  pub width : ℕ
  pub top : ℕ
  pub left : ℕ

-- `newwin(height, width, y, x)`
abbrev pub newwin : (height width y x : ℕ) → Window
newwin height width y x = record { height = height; width = width; top = y; left = x }

-- `derwin(win, height, width, y, x)`: the place is relative to the window.
abbrev pub derwin : Window → (height width y x : ℕ) → Window
derwin win height width y x = record {
  height = height;
  width = width;
  top = win.top + y;
  left = win.left + x;
}

-- The buttons of the main menu (lines 19 to 26).
unfoldable pub create_button : Window
create_button = newwin menu_create_h menu_create_w spacer ((terminal_width - menu_create_w) / 2)

unfoldable pub join_button : Window
join_button =
    newwin menu_join_h menu_join_w (menu_create_h + spacer * 2) ((terminal_width - menu_join_w) / 2)

unfoldable pub exit_button : Window
exit_button =
    newwin menu_exit_h menu_exit_w (menu_create_h + menu_join_h + spacer * 3)
      ((terminal_width - menu_exit_w) / 2)

-- The windows of a game (lines 31 to 38).
unfoldable pub server_status : Window
server_status = newwin 1 terminal_width question_height 0

unfoldable pub question_window : Window
question_window = newwin question_height question_width 0 ((terminal_width - question_width) / 2)

unfoldable pub answer : ℕ → Window
answer it = newwin answer_height answer_width (question_height + spacer + answer_height * it) 0

-- `choices[it]` of `select_size` (lines 320 to 323), and its BACK button.
unfoldable pub choices : ℕ → Window
choices it =
    newwin select_box_h select_box_w (spacer + select_box_h * it)
      ((terminal_width - select_box_w) / 2)

unfoldable pub back_button : Window
back_button =
    newwin back_box_h back_box_w (spacer + select_box_h * 3) ((terminal_width - back_box_w) / 2)

-- The windows of `error_window` (lines 625 to 643).
unfoldable pub err_win : Window
err_win = newwin err_box_h err_box_w err_box_offt_y err_box_offt_x

unfoldable pub retry : Window
unfolding err_win
retry = derwin err_win retry_box_h retry_box_w rel_retry_box_offt_y rel_retry_box_offt_x

unfoldable pub stop : Window
unfolding err_win
stop = derwin err_win exit_box_h exit_box_w rel_exit_box_offt_y rel_exit_box_offt_x

-- The window of the player `it` in `print_nickname` (lines 584 to 587 and 603 to 606), and the one inside for
-- the name.
unfoldable pub nick_window : ℕ → Window
nick_window it =
    newwin nickname_win_h nickname_win_w (nickname_spacer - nickname_win_h * it)
      (terminal_width - nickname_win_w)

unfoldable pub nicks : ℕ → Window
unfolding nick_window
nicks it = derwin (nick_window it) (nickname_win_h - 2) (nickname_win_w - 2) 1 1
