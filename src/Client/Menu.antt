-- ===== src/Client/Menu.antt =====
-- The menus of src/client.c (include/client_ui.h) as functions of the user's clicks: which choice a
-- click makes, and the loops that wait for one. What is drawn is left out.
use intellect_battle.Prelude.{
  ℕ, zero, suc, ◌+◌, ◌-◌, ◌*◌, ◌/◌, ◌%◌, Bool, ◌&&◌, Option, none, some, List, [], ◌∷◌, ℤ, pos,
  negsuc, eqb_ℤ, ltb, leb, or_else, if◌then◌else◌,
}
use intellect_battle.Packet.{req_join, req_create}

abbrev pub terminal_width : ℕ
terminal_width = 80

abbrev pub max_room_size : ℕ
max_room_size = 4

abbrev pub application_exit : ℤ
application_exit = negsuc 0

abbrev pub back_to_main_menu : ℤ
back_to_main_menu = negsuc 1

abbrev pub room_join : ℤ
room_join = pos 1

abbrev pub spacer : ℕ
spacer = 2

abbrev pub answer_width : ℕ
answer_width = 50

abbrev pub question_height : ℕ
question_height = 6

abbrev pub select_box_h : ℕ
select_box_h = 5

abbrev pub select_box_w : ℕ
select_box_w = 11

abbrev pub back_box_w : ℕ
back_box_w = 20

abbrev pub back_box_h : ℕ
back_box_h = 5

abbrev pub menu_create_w : ℕ
menu_create_w = 50

abbrev pub menu_create_h : ℕ
menu_create_h = 5

abbrev pub menu_join_h : ℕ
menu_join_h = 5

-- What `getch` returns: a click with its column and row, or another key.
pub data Key : Type 0 where
  mouse : (x y : ℕ) → Key
  other : Key

-- `from <= e && e < from + size`
abbrev pub within : ℕ → ℕ → ℕ → Bool
within from size e = leb from e && ltb e (from + size)

-- The BACK button of lines 370 to 384.
unfoldable pub back_click : (x y : ℕ) → Option ℤ
back_click x y =
    if within ((terminal_width - back_box_w) / 2) back_box_w x
      && within (select_box_h * 3 + spacer) back_box_h y
    then some back_to_main_menu
    else none

-- The `switch` of lines 351 to 366. Other windows fall through to the BACK button.
unfoldable pub size_of : ℕ → Option ℤ
size_of zero = some (pos 2)
size_of (suc zero) = some (pos 3)
size_of (suc (suc zero)) = some (pos 4)
size_of (suc (suc (suc win_id))) = none

-- The body of the loop of `select_size`, for a click.
unfoldable pub size_click : (x y : ℕ) → Option ℤ
unfolding back_click size_of
size_click x y =
    if within ((terminal_width - select_box_w) / 2) select_box_w x && leb spacer y
    then or_else (size_of ((y - spacer) / select_box_h)) (back_click x y)
    else back_click x y

-- `select_size`: the choice and the keys that are left, or `none` while the user has not chosen.
unfoldable pub select_size : List Key → Option (ℤ × List Key)
unfolding size_click
select_size [] = none
select_size (mouse x y ∷ keys) =
    let rest = select_size keys in elim (size_click x y) [ some c ↦ some (c, keys) | none ↦ rest ]
select_size (other ∷ keys) = select_size keys

-- The entries of the main menu.
pub data Entry : Type 0 where
  create join exit : Entry

-- The `switch` of lines 546 to 567.
unfoldable pub entry_of : ℕ → Entry
entry_of zero = create
entry_of (suc zero) = join
entry_of (suc (suc win_id)) = exit

-- The body of the loop of `mainMenu`, for a click.
unfoldable pub menu_click : (x y : ℕ) → Option Entry
unfolding entry_of
menu_click x y =
    let left = (terminal_width - menu_create_w) / 2 in
    if ltb left x && ltb x (left + menu_create_w) && leb spacer y
    then (if leb menu_join_h ((y - spacer) % (menu_create_h + spacer))
        then none
        else some (entry_of ((y - spacer) / (menu_create_h + spacer))))
    else none

-- What an entry leads to.
unfoldable pub enter : Entry → List Key → Option (ℤ × List Key)
unfolding select_size
enter create keys = select_size keys
enter join keys = some (room_join, keys)
enter exit keys = some (application_exit, keys)

-- `mainMenu`
unfoldable pub main_menu : List Key → Option (ℤ × List Key)
unfolding menu_click enter
main_menu [] = none
main_menu (mouse x y ∷ keys) =
    let rest = main_menu keys in elim (menu_click x y) [ some e ↦ enter e keys | none ↦ rest ]
main_menu (other ∷ keys) = main_menu keys

-- How a stay in the menus ends: with a choice and the keys that are left, or it still waits for a key.
-- `out_of_fuel` is of the model alone.
pub data Stay : Type 0 where
  chosen : ℤ → List Key → Stay
  waiting out_of_fuel : Stay

-- `get_behaviour`, with fuel for the visits to the menu.
unfoldable pub get_behaviour : ℕ → List Key → ℤ → Stay
unfolding main_menu
get_behaviour zero keys selected = out_of_fuel
get_behaviour (suc fuel) keys selected =
    if eqb_ℤ selected back_to_main_menu
    then elim (main_menu keys) [ none ↦ waiting | some (c, left) ↦ get_behaviour fuel left c ]
    else chosen selected keys

-- Lines 69 to 79 of `main`: the request for a behaviour, or `none` to leave.
unfoldable pub request_for : ℤ → Option (ℤ × ℤ)
request_for behaviour =
    if eqb_ℤ behaviour application_exit
    then none
    else if eqb_ℤ behaviour room_join
    then some (req_join, pos max_room_size)
    else some (req_create, behaviour)
