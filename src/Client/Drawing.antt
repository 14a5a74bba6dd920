-- ===== src/Client/Drawing.antt =====
-- What src/client.c draws where it depends on the game: the players of a room (`print_nickname`), a chosen
-- answer (`highlight_selected`) and the moving bar of the waiting room (`progress_show`).
use intellect_battle.Prelude.{
  ℕ, zero, suc, ◌+◌, ◌-◌, ◌*◌, Option, none, some, List, [], ◌∷◌, ◌++◌, ltb, leb, ◌==◌,
  if◌then◌else◌, ◌>>=◌, length,
}
use intellect_battle.Memory.{c_string}
use intellect_battle.Packet.{user_count}
use intellect_battle.Client.Logic.{RoomInfo}
use intellect_battle.Client.Menu.{max_room_size}
use intellect_battle.Client.Menu.{answer_width}
use intellect_battle.Client.Windows.{Window, derwin, answer_height, nicks}

-- A line of the list of players: the window inside, and the name (`none`: "NO_PLAYER").
pub record Seat : Type 0 where
  pub window : Window
  pub name : Option (List ℕ)

-- The loop of lines 583 to 600. A player past the end of `nicks[]`, or a name without a NUL, has no
-- defined result.
unfoldable pub present : RoomInfo → (rounds it : ℕ) → Option (List Seat)
present room zero it = some []
present room (suc rounds) it =
    let later = present room rounds (suc it) in
    if ltb it user_count
    then (c_string (room.usernames it) >>= λ name.
        later >>= λ seats. some (record { window = nicks it; name = some name } ∷ seats))
    else none

-- The loop of lines 602 to 617.
unfoldable pub vacant : (rounds it : ℕ) → List Seat
vacant zero it = []
vacant (suc rounds) it = record { window = nicks it; name = none } ∷ vacant rounds (suc it)

-- `print_nickname`
unfoldable pub print_nickname : RoomInfo → Option (List Seat)
unfolding present vacant
print_nickname room = present room room.occupancy 0 >>= λ seats.
    some (seats ++ vacant (max_room_size - room.occupancy) room.occupancy)

-- The colours of `highlight_selected`.
pub data Colour : Type 0 where
  blue green red : Colour

abbrev pub highlight_red : ℕ
highlight_red = 2

abbrev pub highlight_green : ℕ
highlight_green = 1

abbrev pub highlight_blue : ℕ
highlight_blue = 0

pub record Highlight : Type 0 where
  pub window : Window
  pub colour : Colour
  pub text : List ℕ
  pub blanks : ℕ

-- What a text prints as a format without arguments: `%%` is a `%`, and any other conversion asks for an argument
-- or is none, which has no defined result.
unfoldable pub format_text : List ℕ → Option (List ℕ)
format_text [] = some []
format_text (c ∷ []) = if c == b'%' then none else some (c ∷ [])
format_text (c ∷ d ∷ text) =
    let after = format_text text in
    let next = format_text (d ∷ text) in
    if c == b'%'
    then (if d == b'%' then (after >>= λ shown. some (b'%' ∷ shown)) else none)
    else (next >>= λ shown. some (c ∷ shown))

-- `highlight_selected`. The text is printed as a format. (The difference of line 425 is unsigned: a text that is
-- longer than the number of cells, which no `char[A_LEN]` holds, is left undefined.)
unfoldable pub highlight_selected :
    Window → (a_text : List ℕ) → (highlight_type : ℕ) → Option Highlight
unfolding format_text
highlight_selected a_window a_text highlight_type = c_string a_text >>= λ text.
    format_text text >>= λ printed.
    if ltb (answer_width * answer_height) (length text)
    then none
    else some (record {
      window = derwin a_window (answer_height - 2) (answer_width - 2) 1 1;
      colour =
          if highlight_type == highlight_blue
          then blue
          else if highlight_type == highlight_green
          then green
          else if highlight_type == highlight_red
          then red
          else blue;
      text = printed;
      blanks = answer_width * answer_height - length text;
    })

-- The variables `i` and `interationNum` of `progress_show`.
pub record Progress : Type 0 where
  pub i : ℕ
  pub iteration_num : ℕ

-- The colours that are switched off and on, and the row that the cursor is moved to.
pub record Turned : Type 0 where
  pub off : ℕ
  pub on : ℕ
  pub row : ℕ

-- A round of the loop of lines 212 to 230.
unfoldable pub progress_step : Progress → Progress × Option Turned
progress_step p =
    let next = if leb 3 (p.iteration_num + 1) then 0 else p.iteration_num + 1 in
    if ltb (48 * (3 - p.iteration_num)) p.i
    then (
      record { i = 0; iteration_num = next },
      some (record { off = 10 + p.iteration_num; on = 10 + next; row = next }),
    )
    else (record p { i = p.i + 1 }, none)

-- `progress_show`, for a number of rounds.
unfoldable pub progress_show : (rounds : ℕ) → Progress → Progress
unfolding progress_step
progress_show zero p = p
progress_show (suc rounds) p = progress_show rounds (progress_step p).0
