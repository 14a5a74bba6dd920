-- ===== src/Client/Choices.antt =====
-- What the menus of src/client.c let the user choose.
use intellect_battle.Prelude.{
  ltb, subst, ℕ, zero, suc, ◌-◌, ◌/◌, ◌%◌, ◌<◌, ◌≤◌, ◌≡◌, refl, ap, ◌⊎◌, inl, inr, true, false,
  some, List, [], ◌∷◌, ℤ, pos, negsuc, eqb_ℤ, arith, length, Option-cases, Bool-cases, Yields,
  fails, yields, Yields-mono, Yields_at, Yields-or_else, leb, ◌&&◌,
}
use intellect_battle.Client.Menu.{
  Key, mouse, other, Entry, create, join, exit, within, spacer, select_box_h, size_click, size_of,
  back_click, select_size, menu_click, entry_of, enter, main_menu, get_behaviour, Stay, chosen,
  waiting, out_of_fuel, application_exit, back_to_main_menu, room_join,
}

-- A size from 2 to 4.
abbrev pub IsSize : ℤ → Type 0
IsSize (pos n) = (2 ≤ n) × (n ≤ 4)
IsSize (negsuc n) = ⊥

abbrev pub IsSizeOrBack : ℤ → Type 0
IsSizeOrBack c = (c ≡ back_to_main_menu) ⊎ IsSize c

-- What the user can have chosen when the menus are left.
abbrev pub IsBehaviour : ℤ → Type 0
IsBehaviour c = (c ≡ application_exit) ⊎ ((c ≡ room_join) ⊎ IsSize c)

-- Keys are used up.
abbrev Shorter : List Key → ℤ × List Key → Type 0
Shorter keys (c, left) = length left < length keys

size_of-IsSize : (n : ℕ) → Yields IsSizeOrBack (size_of n)
unfolding size_of
size_of-IsSize zero = yields (inr (omega arith))
size_of-IsSize (suc zero) = yields (inr (omega arith))
size_of-IsSize (suc (suc zero)) = yields (inr (omega arith))
size_of-IsSize (suc (suc (suc n))) = fails

back_click-IsBack : (x y : ℕ) → Yields IsSizeOrBack (back_click x y)
unfolding back_click
back_click-IsBack x y = elim (Bool-cases (within 30 20 x && within 17 5 y)) [
  | inl hit ↦ rw hit (yields (inl refl))
  | inr miss ↦ rw miss fails
]

size_click-IsSize : (x y : ℕ) → Yields IsSizeOrBack (size_click x y)
unfolding size_click
size_click-IsSize x y = elim (Bool-cases (within 34 11 x && leb 2 y)) [
  | inl hit ↦
      rw hit (Yields-or_else (size_of-IsSize ((y - spacer) / select_box_h)) (back_click-IsBack x y))
  | inr miss ↦ rw miss (back_click-IsBack x y)
]

abbrev Chosen : (ℤ → Type 0) → List Key → ℤ × List Key → Type 0
Chosen P keys (c, left) = P c × (length left < length keys)

select_size-Chosen : (keys : List Key) → Yields (Chosen IsSizeOrBack keys) (select_size keys)
unfolding select_size
select_size-Chosen [] = fails
select_size-Chosen (mouse x y ∷ keys) = elim (Option-cases (size_click x y)) [
  | inl miss ↦
      rw (miss, select_size)
        (Yields-mono (select_size-Chosen keys) (λ (c, left) (p, l). (p, omega arith)))
  | inr (c, hit) ↦
      rw (hit, select_size) (yields (Yields_at (size_click-IsSize x y) hit, omega arith))
]
select_size-Chosen (other ∷ keys) =
    Yields-mono (select_size-Chosen keys) (λ (c, left) (p, l). (p, omega arith))

-- A choice that the main menu returns; -2 asks for the menu again.
abbrev IsChoice : ℤ → Type 0
IsChoice c = (c ≡ back_to_main_menu) ⊎ IsBehaviour c

enter-Chosen :
    (e : Entry) (keys : List Key) (k : Key) → Yields (Chosen IsChoice (k ∷ keys)) (enter e keys)
unfolding enter
enter-Chosen create keys k =
    Yields-mono (select_size-Chosen keys) (λ (c, left) (p, l). (widen p, omega arith))
  where
    widen : {c : ℤ} → IsSizeOrBack c → IsChoice c
    widen (inl back) = inl back
    widen (inr size) = inr (inr (inr size))
enter-Chosen join keys k = yields (inr (inr (inl refl)), omega arith)
enter-Chosen exit keys k = yields (inr (inl refl), omega arith)

main_menu-Chosen : (keys : List Key) → Yields (Chosen IsChoice keys) (main_menu keys)
unfolding main_menu
main_menu-Chosen [] = fails
main_menu-Chosen (mouse x y ∷ keys) = elim (Option-cases (menu_click x y)) [
  | inl miss ↦
      rw (miss, main_menu)
        (Yields-mono (main_menu-Chosen keys) (λ (c, left) (p, l). (p, omega arith)))
  | inr (e, hit) ↦ rw (hit, main_menu) (enter-Chosen e keys (mouse x y))
]
main_menu-Chosen (other ∷ keys) =
    Yields-mono (main_menu-Chosen keys) (λ (c, left) (p, l). (p, omega arith))

-- A choice other than -2 leaves the menus.
leaves : (c : ℤ) → IsChoice c → eqb_ℤ c back_to_main_menu ≡ false → IsBehaviour c
leaves c (inl back) away = absurd (unmet (subst (λ e. eqb_ℤ e back_to_main_menu ≡ false) back away))
  where
    unmet : eqb_ℤ back_to_main_menu back_to_main_menu ≡ false → ⊥
    unmet e = ground arith
leaves c (inr behaviour) away = behaviour

-- A stay that is not out of fuel, and that leaves the menus with a choice of them only.
unfoldable pub Settles : Stay → Type 0
Settles (chosen c left) = IsBehaviour c
Settles waiting = Unit
Settles out_of_fuel = ⊥

-- However the user clicks, and whatever keys he presses between: more visits to the menu than there are keys
-- are enough, so that the stay in the menus ends or still waits for a key; and when the menus are left, the
-- choice is to exit, to join a room, or to create a room for 2, 3 or 4 players.
pub get_behaviour-Settles :
    (fuel : ℕ) (keys : List Key) (selected : ℤ)
    → (selected ≡ back_to_main_menu) ⊎ IsBehaviour selected
    → length keys < fuel
    → Settles (get_behaviour fuel keys selected)
unfolding get_behaviour Settles
get_behaviour-Settles zero keys selected was enough = absurd (omega arith)
get_behaviour-Settles (suc fuel) keys selected was enough =
    elim (Bool-cases (eqb_ℤ selected back_to_main_menu)) [
      | inl back ↦
          rw (back, get_behaviour)
            (elim (Option-cases (main_menu keys)) [
              | inl none_yet ↦ rw (none_yet, get_behaviour) tt
              | inr ((c, left), picked) ↦
                  let (choice, shorter) = Yields_at (main_menu-Chosen keys) picked in
                  rw (picked, get_behaviour)
                    (get_behaviour-Settles fuel left c choice (omega arith))
            ])
      | inr away ↦ rw (away, get_behaviour) (leaves selected was away)
    ]

entry_of-exit : (n : ℕ) → 2 ≤ n → entry_of n ≡ exit
unfolding entry_of
entry_of-exit zero big = absurd (omega arith)
entry_of-exit (suc zero) big = absurd (omega arith)
entry_of-exit (suc (suc n)) big = refl

-- A click below the EXIT button leaves the program: in the columns of the buttons, every row from 16
-- on, of each seven the first five, counts as EXIT, though the button ends at row 20.
pub menu_click-below :
    (x y : ℕ) → 15 < x → x < 65 → 16 ≤ y → (y - 2) % 7 < 5 → menu_click x y ≡ some exit
unfolding menu_click
menu_click-below x y left right low row =
    let inside : (ltb 15 x && ltb x 65 && leb 2 y) ≡ true = ground arith in
    let on_a_button : leb 5 ((y - 2) % 7) ≡ false = ground arith in
    rw (inside, on_a_button) (ap some (entry_of-exit ((y - 2) / 7) (omega arith)))
