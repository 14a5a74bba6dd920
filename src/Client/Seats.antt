-- ===== src/Client/Seats.antt =====
-- What the waiting room and the list of players show (src/client.c).
use intellect_battle.Prelude.{
  ℕ, zero, suc, ◌+◌, ◌-◌, ◌<◌, ◌≤◌, ◌≡◌, refl, subst, none, some, List, [], ◌∷◌, ◌++◌, ltb,
  if◌then◌else◌, arith, lt→ltb, ltb-eq-false,
}
use intellect_battle.Memory.{c_string}
use intellect_battle.Client.Logic.{RoomInfo}
use intellect_battle.Client.Windows.{nicks}
use intellect_battle.Client.Drawing.{Seat, present, vacant, print_nickname}

-- The seats of a room with `occupancy` players of these names.
abbrev pub seats : (names : ℕ → List ℕ) → (occupancy rounds it : ℕ) → List Seat
seats names occupancy zero it = []
seats names occupancy (suc rounds) it =
    record { window = nicks it; name = if ltb it occupancy then some (names it) else none }
    ∷ seats names occupancy rounds (suc it)

module _ (room : RoomInfo) (names : ℕ → List ℕ)
    (named : (it : ℕ) → it < room.occupancy → c_string (room.usernames it) ≡ some (names it)) where
  present-seats :
      (rounds it : ℕ)
      → it + rounds ≤ room.occupancy
      → room.occupancy ≤ 4
      → present room rounds it ≡ some (seats names room.occupancy rounds it)
  unfolding present
  present-seats zero it within fits = refl
  present-seats (suc rounds) it within fits =
      let below : it < room.occupancy = omega arith in
      rw
        (
          lt→ltb it 4 (omega arith),
          named it below,
          present-seats rounds (suc it) (omega arith) fits,
          lt→ltb it room.occupancy below,
        )
        refl

  vacant-seats :
      (rounds it : ℕ)
      → room.occupancy ≤ it
      → vacant rounds it ≡ seats names room.occupancy rounds it
  unfolding vacant
  vacant-seats zero it past = refl
  vacant-seats (suc rounds) it past =
      rw (vacant-seats rounds (suc it) (omega arith), ltb-eq-false it room.occupancy past) refl

  seats-append :
      (rounds more it : ℕ)
      → seats names room.occupancy rounds it ++ seats names room.occupancy more (it + rounds)
        ≡ seats names room.occupancy (rounds + more) it
  seats-append zero more it =
      let here : it + 0 ≡ it = omega arith in
      let all : 0 + more ≡ more = omega arith in rw (here, all) refl
  seats-append (suc rounds) more it =
      let next : it + suc rounds ≡ suc it + rounds = omega arith in
      let all : suc rounds + more ≡ suc (rounds + more) = omega arith in
      rw (next, all, seats-append rounds more (suc it)) refl

  -- When at most four players are in the room and each name has its NUL, the list has four lines, from the
  -- bottom up: the players in the order in which they joined, then the free places.
  pub print_nickname-seats :
      room.occupancy ≤ 4 → print_nickname room ≡ some (seats names room.occupancy 4 0)
  unfolding print_nickname
  print_nickname-seats fits =
      let all : room.occupancy + (4 - room.occupancy) ≡ 4 = omega arith in
      let start : 0 + room.occupancy ≡ room.occupancy = omega arith in
      let joined = seats-append room.occupancy (4 - room.occupancy) 0 in
      rw
        (
          present-seats room.occupancy 0 (omega arith) fits,
          vacant-seats (4 - room.occupancy) room.occupancy (omega arith),
          subst
              (λ n.
                seats names room.occupancy room.occupancy 0
                  ++ seats names room.occupancy (4 - room.occupancy) n
                ≡ seats names room.occupancy (room.occupancy + (4 - room.occupancy)) 0)
              start joined,
          all,
        )
        refl
