-- ===== src/Client/Verdict.antt =====
-- Whom `game_loop` (src/client.c) tells that he has lost.
use intellect_battle.Prelude.{
  ◌⊎◌, refl, arith, ℕ, ◌-◌, ◌/◌, ◌≡◌, inl, inr, Bool, true, false, ◌&&◌, some, List, [], ◌∷◌, ℤ,
  pos, signed, eqb_ℤ, ltb_ℤ, ltb, if◌then◌else◌, Bool-cases, Option-cases, Yields, yields, fails,
  chain,
}
use intellect_battle.Memory.{Mem}
use intellect_battle.Client.Logic.{
  RoomInfo, ShownUnit, get_unit, is_loser, send_ans, code_success, game_over,
}
use intellect_battle.Client.Menu.{Key, mouse, other}
use intellect_battle.Client.Play.{
  Shown, blue, red, green, game_lost, Turn, Pass, packets, verdict, give_up, next_unit, pick,
  idle_pass, pass,
}

-- Is the window GAME_LOST among what was shown?
unfoldable pub tells : List Shown → Bool
tells [] = false
tells (game_lost ∷ shown) = true
tells (blue w ∷ shown) = tells shown
tells (red w ∷ shown) = tells shown
tells (green w ∷ shown) = tells shown

-- The score of the client's own player, as the `char` it is.
abbrev pub points : RoomInfo → ℤ
points room = signed (room.score room.id)

abbrev pub LostHasPoints : Pass → Type 0
LostHasPoints p = (tells p.shown ≡ false) ⊎ (ltb_ℤ (pos 0) (points p.r_info) ≡ true)

is_loser-points :
    (room : RoomInfo) (loser : ℤ)
    → is_loser room ≡ some loser
    → eqb_ℤ loser game_over ≡ true
    → ltb_ℤ (pos 0) (points room) ≡ true
unfolding is_loser
is_loser-points room loser at over = elim (Bool-cases (ltb_ℤ (pos 0) (points room))) [
  | inl e ↦ e
  | inr e ↦ grind arith
]

verdict-points :
    (win_id : ℕ) (status : ℤ) (unit : ShownUnit) (room : RoomInfo) (out : List Mem)
    → Yields LostHasPoints (verdict win_id status unit room out)
unfolding verdict tells
verdict-points win_id status unit room out = elim (Option-cases (is_loser room)) [
  | inl e ↦ rw e fails
  | inr (loser, e) ↦ elim (Bool-cases (eqb_ℤ loser game_over)) [
    | inl lost ↦ rw (e, lost) (yields (inr (is_loser-points room loser e lost)))
    | inr won ↦ rw (e, won) (yields (inl refl))
  ]
]

give_up-points :
    (win_id : ℕ) (status : ℤ) (unit : ShownUnit) (room : RoomInfo) (out : List Mem)
    → LostHasPoints (give_up win_id status unit room out)
unfolding give_up tells
give_up-points win_id status unit room out = inl refl

next_unit-points :
    (win_id : ℕ) (turn : Turn) (unit : ShownUnit) (room : RoomInfo) (out : List Mem)
    → Yields LostHasPoints (next_unit win_id turn unit room out)
unfolding next_unit
next_unit-points win_id turn unit room out =
    chain (get_unit turn.stack_in turn.delivered (some unit) (some room))
      (λ (status, q, r) at. chain q (λ u at_u. chain r (λ m at_m. by_status status u m)))
  where
    by_status :
        (status : ℤ) (u : ShownUnit) (m : RoomInfo)
        → Yields LostHasPoints (
            if eqb_ℤ status code_success
            then verdict win_id status u m out
            else some (give_up win_id status u m out))
    by_status status u m = elim (Bool-cases (eqb_ℤ status code_success)) [
      | inl ok ↦ rw ok (verdict-points win_id status u m out)
      | inr bad ↦ rw bad (yields (give_up-points win_id status u m out))
    ]

pick-points :
    (win_id : ℕ) (turn : Turn) (unit : ShownUnit) (room : RoomInfo)
    → Yields LostHasPoints (pick win_id turn unit room)
unfolding pick
pick-points win_id turn unit room =
    let s = send_ans turn.stack_out turn.sent win_id turn.time in
    elim (Bool-cases (ltb win_id 4)) [
      | inr e ↦ rw e fails
      | inl e ↦ elim (Bool-cases (eqb_ℤ s.0 code_success)) [
        | inl ok ↦ rw (e, ok) (next_unit-points win_id turn unit room (packets s.1))
        | inr bad ↦ rw (e, bad) (yields (give_up-points win_id s.0 unit room (packets s.1)))
      ]
    ]

idle_pass-points :
    (status : ℤ) (unit : ShownUnit) (room : RoomInfo) → LostHasPoints (idle_pass status unit room)
unfolding idle_pass tells
idle_pass-points status unit room = inl refl

-- Whatever is clicked and received, a pass of the loop that shows the window GAME_LOST shows it to a
-- player who has more than 0 points.
pub pass-points :
    (key : Key) (status : ℤ) (turn : Turn) (unit : ShownUnit) (room : RoomInfo)
    → Yields LostHasPoints (pass key status turn unit room)
unfolding pass
pass-points (mouse x y) status turn unit room = elim (Bool-cases (ltb x 50 && ltb 8 y)) [
  | inl e ↦ rw e (pick-points ((y - 8) / 4) turn unit room)
  | inr e ↦ rw e (yields (idle_pass-points status unit room))
]
pass-points other status turn unit room = yields (idle_pass-points status unit room)
