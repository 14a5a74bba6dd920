-- ===== src/Client/Rounds.antt =====
-- How many answers a game of `game_loop` (src/client.c) takes, and who is told that he has lost.
use intellect_battle.Prelude.{
  ℕ, ◌+◌, ◌-◌, ◌/◌, ◌≤◌, ◌≡◌, refl, ap, ◌⊎◌, inl, inr, true, false, ◌&&◌, Option, none, some, List,
  [], ◌∷◌, ◌++◌, ℤ, pos, negsuc, eqb_ℤ, ltb, if◌then◌else◌, length, arith, Bool-cases, Option-cases,
  Yields, yields, fails, chain, Yields-mono, Yields_at,
}
use intellect_battle.Memory.{Mem}
use intellect_battle.Client.Logic.{
  RoomInfo, ShownUnit, get_unit, is_loser, send_ans, code_success, code_failure, game_cont,
  game_over,
}
use intellect_battle.Client.Menu.{Key, mouse, other}
use intellect_battle.Client.Drawing.{print_nickname}
use intellect_battle.Client.Texts.{print_unit}
use intellect_battle.Client.Play.{
  Shown, Turn, Pass, Played, returned, waiting, undefined, packets, verdict, give_up, next_unit,
  pick, idle_pass, pass, before, turns, play_from, game_loop,
}

-- The number of answers a play has sent.
unfoldable pub answers : Played → ℕ
answers (returned status out shown) = length out
answers (waiting out) = length out
answers undefined = 0

-- After such a pass the loop does not go round again.
abbrev Stops : Pass → Type 0
Stops p = (p.broke ≡ true) ⊎ (p.status ≡ code_success)

verdict-Stops :
    (win_id : ℕ) (unit : ShownUnit) (room : RoomInfo) (out : List Mem)
    → Yields (λ p. Stops p × (p.out ≡ out)) (verdict win_id code_success unit room out)
unfolding verdict
verdict-Stops win_id unit room out = elim (Option-cases (is_loser room)) [
  | inl e ↦ rw e fails
  | inr (loser, e) ↦ elim (Bool-cases (eqb_ℤ loser game_over)) [
    | inl lost ↦ rw (e, lost) (yields (inl refl, refl))
    | inr won ↦ rw (e, won) (yields (inr refl, refl))
  ]
]

give_up-Stops :
    (win_id : ℕ) (status : ℤ) (unit : ShownUnit) (room : RoomInfo) (out : List Mem)
    → Stops (give_up win_id status unit room out)
      × ((give_up win_id status unit room out).out ≡ out)
unfolding give_up
give_up-Stops win_id status unit room out = (inl refl, refl)

abbrev Last : List Mem → Pass → Type 0
Last out p = Stops p × (p.out ≡ out)

success : (status : ℤ) → eqb_ℤ status code_success ≡ true → status ≡ code_success
success (pos n) e = ap pos (ground arith)
success (negsuc n) e = absurd (ground arith)

next_unit-Stops :
    (win_id : ℕ) (turn : Turn) (unit : ShownUnit) (room : RoomInfo) (out : List Mem)
    → Yields (Last out) (next_unit win_id turn unit room out)
unfolding next_unit
next_unit-Stops win_id turn unit room out =
    chain (get_unit turn.stack_in turn.delivered (some unit) (some room))
      (λ (status, q, r) at. chain q (λ u at_u. chain r (λ m at_m. by_status status u m)))
  where
    by_status :
        (status : ℤ) (u : ShownUnit) (m : RoomInfo)
        → Yields (Last out) (
            if eqb_ℤ status code_success
            then verdict win_id status u m out
            else some (give_up win_id status u m out))
    by_status status u m = elim (Bool-cases (eqb_ℤ status code_success)) [
      | inl ok ↦ rw (ok, success status ok) (verdict-Stops win_id u m out)
      | inr bad ↦ rw bad (yields (give_up-Stops win_id status u m out))
    ]

packets-short : (o : Option Mem) → length (packets o) ≤ 1
unfolding packets
packets-short none = omega arith
packets-short (some m) = omega arith

-- A pass that goes on has sent nothing, and no pass sends more than one packet.
abbrev Single : Pass → Type 0
Single p = (length p.out ≤ 1) × (Stops p ⊎ (length p.out ≡ 0))

Single-Last : (o : Option Mem) (p : Pass) → Last (packets o) p → Single p
Single-Last o p (stops, e) = (rw e (packets-short o), inl stops)

pick-Single :
    (win_id : ℕ) (turn : Turn) (unit : ShownUnit) (room : RoomInfo)
    → Yields Single (pick win_id turn unit room)
unfolding pick
pick-Single win_id turn unit room =
    let s = send_ans turn.stack_out turn.sent win_id turn.time in
    elim (Bool-cases (ltb win_id 4)) [
      | inr e ↦ rw e fails
      | inl e ↦ elim (Bool-cases (eqb_ℤ s.0 code_success)) [
        | inl ok ↦
            rw (e, ok)
              (Yields-mono (next_unit-Stops win_id turn unit room (packets s.1)) (Single-Last s.1))
        | inr bad ↦
            rw (e, bad)
              (yields (
                Single-Last s.1 (give_up win_id s.0 unit room (packets s.1))
                  (give_up-Stops win_id s.0 unit room (packets s.1))))
      ]
    ]

pass-Single :
    (key : Key) (status : ℤ) (turn : Turn) (unit : ShownUnit) (room : RoomInfo)
    → Yields Single (pass key status turn unit room)
unfolding pass idle_pass
pass-Single (mouse x y) status turn unit room = elim (Bool-cases (ltb x 50 && ltb 8 y)) [
  | inl e ↦ rw e (pick-Single ((y - 8) / 4) turn unit room)
  | inr e ↦ rw e (yields (omega arith, inr refl))
]
pass-Single other status turn unit room = yields (omega arith, inr refl)

-- Nothing more is sent once a pass has stopped.
turns-ended :
    (status : ℤ) (unit : ShownUnit) (room : RoomInfo) (clicks : List Turn)
    → eqb_ℤ status game_cont ≡ false
    → answers (turns status unit room clicks) ≡ 0
unfolding turns answers
turns-ended status unit room [] over = rw (over, turns) refl
turns-ended status unit room (t ∷ clicks) over = rw (over, turns) refl

length-++ : (a b : List Mem) → length (a ++ b) ≡ length a + length b
length-++ [] b = omega arith
length-++ (x ∷ a) b = ground (arith, length-++ a b)

answers-before :
    (out : List Mem) (shown : List Shown) (more : Played)
    → answers (before out shown more) ≤ length out + answers more
unfolding answers before
answers-before out shown (returned status out' shown') = rw (length-++ out out') (omega arith)
answers-before out shown (waiting out') = rw (length-++ out out') (omega arith)
answers-before out shown undefined = omega arith

at_most : {a b c : ℕ} → a ≤ b → b ≤ c → a ≤ c
at_most low high = omega arith

turns-once :
    (status : ℤ) (unit : ShownUnit) (room : RoomInfo) (clicks : List Turn)
    → answers (turns status unit room clicks) ≤ 1
unfolding turns answers
turns-once status unit room [] = elim (Bool-cases (eqb_ℤ status game_cont)) [
  | inl e ↦ rw (e, turns) (omega arith)
  | inr e ↦ rw (e, turns) (omega arith)
]
turns-once status unit room (t ∷ clicks) = elim (Bool-cases (eqb_ℤ status game_cont)) [
  | inr e ↦ rw (e, turns) (omega arith)
  | inl e ↦ elim (Option-cases (pass t.key status t unit room)) [
    | inl fail ↦ rw (e, fail, turns) (omega arith)
    | inr (p, at) ↦
        rw (e, at, turns)
          (after p (Yields_at (pass-Single t.key status t unit room) at)
            (turns-once p.status p.question p.r_info clicks))
  ]
]
  where
    after :
        (p : Pass)
        → Single p
        → answers (turns p.status p.question p.r_info clicks) ≤ 1
        → answers (
            before p.out p.shown (
              if p.broke
              then returned p.status [] []
              else turns p.status p.question p.r_info clicks))
          ≤ 1
    after p (short, inl (inl broke)) once =
        rw broke (at_most (answers-before p.out p.shown (returned p.status [] [])) (omega arith))
    after p (short, inl (inr done)) once = elim (Bool-cases p.broke) [
      | inl e ↦
          rw e (at_most (answers-before p.out p.shown (returned p.status [] [])) (omega arith))
      | inr e ↦
          let over = turns-ended p.status p.question p.r_info clicks (rw done refl) in
          rw e (
            at_most (answers-before p.out p.shown (turns p.status p.question p.r_info clicks))
              (omega arith))
    ]
    after p (short, inr nothing) once = elim (Bool-cases p.broke) [
      | inl e ↦
          rw e (at_most (answers-before p.out p.shown (returned p.status [] [])) (omega arith))
      | inr e ↦ rw e (
          at_most (answers-before p.out p.shown (turns p.status p.question p.r_info clicks))
            (omega arith))
    ]

play_from-once :
    (first : Option (ℤ × Option ShownUnit × Option RoomInfo)) (clicks : List Turn)
    → answers (play_from first clicks) ≤ 1
unfolding play_from answers
play_from-once none clicks = omega arith
play_from-once (some (status, none, room)) clicks = omega arith
play_from-once (some (status, some unit, none)) clicks = omega arith
play_from-once (some (status, some unit, some room)) clicks =
    elim (Bool-cases (eqb_ℤ status code_failure)) [
      | inl e ↦ rw e (omega arith)
      | inr e ↦ elim (Option-cases (print_unit unit)) [
        | inl unprinted ↦ rw (e, unprinted) (omega arith)
        | inr (texts, printed) ↦ rw (e, printed) (turns-once status unit room clicks)
      ]
    ]

-- However often the player clicks and whatever the server sends, `game_loop` sends at most one
-- answer: after the first one it returns, also when `get_unit` says that the game goes on.
pub game_loop-once :
    (raw : Mem) (delivered : Option (List ℕ)) (question : ShownUnit) (r_info : RoomInfo)
    (clicks : List Turn)
    → answers (game_loop raw delivered question r_info clicks) ≤ 1
unfolding game_loop answers
game_loop-once raw delivered question r_info clicks = elim (Option-cases (print_nickname r_info)) [
  | inl unprinted ↦ rw (unprinted, game_loop) (omega arith)
  | inr (seats, printed) ↦
      rw (printed, game_loop)
        (play_from-once (get_unit raw delivered (some question) (some r_info)) clicks)
]
