-- ===== src/Room/Loops.antt =====
-- The two loops of a round of `room_fsm` (src/room.c), player by player.
use intellect_battle.Prelude.{
  ℕ, zero, suc, ◌+◌, ◌%◌, ◌<◌, ◌≤◌, ◌≡◌, refl, subst, ◌∙◌, Bool, not, ◌&&◌, Option, none, some,
  List, [], ◌∷◌, ℤ, is_negative, signed, leb, ltb, ltb_ℤ, leb_ℤ, eqb_ℤ, ◌==◌, if◌then◌else◌, get_or,
  take, length, arith, Option-cases, inl, inr,
}
use intellect_battle.Memory.{Mem}
use intellect_battle.Packet.{Player}
use intellect_battle.Units.{UnitNode}
use intellect_battle.Room.State.{Room, Input, gameover, plr_lost, for_each, for_each-at}
use intellect_battle.Room.Game.{Round, ask, judge, play, next_quest}
use intellect_battle.Room.Rules.{
  Standing, char_of, Fits, told, answered, round_rule, reaches, answer_of, IsWhole, is_told,
  receivers,
}

-- What `ask` makes of a score.
asked_char : ℤ → ℕ → ℕ
asked_char sent v =
    if leb_ℤ plr_lost (signed v)
    then (if is_negative sent then 254 else if eqb_ℤ (signed v) plr_lost then 254 else v)
    else v

ask-at :
    (io : Input) (players : ℕ → Player) (packet : Mem) (id j : ℕ) (s : Round)
    → (ask io players packet id s).score j
      ≡ (if j == id then asked_char (io.send id) (s.score id) else s.score j)
unfolding ask asked_char
ask-at io players packet id j s = ground arith

asked_char-char_of :
    (sent : ℤ) (st : Standing)
    → Fits st
    → asked_char sent (char_of st) ≡ char_of (told (not (is_negative sent)) st)
unfolding asked_char char_of told
asked_char-char_of sent st fit = ground arith

pub get_or-take :
    (n i : ℕ) (bs : List ℕ) (d : ℕ) → i < n → i < length bs → get_or (take n bs) i d ≡ get_or bs i 0
get_or-take zero i bs d lt in_range = absurd (omega arith)
get_or-take (suc n) i [] d lt in_range = absurd (omega arith)
get_or-take (suc n) zero (b ∷ bs) d lt in_range = refl
get_or-take (suc n) (suc i) (b ∷ bs) d lt in_range =
    get_or-take n i bs d (omega arith) (omega arith)

-- What `judge` makes of a score, when the reception is whole.
judged_char : Option ℕ → ℕ → ℕ → ℕ
judged_char none rans v = if ltb_ℤ plr_lost (signed v) then 254 else v
judged_char (some a) rans v =
    if ltb_ℤ plr_lost (signed v) then (if a == rans then (v + 1) % 256 else 255) else v

judge-at :
    (io : Input) (players : ℕ → Player) (rans : ℕ)
    → ((id : ℕ) → IsWhole (io.recv id))
    → (id j : ℕ) (s : Round)
    → (judge io players rans id s).score j
      ≡ (if j == id then judged_char (answer_of (io.recv id)) rans (s.score id) else s.score j)
unfolding judge judged_char
judge-at io players rans whole id j s = elim (Option-cases (io.recv id)) [
  | inl e ↦ rw e (ground arith)
  | inr (bs, e) ↦
      let w = subst IsWhole e (whole id) in rw e (ground (arith, get_or-take 56 8 bs (s.cpack 8)))
]

judged_char-char_of :
    (answer : Option ℕ) (rans : ℕ) (st : Standing)
    → Fits st
    → judged_char answer rans (char_of st) ≡ char_of (answered answer rans st)
unfolding judged_char char_of answered
judged_char-char_of answer rans st fit = ground arith

told-Fits : (reached : Bool) (st : Standing) → Fits st → Fits (told reached st)
unfolding told
told-Fits reached st fit = ground arith

abbrev in_range : ℕ → ℕ → Bool
in_range n j = leb 0 j && ltb j (0 + n)

module _ (io : Input) (players : ℕ → Player) (packet : Mem) (st : ℕ → Standing)
    (fits : (j : ℕ) → Fits (st j)) where
  -- The question loop moves each standing below the bound by `told`.
  pub asked_score :
      (n j : ℕ) (s : Round)
      → s.score j ≡ char_of (st j)
      → j < n
      → (for_each n 0 (ask io players packet) s).score j ≡ char_of (told (reaches io j) (st j))
  asked_score n j s same below =
      let at =
        for_each-at (λ (s : Round). s.score) (λ id v. asked_char (io.send id) v)
          (ask io players packet) (ask-at io players packet) n 0 j s in
      ground (arith, at, asked_char-char_of (io.send j) (st j) (fits j))

  asked_rest :
      (n j : ℕ) (s : Round) → n ≤ j → (for_each n 0 (ask io players packet) s).score j ≡ s.score j
  asked_rest n j s above =
      let at =
        for_each-at (λ (s : Round). s.score) (λ id v. asked_char (io.send id) v)
          (ask io players packet) (ask-at io players packet) n 0 j s in
      ground (arith, at)

  ask-alive :
      (id : ℕ) (s : Round)
      → s.score id ≡ char_of (st id)
      → s.alive < 127
      → (ask io players packet id s).alive
        ≡ s.alive + (if is_told (st id) && reaches io id then 1 else 0)
  unfolding ask char_of is_told
  ask-alive id s same small = ground (arith, fits id)

  -- The counter of the question loop is the number of players it reaches.
  asked-alive :
      (rounds id : ℕ) (s : Round)
      → ((j : ℕ) → id ≤ j → j < id + rounds → s.score j ≡ char_of (st j))
      → s.alive + rounds < 128
      → (for_each rounds id (ask io players packet) s).alive ≡ s.alive + receivers io st rounds id
  unfolding for_each receivers
  asked-alive zero id s same small = omega arith
  asked-alive (suc rounds) id s same small =
      let now = ask-alive id s (same id (omega arith) (omega arith)) (omega arith) in
      let later =
        asked-alive rounds (suc id) (ask io players packet id s)
          (λ j below above.
            ask-at io players packet id j s ∙ ground (arith, same j (omega arith) (omega arith)))
          (ground arith) in
      ground arith

  -- Both loops together follow the rule of a round.
  pub judged_score :
      (rans n j : ℕ) (s : Round)
      → ((id : ℕ) → IsWhole (io.recv id))
      → s.score j ≡ char_of (st j)
      → j < n
      → (for_each n 0 (judge io players rans) (for_each n 0 (ask io players packet) s)).score j
        ≡ char_of (round_rule (reaches io j) (answer_of (io.recv j)) rans (st j))
  unfolding round_rule
  judged_score rans n j s whole same below =
      let at =
        for_each-at (λ (s : Round). s.score) (λ id v. judged_char (answer_of (io.recv id)) rans v)
          (judge io players rans) (judge-at io players rans whole) n 0 j
          (for_each n 0 (ask io players packet) s) in
      let before = asked_score n j s same below in
      ground (
        arith,
        at,
        before,
        judged_char-char_of (answer_of (io.recv j)) rans (told (reaches io j) (st j))
            (told-Fits (reaches io j) (st j) (fits j)),
      )

-- Every player of the room has the score that stands for `st'`.
abbrev pub Scores : Room → (ℕ → Standing) → Type 0
Scores r st' = (j : ℕ) → j < r.room_size → r.score j ≡ char_of (st' j)

-- The loops of a round from the start of its `play`.
abbrev pub asked : Input → Room → Round
asked io r =
    for_each r.room_size 0 (ask io r.players r.spack)
      (record { score = r.score; alive = 0; cpack = r.cpack; events = [] })

module _ (io : Input) (r : Room) (st : ℕ → Standing) (fits : (j : ℕ) → Fits (st j)) where
  asked-alive_start :
      r.room_size ≤ 4 → Scores r st → (asked io r).alive ≡ receivers io st r.room_size 0
  asked-alive_start sized scored = ground (
    arith,
    asked-alive io r.players r.spack st fits r.room_size 0
        (record { score = r.score; alive = 0; cpack = r.cpack; events = [] })
        (λ j _ below. scored j (ground arith)) (omega arith),
  )

  pub play-over :
      (u : UnitNode)
      → r.room_size ≤ 4
      → Scores r st
      → receivers io st r.room_size 0 ≤ 1
      → play io u r
        ≡ (record r { score = (asked io r).score; state = gameover }, (asked io r).events)
  unfolding play
  play-over u sized scored few = ground (arith, asked-alive_start sized scored)

  pub play-on :
      (u : UnitNode)
      → r.room_size ≤ 4
      → Scores r st
      → 2 ≤ receivers io st r.room_size 0
      → receivers io st r.room_size 0 ≤ 4
      → let judged = for_each r.room_size 0 (judge io r.players u.rans) (asked io r) in
        play io u r ≡ (
          record r {
            score = judged.score;
            cpack = judged.cpack;
            quest_num = next_quest r.quest_num;
          },
          judged.events,
        )
  unfolding play
  play-on u sized scored many bound = ground (arith, asked-alive_start sized scored)

pub receivers-le :
    (io : Input) (st : ℕ → Standing) (rounds id : ℕ) → receivers io st rounds id ≤ rounds
unfolding receivers
receivers-le io st zero id = omega arith
receivers-le io st (suc rounds) id = ground (arith, receivers-le io st rounds (suc id))
