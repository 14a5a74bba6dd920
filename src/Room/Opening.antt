-- ===== src/Room/Opening.antt =====
-- What the lobby of `room_fsm` (src/room.c) hands on to the game: the number of the first question and
-- the scores.
use intellect_battle.Prelude.{
  ℕ, zero, suc, ◌+◌, ◌%◌, ◌<◌, ◌≡◌, refl, ◌⊎◌, inl, inr, List, [], ◌∷◌, arith, ◌==◌, if◌then◌else◌,
  is_negative, leb, lt→ltb, Bool-cases, Option-cases, All, Returns, bind, returns, Returns-Yields,
  Yields, Yields-mono, fails, yields, chain,
}
use intellect_battle.Units.{Heap, Ptr}
use intellect_battle.Packet.{Player}
use intellect_battle.Room.State.{
  Room, Input, State, init, wait, game, gameover, fin, exit, set_at, assign,
}
use intellect_battle.Room.Lobby.{
  reset, first_packet, init_step, Notice, notify, wait_packet, wait_step,
}
use intellect_battle.Room.Machine.{step, run, dispatch, gameover_step, fin_step}
use intellect_battle.Room.Ending.{game_step-Progress}
use intellect_battle.Room.Safety.{Ring, Inv, Admissible, step-Inv}

-- The score of a player who has not played yet, and of one who was lost in the lobby.
abbrev pub IsNew : ℕ → Type 0
IsNew n = (n ≡ 0) ⊎ (n ≡ 254)

-- The players below `count` are new, and the first question comes next.
abbrev pub NewUpTo : ℕ → Room → Type 0
NewUpTo count r = (r.quest_num ≡ 1) × ((j : ℕ) → j < count → IsNew (r.score j))

-- What the rounds of the lobby hand on.
abbrev pub Opening : Room → Type 0
Opening r = r.state ≡ wait → NewUpTo r.last_plr_id r

notify-IsNew :
    (io : Input) (players : ℕ → Player) (count rounds id : ℕ) (n : Notice)
    → ((j : ℕ) → j < count → IsNew (n.score j))
    → (j : ℕ) → j < count
    → IsNew ((notify io players rounds id n).score j)
unfolding notify assign
notify-IsNew io players count zero id n new j below = new j below
notify-IsNew io players count (suc rounds) id n new j below =
    elim (Bool-cases (is_negative (io.send id))) [
      | inl e ↦ rw e (elim (Bool-cases (j == id)) [
        | inl here ↦ rw here (inr refl)
        | inr there ↦ rw there (new j below)
      ])
      | inr e ↦ rw e (notify-IsNew io players count rounds (suc id) _ new j below)
    ]

-- The player who joins is new, and so are the others.
joined-IsNew :
    (score : ℕ → ℕ) (last : ℕ)
    → ((j : ℕ) → j < last → IsNew (score j))
    → (j : ℕ) → j < last + 1
    → IsNew (assign score last 0 j)
unfolding assign
joined-IsNew score last new j below = elim (Bool-cases (j == last)) [
  | inl here ↦ rw here (inl refl)
  | inr there ↦ rw there (new j (ground arith))
]

-- A round that begins a game.
abbrev pub Begins : Room → Type 0
Begins r = r.state ≡ game → NewUpTo r.room_size r

init_step-Opening : (io : Input) (r : Room) → Yields (λ (r', es). Opening r') (init_step io r)
unfolding init_step reset assign
init_step-Opening io r = elim (Option-cases io.msgrcv) [
  | inl e ↦ rw e (yields (λ at. cc))
  | inr (msg, e) ↦
      rw e (chain (first_packet (reset r).spack msg) λ packet _. yields (λ at. (refl, first)))
]
  where
    first : (j : ℕ) → j < 1 → IsNew (assign r.score 0 0 j)
    first j below = joined-IsNew r.score 0 (λ k lt. absurd (omega arith)) j (omega arith)

-- The room after a player has joined.
joined : Room → (ℕ → Player) → Notice → Room
joined r players told = record r {
  players = players;
  score = told.score;
  spack = told.packet;
  state = if r.last_plr_id + 1 == r.room_size then game else wait;
  last_plr_id = (r.last_plr_id + 1) % 256;
}

joined-Opening :
    (r : Room) (players : ℕ → Player) (told : Notice)
    → r.last_plr_id < 4
    → r.quest_num ≡ 1
    → ((j : ℕ) → j < r.last_plr_id + 1 → IsNew (told.score j))
    → Opening (joined r players told) × Begins (joined r players told)
unfolding joined
joined-Opening r players told small first new =
    elim (Bool-cases (r.last_plr_id + 1 == r.room_size)) [
      | inl full ↦ rw full ((λ at. cc), (λ at. (first, λ j below. new j (ground arith))))
      | inr more ↦ rw more ((λ at. (first, λ j below. new j (omega arith))), (λ at. cc))
    ]

wait_step-Opening :
    (io : Input) (r : Room)
    → r.last_plr_id < 4
    → NewUpTo r.last_plr_id r
    → Yields (λ (r', es). Opening r' × Begins r') (wait_step io r)
unfolding wait_step set_at joined
wait_step-Opening io r small (first, new) = elim (Option-cases io.msgrcv) [
  | inl e ↦ rw e (yields ((λ at. cc), (λ at. cc)))
  | inr (msg, e) ↦
      rw (e, lt→ltb r.last_plr_id 4 small)
        (chain (wait_packet r.spack r.last_plr_id r.room_size msg.player) λ packet _. yields (
          let players = assign r.players r.last_plr_id msg.player in
          let arrived : Notice = record {
            packet = packet;
            score = assign r.score r.last_plr_id 0;
            events = [];
          } in
          let last = (r.last_plr_id + 1) % 256 in
          joined-Opening r players (notify io players last 0 arrived) small first (
            notify-IsNew io players (r.last_plr_id + 1) last 0 arrived
              (joined-IsNew r.score r.last_plr_id new))))
]

-- Every round keeps what the lobby hands on.
pub step-Opening :
    (On : Ptr → Type 0) (h : Heap) (io : Input) (r : Room)
    → Inv On r
    → Opening r
    → Yields (λ (r', es). Opening r') (step h io r)
unfolding step gameover_step fin_step
step-Opening On h io r v opens = by_state r.state refl
  where
    by_state : (s : State) → r.state ≡ s → Yields (λ (r', es). Opening r') (dispatch s h io r)
    by_state init at = init_step-Opening io r
    by_state wait at =
        Yields-mono (wait_step-Opening io r (omega (arith, v.joined at, v.open_room at)) (opens at))
          (λ (r', es) (opens', begins). opens')
    by_state game at =
        Yields-mono (game_step-Progress h io r v.round_bound)
          (λ (r', es) progress. λ now. elim progress [ inl over ↦ cc | inr (same, nearer) ↦ cc ])
    by_state gameover at = elim (Bool-cases (leb r.room_size 4)) [
      | inl e ↦ rw e (yields (λ now. cc))
      | inr e ↦ rw e fails
    ]
    by_state fin at = elim (Bool-cases (leb r.last_plr_id 4)) [
      | inl e ↦ rw e (yields (λ now. cc))
      | inr e ↦ rw e fails
    ]
    by_state exit at = yields opens

pub run-Opening :
    (On : Ptr → Type 0) (h : Heap) (ios : List Input) (r : Room)
    → Ring On h
    → Inv On r
    → Opening r
    → All Admissible ios
    → Returns (λ (r', es). Inv On r' × Opening r') (run h ios r)
unfolding run
run-Opening On h [] r ring v opens sound = returns (v, opens)
run-Opening On h (io ∷ ios) r ring v opens (one, more) =
    bind (Returns-Yields (step-Inv On h io r ring v one) (step-Opening On h io r v opens))
      λ (r', es) (v', opens').
        bind (run-Opening On h ios r' ring v' opens' more) λ (r'', es') now. returns now

-- The round in which a game begins.
pub step-Begins :
    (On : Ptr → Type 0) (h : Heap) (io : Input) (r : Room)
    → Inv On r
    → Opening r
    → r.state ≡ wait
    → Yields (λ (r', es). Begins r') (step h io r)
unfolding step
step-Begins On h io r v opens at = rw at (
    Yields-mono (wait_step-Opening io r (omega (arith, v.joined at, v.open_room at)) (opens at))
      (λ (r', es) (opens', begins). begins))
