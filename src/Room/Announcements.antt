-- ===== src/Room/Announcements.antt =====
-- Every packet that `room_fsm` (src/room.c) sends is a lobby packet, or a question numbered 1 to 15.
use intellect_battle.Prelude.{
  All-append, ℕ, zero, suc, ◌+◌, ◌≤◌, ◌≡◌, ◌⊎◌, inl, inr, List, [], ◌∷◌, ◌++◌, arith, All,
  is_negative, ◌==◌, Option-cases, Bool-cases, Returns, bind, returns, Yields, fails, yields, chain,
  Returns-Yields, ◌%◌, leb, leb_ℤ, signed, pos,
}
use intellect_battle.Memory.{Mem, get_int}
use intellect_battle.Packet.{Player, s_wait, s_game}
use intellect_battle.Packet.SPack
use intellect_battle.Units.{Heap, UnitNode, Ptr, walk}
use intellect_battle.Room.State.{
  State, Room, Input, Event, init, wait, game, gameover, fin, exit, last_quest, max_step,
  for_each_inv, set_at,
}
use intellect_battle.Room.Lobby.{
  first_packet, wait_packet, Notice, notify, init_step, wait_step, reset,
}
use intellect_battle.Room.Game.{put_question, put_round, Round, ask, judge, play, game_step}
use intellect_battle.Room.Loops.{asked}
use intellect_battle.Room.Machine.{close_from, step, run, dispatch, gameover_step, fin_step}
use intellect_battle.Room.Packets.{
  tag, first_packet-tag, wait_packet-tag, put_round-tag, put_round-quest_num,
}
use intellect_battle.Room.Safety.{Ring, Inv, Admissible, step-Inv}

-- A packet either tells of the lobby, or is a question with a number from 1 to 15.
abbrev pub Announces : Mem → Type 0
Announces m =
    (tag m ≡ s_wait)
    ⊎ ((tag m ≡ s_game) × (1 ≤ m SPack.quest_num) × (m SPack.quest_num ≤ last_quest))

abbrev pub Proper : Event → Type 0
Proper (Event.send s m) = Announces m
Proper (Event.recv s) = Unit
Proper (Event.close s) = Unit

All-snoc {ℓ κ} :
    {A : Type ℓ} (P : A → Type κ) (xs : List A) (x : A) → All P xs → P x → All P (xs ++ x ∷ [])
All-snoc P [] x hx h = (h, tt)
All-snoc P (y ∷ xs) x hx h = (hx.0, All-snoc P xs x hx.1 h)

notify-Proper :
    (io : Input) (players : ℕ → Player) (rounds id : ℕ) (n : Notice)
    → tag n.packet ≡ s_wait
    → All Proper n.events
    → All Proper (notify io players rounds id n).events
unfolding notify
notify-Proper io players zero id n t proper = proper
notify-Proper io players (suc rounds) id n t proper = elim (Bool-cases (is_negative (io.send id))) [
  | inl e ↦ rw e (All-snoc Proper n.events _ proper (inl (unfold get_int in t)))
  | inr e ↦ rw e (
      notify-Proper io players rounds (suc id) _ (unfold get_int in t)
        (All-snoc Proper n.events _ proper (inl (unfold get_int in t))))
]

ask-Proper :
    (io : Input) (players : ℕ → Player) (packet : Mem) (id : ℕ) (s : Round)
    → Announces packet
    → All Proper s.events
    → All Proper (ask io players packet id s).events
unfolding ask
ask-Proper io players packet id s a proper =
    ground (arith, All-snoc Proper s.events (Event.send (players id).socket packet) proper a)

judge-Proper :
    (io : Input) (players : ℕ → Player) (rans id : ℕ) (s : Round)
    → All Proper s.events
    → All Proper (judge io players rans id s).events
unfolding judge
judge-Proper io players rans id s proper =
    ground (arith, All-snoc Proper s.events (Event.recv (players id).socket) proper tt)

play-Proper :
    (io : Input) (u : UnitNode) (r : Room) → Announces r.spack → All Proper (play io u r).1
unfolding play
play-Proper io u r a =
    let told =
      for_each_inv (λ (s : Round). All Proper s.events) r.room_size (ask io r.players r.spack)
        (λ id s _. ask-Proper io r.players r.spack id s a) r.room_size 0
        (record { score = r.score; alive = 0; cpack = r.cpack; events = [] }) (omega arith) tt in
    let judged =
      for_each_inv (λ (s : Round). All Proper s.events) r.room_size (judge io r.players u.rans)
        (λ id s _. judge-Proper io r.players u.rans id s) r.room_size 0 (asked io r) (omega arith)
        told in
    elim (Bool-cases (leb_ℤ (signed (asked io r).alive) (pos 1))) [
      | inl e ↦ rw e told
      | inr e ↦ rw e judged
    ]

close_from-Proper : (players : ℕ → Player) (n id : ℕ) → All Proper (close_from players n id)
unfolding close_from
close_from-Proper players zero id = tt
close_from-Proper players (suc n) id = (tt, close_from-Proper players n (suc id))

abbrev ProperStep : Room × List Event → Type 0
ProperStep (r', es) = All Proper es

init_step-Proper : (io : Input) (r : Room) → Yields ProperStep (init_step io r)
unfolding init_step
init_step-Proper io r = elim (Option-cases io.msgrcv) [
  | inl n ↦ rw n (yields tt)
  | inr (msg, m) ↦ rw m (
      chain (first_packet (reset r).spack msg)
        λ packet e. yields (inl (first_packet-tag _ msg e), tt))
]

wait_step-Proper : (io : Input) (r : Room) → Yields ProperStep (wait_step io r)
unfolding wait_step
wait_step-Proper io r = elim (Option-cases io.msgrcv) [
  | inl n ↦ rw n (yields tt)
  | inr (msg, m) ↦ rw m (
      chain (set_at r.players r.last_plr_id msg.player) λ players _.
        chain (set_at r.score r.last_plr_id 0) λ score _.
          chain (wait_packet r.spack r.last_plr_id r.room_size msg.player) λ packet e. yields (
            notify-Proper io players ((r.last_plr_id + 1) % 256) 0
              (record { packet = packet; score = score; events = [] })
              (wait_packet-tag r.spack r.last_plr_id r.room_size msg.player e) tt))
]

game_step-Proper :
    (h : Heap) (io : Input) (r : Room)
    → r.quest_num ≤ last_quest
    → Yields ProperStep (game_step h io r)
unfolding game_step
game_step-Proper h io r small = elim (Bool-cases (r.quest_num == 0)) [
  | inl z ↦ rw z (yields tt)
  | inr nz ↦ rw nz (
      chain (walk h (io.rand % max_step + 1) r.cur_unit) λ p _. chain (h p) λ u _.
        chain (put_question r.spack u) λ texts _. elim (Bool-cases (leb r.room_size 4)) [
          | inl fits ↦ rw fits (
              yields (
                play-Proper io u
                  (record r {
                    cur_unit = p;
                    spack = put_round texts r.score r.room_size r.quest_num;
                  })
                  (question texts (ground arith))))
          | inr not_fits ↦ rw not_fits fails
        ])
]
  where
    question :
        (texts : Mem)
        → 1 ≤ r.quest_num
        → Announces (put_round texts r.score r.room_size r.quest_num)
    question texts numbered = inr (
      put_round-tag texts r.score r.room_size r.quest_num,
      rw (put_round-quest_num texts r.score r.room_size r.quest_num) numbered,
      rw (put_round-quest_num texts r.score r.room_size r.quest_num) small,
    )

step-Proper :
    (h : Heap) (io : Input) (r : Room) → r.quest_num ≤ last_quest → Yields ProperStep (step h io r)
unfolding step gameover_step fin_step
step-Proper h io r small = by_state r.state
  where
    by_state : (s : State) → Yields ProperStep (dispatch s h io r)
    by_state init = init_step-Proper io r
    by_state wait = wait_step-Proper io r
    by_state game = game_step-Proper h io r small
    by_state gameover = elim (Bool-cases (leb r.room_size 4)) [
      | inl e ↦ rw e (yields (close_from-Proper r.players r.room_size 0))
      | inr e ↦ rw e fails
    ]
    by_state fin = elim (Bool-cases (leb r.last_plr_id 4)) [
      | inl e ↦ rw e (yields (close_from-Proper r.players r.last_plr_id 0))
      | inr e ↦ rw e fails
    ]
    by_state exit = yields tt

-- One round of a room that satisfies the invariant.
pub step-Inv-Proper :
    (On : Ptr → Type 0) (h : Heap) (io : Input) (r : Room)
    → Ring On h
    → Inv On r
    → Admissible io
    → Returns (λ (r', es). Inv On r' × All Proper es) (step h io r)
step-Inv-Proper On h io r ring v sound =
    Returns-Yields (step-Inv On h io r ring v sound) (step-Proper h io r v.round_bound)

pub run-Proper :
    (On : Ptr → Type 0) (h : Heap) (ios : List Input) (r : Room)
    → Ring On h
    → Inv On r
    → All Admissible ios
    → Returns (λ (r', es). Inv On r' × All Proper es) (run h ios r)
unfolding run
run-Proper On h [] r ring v sound = returns (v, tt)
run-Proper On h (io ∷ ios) r ring v (one, more) =
    bind (step-Inv-Proper On h io r ring v one) λ (r', es) (v', now).
      bind (run-Proper On h ios r' ring v' more)
        λ (r'', es') (v'', later). returns (v'', All-append Proper es es' now later)
