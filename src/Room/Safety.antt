-- ===== src/Room/Safety.antt =====
-- No undefined behaviour in `room_fsm` (src/room.c): every round has a result.
use intellect_battle.Prelude.{
  ℕ, zero, suc, ◌+◌, ◌≤◌, ◌<◌, ◌%◌, ◌≡◌, refl, some, List, [], ◌∷◌, arith, Returns, bind,
  Option-cases, Bool-cases, ◌==◌, inl, inr, lt→ltb, le→leb, All, returns,
}
use intellect_battle.Memory.{Mem, c_string}
use intellect_battle.Packet.{JoinInfo, Player, user_count}
use intellect_battle.Units.{Heap, Ptr, UnitNode, walk}
use intellect_battle.Room.State.{
  State, Room, Input, init, wait, game, gameover, fin, exit, last_quest, set_at, max_step,
}
use intellect_battle.Room.Lobby.{init_step, wait_step, first_packet, wait_packet, reset}
use intellect_battle.Room.Game.{game_step, play, next_quest, put_question}
use intellect_battle.Room.Machine.{gameover_step, fin_step, step, run, dispatch}

-- The char array holds a NUL.
abbrev pub HasText : List ℕ → Type 0
HasText src = (s : List ℕ) × (c_string src ≡ some s)

-- A message with which a room can be opened or entered.
pub record IsSound (msg : JoinInfo) : Type 0 where
  pub least : 2 ≤ msg.room_size
  pub most : msg.room_size ≤ user_count
  pub named : HasText msg.player.username

abbrev pub Admissible : Input → Type 0
Admissible io = (msg : JoinInfo) → io.msgrcv ≡ some msg → IsSound msg

-- The texts of a unit end within their arrays.
pub record HasTexts (u : UnitNode) : Type 0 where
  pub quest : HasText u.quest
  pub ans0 : HasText (u.ans 0)
  pub ans1 : HasText (u.ans 1)
  pub ans2 : HasText (u.ans 2)
  pub ans3 : HasText (u.ans 3)

-- The units at the addresses `On` are linked among themselves.
abbrev pub Ring : (Ptr → Type 0) → Heap → Type 0
Ring On h = (p : Ptr) → On p → (u : UnitNode) × (h p ≡ some u) × On u.next × HasTexts u

-- What holds of the thread between two rounds.
pub record Inv (On : Ptr → Type 0) (r : Room) : Type 0 where
  pub placed : On r.cur_unit
  pub open_room : r.state ≡ wait → (2 ≤ r.room_size) × (r.room_size ≤ 4)
  pub joined : r.state ≡ wait → (1 ≤ r.last_plr_id) × (r.last_plr_id < r.room_size)
  pub full : r.state ≡ game → (2 ≤ r.room_size) × (r.room_size ≤ 4)
  pub closing : r.state ≡ gameover → r.room_size ≤ 4
  pub failed : r.state ≡ fin → r.last_plr_id ≤ 4
  pub round_bound : r.quest_num ≤ last_quest

first_packet-Returns :
    (m : Mem) (msg : JoinInfo)
    → HasText msg.player.username
    → Returns (λ _. Unit {0}) (first_packet m msg)
unfolding first_packet
first_packet-Returns m msg (s, e) = rw e (returns tt)

pub wait_packet-Returns :
    (m : Mem) (last size : ℕ) (p : Player)
    → HasText p.username
    → Returns (λ _. Unit {0}) (wait_packet m last size p)
unfolding wait_packet
wait_packet-Returns m last size p (s, e) = rw e (returns tt)

pub put_question-Returns :
    (m : Mem) (u : UnitNode) → HasTexts u → Returns (λ _. Unit {0}) (put_question m u)
unfolding put_question
put_question-Returns m u t = rw (t.quest.1, t.ans0.1, t.ans1.1, t.ans2.1, t.ans3.1) (returns tt)

module _ (On : Ptr → Type 0) where
  pub walk-On : (h : Heap) (n : ℕ) (p : Ptr) → Ring On h → On p → Returns On (walk h n p)
  unfolding walk
  walk-On h zero p ring on = returns on
  walk-On h (suc n) p ring on =
      let (u, e, next, texts) = ring p on in rw e (walk-On h n u.next ring next)

  -- INIT has a result and keeps the invariant.
  init_step-Inv :
      (io : Input) (r : Room)
      → Inv On r
      → Admissible io
      → Returns (λ (r', es). Inv On r') (init_step io r)
  unfolding init_step reset
  init_step-Inv io r v sound = elim (Option-cases io.msgrcv) [
    | inl e ↦ rw e (returns (ground arith))
    | inr (msg, e) ↦
        let s = sound msg e in
        rw e (bind (first_packet-Returns _ msg s.named) λ packet _. returns (ground arith))
  ]

  -- WAIT has a result and keeps the invariant.
  wait_step-Inv :
      (io : Input) (r : Room)
      → Inv On r
      → r.state ≡ wait
      → Admissible io
      → Returns (λ (r', es). Inv On r') (wait_step io r)
  unfolding wait_step set_at
  wait_step-Inv io r v at sound = elim (Option-cases io.msgrcv) [
    | inl e ↦ rw e (returns (ground arith))
    | inr (msg, e) ↦
        let s = sound msg e in
        rw (e, lt→ltb r.last_plr_id 4 (omega (arith, v.joined at, v.open_room at)))
          (bind (wait_packet-Returns _ _ _ msg.player s.named) λ packet _. returns (ground arith))
  ]

  play-Inv :
      (io : Input) (u : UnitNode) (r : Room) → Inv On r → r.state ≡ game → Inv On (play io u r).0
  unfolding play next_quest
  play-Inv io u r v at = ground arith

  turned_to :
      {r : Room} {p : Ptr} {m : Mem}
      → Inv On r
      → On p
      → Inv On (record r { cur_unit = p; spack = m })
  turned_to v on = ground arith

  -- GAME has a result and keeps the invariant.
  pub game_step-Inv :
      (h : Heap) (io : Input) (r : Room)
      → Ring On h
      → Inv On r
      → r.state ≡ game
      → Returns (λ (r', es). Inv On r') (game_step h io r)
  unfolding game_step
  game_step-Inv h io r ring v at = elim (Bool-cases (r.quest_num == 0)) [
    | inl z ↦ rw z (returns (ground arith))
    | inr nz ↦ rw nz (
        bind (walk-On h (io.rand % max_step + 1) r.cur_unit ring v.placed) λ p on.
          let (u, e, next, texts) = ring p on in
          rw e (
            bind (put_question-Returns _ u texts) λ m _.
              rw (le→leb r.room_size 4 (omega (arith, v.full at)))
                (returns (play-Inv io u _ (turned_to v on) at))))
  ]

  -- In every state a round has a result and keeps the invariant.
  pub step-Inv :
      (h : Heap) (io : Input) (r : Room)
      → Ring On h
      → Inv On r
      → Admissible io
      → Returns (λ (r', es). Inv On r') (step h io r)
  unfolding step gameover_step fin_step
  step-Inv h io r ring v sound = by_state r.state refl
    where
      by_state : (s : State) → r.state ≡ s → Returns (λ (r', es). Inv On r') (dispatch s h io r)
      by_state init at = init_step-Inv io r v sound
      by_state wait at = wait_step-Inv io r v at sound
      by_state game at = game_step-Inv h io r ring v at
      by_state gameover at = rw (le→leb r.room_size 4 (v.closing at)) (returns (ground arith))
      by_state fin at = rw (le→leb r.last_plr_id 4 (v.failed at)) (returns (ground arith))
      by_state exit at = returns v

  pub run-Inv :
      (h : Heap) (ios : List Input) (r : Room)
      → Ring On h
      → Inv On r
      → All Admissible ios
      → Returns (λ (r', es). Inv On r') (run h ios r)
  unfolding run
  run-Inv h [] r ring v sound = returns v
  run-Inv h (io ∷ ios) r ring v (one, more) =
      bind (step-Inv h io r ring v one)
        λ (r', es) v'. bind (run-Inv h ios r' ring v' more) λ (r'', es') v''. returns v''
