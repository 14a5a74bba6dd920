-- ===== src/Network/Games.antt =====
-- The games of the rooms in a server whose threads take their rounds in whatever order.
use intellect_battle.Prelude.{
  ℕ, ◌≡◌, refl, sym, ◌∙◌, inl, inr, Option, some, List, length, All, Returns_at, Yields_at, ◌==◌,
  Bool-cases,
}
use intellect_battle.Units.{Heap, Ptr}
use intellect_battle.Room.State.{Room, Input, Event, wait, game, assign}
use intellect_battle.Room.Machine.{step}
use intellect_battle.Room.Safety.{Ring, Inv, step-Inv}
use intellect_battle.Room.Rules.{IsWhole}
use intellect_battle.Room.Opening.{Opening, NewUpTo, step-Opening, step-Begins}
use intellect_battle.Room.Course.{Follows}
use intellect_battle.Room.Evening.{begun, begun-Follows}
use intellect_battle.Network.Queue.{join, Kernel}
use intellect_battle.Network.Steps.{
  room_asks, Receipt, System, Step, Reach, accept, work, serve, start, later,
}
use intellect_battle.Network.Workers.{IsProperPacket}
use intellect_battle.Network.Safety.{IsSafe, Receipt-Admissible, Reach-IsSafe}

-- A room behaves like one that satisfies its invariant and has the scores of the lobby while it is there.
abbrev pub IsOpened : (Ptr → Type 0) → Heap → Room → Type 0
IsOpened On heap r =
    (r' : Room) × Inv On r'
    × Opening r'
    × (r.state ≡ r'.state)
    × ((io : Input) → step heap io r ≡ step heap io r')

module _ {Q : Type 0} (kernel : Kernel Q) (On : Ptr → Type 0) (heap : Heap)
    (ring : Ring On heap) where
  module _ (s : System Q) (safe : IsSafe kernel On heap s)
      (opened : (i : ℕ) → IsOpened On heap (s.rooms i)) (i : ℕ) (io : Input) (q : Q)
      (received : Receipt kernel join s.queue (room_asks (s.rooms i).state) io.msgrcv q) (r' : Room)
      (es : List Event) (acts : step heap io (s.rooms i) ≡ some (r', es)) where
    serve-Inv : Inv On r' × Opening r'
    serve-Inv =
        let (r, v, opens, same, alike) = opened i in
        let sound =
          Receipt-Admissible kernel On heap s.queue q (room_asks (s.rooms i).state) io safe.messages
            received in
        let acts' = sym (alike io) ∙ acts in
        (
          Returns_at (step-Inv On heap io r ring v sound) acts',
          Yields_at (step-Opening On heap io r v opens) acts',
        )

    -- A room that passes from WAIT to GAME.
    pub serve-Follows :
        (ios : List Input)
        → (s.rooms i).state ≡ wait
        → r'.state ≡ game
        → length ios ≡ 16
        → All (λ io. (id : ℕ) → IsWhole (io.recv id)) ios
        → NewUpTo r'.room_size r' × Follows On heap ios 0 r' (λ j. begun (r'.score j))
    serve-Follows ios waits plays count whole =
        let (r, v, opens, same, alike) = opened i in
        let new =
          Yields_at (step-Begins On heap io r v opens (sym same ∙ waits)) (sym (alike io) ∙ acts)
            plays in
        (new, begun-Follows On heap ring ios r' serve-Inv.0 plays new count whole)

  module _ (Peer : Option (List ℕ) → Type 0) (wnum rnum : ℕ)
      (polite : (got : Option (List ℕ)) → Peer got → IsProperPacket got) where
    Step-IsOpened :
        {s t : System Q}
        → Step kernel Peer heap wnum rnum s t
        → IsSafe kernel On heap s
        → ((i : ℕ) → IsOpened On heap (s.rooms i))
        → (i : ℕ) → IsOpened On heap (t.rooms i)
    unfolding assign
    Step-IsOpened (accept socket) safe opened j = opened j
    Step-IsOpened (work i io q below r met) safe opened j = opened j
    Step-IsOpened {s} (serve i io q r' es below r acts) safe opened j =
        let (v, opens) = serve-Inv s safe opened i io q r r' es acts in
        elim (Bool-cases (j == i)) [
          | inl here ↦ rw here (r', v, opens, refl, λ io. refl)
          | inr there ↦ rw there (opened j)
        ]

    pub Reach-IsOpened :
        {s t : System Q}
        → IsSafe kernel On heap s
        → ((i : ℕ) → IsOpened On heap (s.rooms i))
        → Reach kernel Peer heap wnum rnum s t
        → (i : ℕ) → IsOpened On heap (t.rooms i)
    Reach-IsOpened safe opened start j = opened j
    Reach-IsOpened safe opened (later r step) j =
        Step-IsOpened step (Reach-IsSafe kernel On heap Peer wnum rnum ring polite safe r)
          (Reach-IsOpened safe opened r) j
