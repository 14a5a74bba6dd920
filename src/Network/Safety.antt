-- ===== src/Network/Safety.antt =====
-- What holds in every state that the server's threads can reach, in whatever order they take their
-- rounds.
use intellect_battle.Prelude.{
  ℕ, ◌≡◌, refl, sym, subst, inl, inr, Option, none, some, List, [], ◌∷◌, All, Returns, Returns_at,
  ◌==◌, Bool-cases, ℤ,
}
use intellect_battle.Packet.{msg_wrk}
use intellect_battle.Units.{Heap, Ptr}
use intellect_battle.Room.State.{Room, Input, assign}
use intellect_battle.Room.Machine as RoomThread
use intellect_battle.Room.Safety.{Ring, Inv, Admissible}
use intellect_battle.Room.Announcements.{Proper, step-Inv-Proper}
use intellect_battle.Worker.Machine.{Worker, Event}
use intellect_battle.Worker.Machine as WorkerThread
use intellect_battle.Network.Queue.{Message, connection, join, Kernel}
use intellect_battle.Network.Steps.{
  room_asks, Receipt, post, System, Step, Reach, accept, work, serve, start, later,
}
use intellect_battle.Network.Workers.{IsProperPacket, IsJoin, IsPost, Ready, step-Keeps}

-- A message of the kind that its type tells.
abbrev pub IsMessage : Message → Type 0
IsMessage (connection con) = con.type ≡ msg_wrk
IsMessage (join msg) = IsJoin msg

-- A room behaves like one that satisfies its invariant: at its start, it has not yet set the number
-- of the round.
abbrev pub IsRoom : (Ptr → Type 0) → Heap → Room → Type 0
IsRoom On heap r =
    (r' : Room) × Inv On r'
    × (r.state ≡ r'.state)
    × ((io : Input) → RoomThread.step heap io r ≡ RoomThread.step heap io r')

module _ {Q : Type 0} (kernel : Kernel Q) (On : Ptr → Type 0) (heap : Heap) where
  -- The invariant of the threads and their queue.
  pub record IsSafe (s : System Q) : Type 0 where
    pub messages : (m : Message) → kernel.Holds s.queue m → IsMessage m
    pub workers : (i : ℕ) → Ready (s.workers i)
    pub rooms : (i : ℕ) → IsRoom On heap (s.rooms i)

  post-IsMessage :
      (q : Q) (es : List Event)
      → ((m : Message) → kernel.Holds q m → IsMessage m)
      → All IsPost es
      → (m : Message) → kernel.Holds (post kernel q es) m
      → IsMessage m
  unfolding post
  post-IsMessage q [] known proper m holds = known m holds
  post-IsMessage q (Event.msgsnd msg ∷ es) known (one, more) m holds =
      post-IsMessage (kernel.msgsnd q (join msg)) es
        (λ m' h. elim (kernel.msgsnd-Holds q (join msg) m' h) [
          | inl new ↦ subst IsMessage (sym new) one
          | inr old ↦ known m' old
        ])
        more m holds
  post-IsMessage q (Event.report what ∷ es) known (one, more) m holds =
      post-IsMessage q es known more m holds

  -- Who gets an answer from the queue leaves no message there that was not there before.
  Receipt-rest :
      {A : Type 0} (as_message : A → Message) (q q' : Q) (asks : Option ℤ) (got : Option A)
      → Receipt kernel as_message q asks got q'
      → (m : Message) → kernel.Holds q' m
      → kernel.Holds q m
  Receipt-rest as_message q q' none none r m holds = subst (λ q. kernel.Holds q m) r holds
  Receipt-rest as_message q q' none (some a) r m holds = absurd r
  Receipt-rest as_message q q' (some t) none r m holds = subst (λ q. kernel.Holds q m) r holds
  Receipt-rest as_message q q' (some t) (some a) r m holds =
      kernel.msgrcv-rest q q' t (as_message a) m r holds

  -- What a thread gets has waited in the queue.
  Receipt-held :
      {A : Type 0} (as_message : A → Message) (q q' : Q) (asks : Option ℤ) (a : A)
      → Receipt kernel as_message q asks (some a) q'
      → kernel.Holds q (as_message a)
  Receipt-held as_message q q' none a r = absurd r
  Receipt-held as_message q q' (some t) a r = kernel.msgrcv-Holds q q' t (as_message a) r

  pub Receipt-Admissible :
      (q q' : Q) (asks : Option ℤ) (io : Input)
      → ((m : Message) → kernel.Holds q m → IsMessage m)
      → Receipt kernel join q asks io.msgrcv q'
      → Admissible io
  Receipt-Admissible q q' asks io known r msg came =
      (known (join msg) (
        Receipt-held join q q' asks msg
          (subst (λ got. Receipt kernel join q asks got q') came r))).0

  -- A round of a room in a safe system has a result, and sends proper packets only.
  pub serve-Proper :
      (s : System Q) (i : ℕ) (io : Input) (q : Q)
      → Ring On heap
      → IsSafe s
      → Receipt kernel join s.queue (room_asks (s.rooms i).state) io.msgrcv q
      → Returns (λ (r, es). Inv On r × All Proper es) (RoomThread.step heap io (s.rooms i))
  serve-Proper s i io q ring safe r =
      let (r', v, same, acts) = safe.rooms i in
      rw (acts io) (
        step-Inv-Proper On heap io r' ring v
          (Receipt-Admissible s.queue q (room_asks (s.rooms i).state) io safe.messages r))

  module _ (Peer : Option (List ℕ) → Type 0) (wnum rnum : ℕ) (ring : Ring On heap)
      (polite : (got : Option (List ℕ)) → Peer got → IsProperPacket got) where
    Step-IsSafe : {s t : System Q} → Step kernel Peer heap wnum rnum s t → IsSafe s → IsSafe t
    unfolding assign
    Step-IsSafe {s} (accept socket) safe = record {
      messages = λ m holds. elim (kernel.msgsnd-Holds s.queue _ m holds) [
        | inl new ↦ subst IsMessage (sym new) refl
        | inr old ↦ safe.messages m old
      ];
      workers = safe.workers;
      rooms = safe.rooms;
    }
    Step-IsSafe {s} (work i io q below r met) safe =
        let (ready, proper) = step-Keeps io (s.workers i) (polite io.recv met) (safe.workers i) in
        record {
          messages =
              post-IsMessage q (WorkerThread.step io (s.workers i)).1
                (λ m holds. safe.messages m (Receipt-rest connection s.queue q _ _ r m holds))
                proper;
          workers = λ j. elim (Bool-cases (j == i)) [
            | inl here ↦ rw here ready
            | inr there ↦ rw there (safe.workers j)
          ];
          rooms = safe.rooms;
        }
    Step-IsSafe {s} (serve i io q r' es below r acts) safe =
        let (v, proper) = Returns_at (serve-Proper s i io q ring safe r) acts in
        record {
          messages = λ m holds. safe.messages m (Receipt-rest join s.queue q _ _ r m holds);
          workers = safe.workers;
          rooms = λ j. elim (Bool-cases (j == i)) [
            | inl here ↦ rw here (r', v, refl, λ io. refl)
            | inr there ↦ rw there (safe.rooms j)
          ];
        }

    pub Reach-IsSafe : {s t : System Q} → IsSafe s → Reach kernel Peer heap wnum rnum s t → IsSafe t
    Reach-IsSafe safe start = safe
    Reach-IsSafe safe (later r step) = Step-IsSafe step (Reach-IsSafe safe r)
