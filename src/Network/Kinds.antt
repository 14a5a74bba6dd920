-- ===== src/Network/Kinds.antt =====
-- The types of the messages keep the threads apart: no thread gets a message that is meant for the
-- other kind.
use intellect_battle.Prelude.{
  ℕ, ◌≡◌, refl, sym, Option, subst, ◌∙◌, ◌⊎◌, inl, inr, some, ℤ, pos, leb_ℤ, true,
}
use mathlib.Core.Option.{some-injective}
use intellect_battle.Packet.{Connection, JoinInfo, msg_join, msg_create, msg_wrk, msg_room}
use intellect_battle.Units.{Heap, Ptr}
use intellect_battle.Network.Queue.{Message, connection, join, Kernel, Selects}
use intellect_battle.Network.Steps.{System, room_asks, worker_asks}
use intellect_battle.Room.State as RoomState
use intellect_battle.Worker.Machine as WorkerThread
use intellect_battle.Network.Workers.{IsJoin}
use intellect_battle.Network.Safety.{IsMessage, IsSafe}

room_message :
    (m : Message)
    → IsMessage m
    → Selects msg_room m ⊎ Selects msg_join m
    → (msg : JoinInfo) × (m ≡ join msg) × IsJoin msg
room_message (join msg) is asked = (msg, refl, is)
room_message (connection con) is (inl low) =
    absurd (unmet (subst (λ t. leb_ℤ t (pos 2) ≡ true) is low))
  where
    unmet : leb_ℤ msg_wrk (pos 2) ≡ true → ⊥
    unmet e = cc
room_message (connection con) is (inr same) = absurd (unmet (sym is ∙ same))
  where
    unmet : ¬ (msg_wrk ≡ msg_join)
    unmet e = cc

worker_message :
    (m : Message) → IsMessage m → Selects msg_wrk m → (con : Connection) × (m ≡ connection con)
worker_message (connection con) is asked = (con, refl)
worker_message (join msg) (sound, inl is) asked = absurd (unmet (sym is ∙ asked))
  where
    unmet : ¬ (msg_join ≡ msg_wrk)
    unmet e = cc
worker_message (join msg) (sound, inr is) asked = absurd (unmet (sym is ∙ asked))
  where
    unmet : ¬ (msg_create ≡ msg_wrk)
    unmet e = cc

-- A thread by its index.
pub data Thread : Type 0 where
  room : ℕ → Thread
  worker : ℕ → Thread

-- What the thread's next round asks the queue for.
abbrev pub asks_of : {Q : Type 0} → System Q → Thread → Option ℤ
asks_of s (room i) = room_asks (s.rooms i).state
asks_of s (worker i) = worker_asks (s.workers i).state

-- A room expects a request that it can serve, a worker a connection.
abbrev pub IsFor : Thread → Message → Type 0
IsFor (room i) m = (msg : JoinInfo) × (m ≡ join msg) × IsJoin msg
IsFor (worker i) m = (con : Connection) × (m ≡ connection con)

room_asks-known :
    (s : RoomState.State) (t : ℤ) → room_asks s ≡ some t → (t ≡ msg_room) ⊎ (t ≡ msg_join)
room_asks-known RoomState.init t e = inl (sym (some-injective _ _ e))
room_asks-known RoomState.wait t e = inr (sym (some-injective _ _ e))
room_asks-known RoomState.game t e = absurd (cc)
room_asks-known RoomState.gameover t e = absurd (cc)
room_asks-known RoomState.fin t e = absurd (cc)
room_asks-known RoomState.exit t e = absurd (cc)

worker_asks-known : (s : WorkerThread.State) (t : ℤ) → worker_asks s ≡ some t → t ≡ msg_wrk
worker_asks-known WorkerThread.wait t e = sym (some-injective _ _ e)
worker_asks-known WorkerThread.recv t e = absurd (cc)
worker_asks-known WorkerThread.proc t e = absurd (cc)
worker_asks-known WorkerThread.error t e = absurd (cc)
worker_asks-known WorkerThread.fin t e = absurd (cc)

module _ {Q : Type 0} (kernel : Kernel Q) (On : Ptr → Type 0) (heap : Heap) (s : System Q)
    (safe : IsSafe kernel On heap s) (q : Q) (m : Message) where
  rooms_get-IsJoin :
      (t : ℤ)
      → (t ≡ msg_room) ⊎ (t ≡ msg_join)
      → kernel.msgrcv s.queue t ≡ some (m, q)
      → (msg : JoinInfo) × (m ≡ join msg) × IsJoin msg
  rooms_get-IsJoin t asked came =
      room_message m (safe.messages m (kernel.msgrcv-Holds s.queue q t m came)) (elim asked [
        | inl e ↦ inl (subst (λ t. Selects t m) e (kernel.msgrcv-Selects s.queue q t m came))
        | inr e ↦ inr (subst (λ t. Selects t m) e (kernel.msgrcv-Selects s.queue q t m came))
      ])

  workers_get-connection :
      kernel.msgrcv s.queue msg_wrk ≡ some (m, q) → (con : Connection) × (m ≡ connection con)
  workers_get-connection came =
      worker_message m (safe.messages m (kernel.msgrcv-Holds s.queue q msg_wrk m came))
        (kernel.msgrcv-Selects s.queue q msg_wrk m came)

  pub threads_get-IsFor :
      (who : Thread) (t : ℤ)
      → asks_of s who ≡ some t
      → kernel.msgrcv s.queue t ≡ some (m, q)
      → IsFor who m
  threads_get-IsFor (room i) t asks came =
      rooms_get-IsJoin t (room_asks-known (s.rooms i).state t asks) came
  threads_get-IsFor (worker i) t asks came = workers_get-connection (
      subst (λ t. kernel.msgrcv s.queue t ≡ some (m, q))
        (worker_asks-known (s.workers i).state t asks) came)
