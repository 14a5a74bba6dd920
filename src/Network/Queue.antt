-- ===== src/Network/Queue.antt =====
-- The System V message queue as the threads use it: `msgsnd` and `msgrcv` of the kernel are an
-- interface, with what their manual page says of them.
use intellect_battle.Prelude.{zero, suc, ◌≡◌, ◌⊎◌, true, Option, some, ℤ, pos, negsuc, leb_ℤ}
use intellect_battle.Packet.{Connection, JoinInfo}

-- The messages of include/msg_struct.h: `con_t` and `join_t`.
pub data Message : Type 0 where
  connection : Connection → Message
  join : JoinInfo → Message

-- The `long` that each of them begins with.
abbrev pub type_of : Message → ℤ
type_of (connection con) = con.type
type_of (join msg) = msg.type

-- Which types `msgtyp` asks for: 0 any, a positive one itself, a negative one those up to its
-- absolute value.
abbrev pub Selects : (msgtyp : ℤ) → Message → Type 0
Selects (pos zero) m = Unit
Selects (pos (suc n)) m = type_of m ≡ pos (suc n)
Selects (negsuc n) m = leb_ℤ (type_of m) (pos (suc n)) ≡ true

-- A queue `Q` with its two calls. `Holds q m` says that the message waits in the queue.
pub record Kernel (Q : Type 0) : Type 1 where
  pub msgsnd : Q → Message → Q
  pub msgrcv : Q → (msgtyp : ℤ) → Option (Message × Q)
  pub Holds : Q → Message → Type 0
  -- A sent message is the only new one.
  pub msgsnd-Holds :
      (q : Q) (m other : Message) → Holds (msgsnd q m) other → (other ≡ m) ⊎ Holds q other
  -- A message that is received has waited in the queue and is of a type that was asked for,
  pub msgrcv-Holds : (q q' : Q) (t : ℤ) (m : Message) → msgrcv q t ≡ some (m, q') → Holds q m
  pub msgrcv-Selects : (q q' : Q) (t : ℤ) (m : Message) → msgrcv q t ≡ some (m, q') → Selects t m
  -- and nothing is added to the others.
  pub msgrcv-rest :
      (q q' : Q) (t : ℤ) (m other : Message)
      → msgrcv q t ≡ some (m, q')
      → Holds q' other
      → Holds q other
