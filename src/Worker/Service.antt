-- ===== src/Worker/Service.antt =====
-- Whom the worker (src/worker.c) serves, and what it sends to the rooms for each connection.
use intellect_battle.Prelude.{
  ℕ, ◌<◌, ◌≤◌, ◌≡◌, refl, ap, subst, ◌∙◌, sym, Option, none, some, List, [], ◌∷◌, ◌++◌, ℤ, pos,
  arith, get_or, ◌==◌, if◌then◌else◌, length, take, ◌⊎◌,
}
use intellect_battle.Memory.{Mem, bytes, put_bytes, strncpy}
use intellect_battle.Memory.Laws.{bytes-cong}
use intellect_battle.Packet.{JoinInfo, Connection, msg_wrk, msg_join, msg_create, username_len}
use intellect_battle.Packet.CPack
use intellect_battle.Room.Loops.{get_or-take}
use intellect_battle.Worker.Machine.{
  wait, recv, proc, error, Request, Worker, Input, Event, step, run, dispatch, recv_step, proc_step,
  read_req, connection_error,
}
use intellect_battle.Worker.Livelock.{step-proc}
use mathlib.Core.List.{append-nil}

-- A connection as the worker meets it: its socket, and what `recv` delivers from it.
pub record Visit : Type 0 where
  pub socket : ℕ
  pub delivered : Option (List ℕ)

abbrev pub visit : ℕ → Option (List ℕ) → Visit
visit socket delivered = record { socket = socket; delivered = delivered }

-- The answers of queue and network in the three rounds that a visit takes.
abbrev pub inputs_of : Visit → List Input
inputs_of v =
    let io : Input = record {
      msgrcv = some (record { type = msg_wrk; socket = v.socket });
      recv = v.delivered;
    } in
    io ∷ io ∷ io ∷ []

abbrev pub all_inputs : List Visit → List Input
all_inputs [] = []
all_inputs (v ∷ vs) = inputs_of v ++ all_inputs vs

-- The request in a whole packet.
abbrev pub request_of : List ℕ → Request
request_of bs = read_req (λ i. get_or bs i 0)

-- A failed reception, or a whole packet that names nobody or has one of the three types.
abbrev pub IsServable : Option (List ℕ) → Type 0
IsServable none = Unit
IsServable (some bs) =
    (length bs ≡ 56)
    × ((get_or bs CPack.username 0 ≡ 0)
        ⊎ (get_or bs CPack.req_type 0 ≤ 1)
        ⊎ (get_or bs CPack.req_type 0 ≡ 255))

-- The message that tells the rooms of a player.
abbrev pub join_info : ℤ → ℕ → Request → JoinInfo
join_info type socket req = record {
  type = type;
  room_size = req.room_size;
  player = record { socket = socket; username = strncpy username_len req.username };
}

-- What a request leads to: the named ask to join or to create a room, all others for nothing.
unfoldable pub routed : ℕ → Request → List Event
routed socket req =
    if get_or req.username 0 0 == 0
    then []
    else if req.type == 0
    then Event.msgsnd (join_info msg_join socket req) ∷ []
    else if req.type == 1
    then Event.msgsnd (join_info msg_create socket req) ∷ []
    else []

-- What a connection leads to.
unfoldable pub outcome : Visit → List Event
unfolding routed
outcome v = elim v.delivered [
  | none ↦ Event.report (connection_error (pos v.socket)) ∷ []
  | some bs ↦ routed v.socket (request_of bs)
]

-- A whole packet replaces all of the buffer.
filled-at :
    (m : Mem) (bs : List ℕ) (i : ℕ)
    → length bs ≡ 56
    → i < 56
    → put_bytes m 0 (take 56 bs) i ≡ get_or bs i 0
unfolding put_bytes
filled-at m bs i whole lt = ground (arith, get_or-take 56 i bs (m i))

-- A request depends on the bytes of the packet only.
pub read_req-cong : (m m' : Mem) → ((i : ℕ) → i < 56 → m i ≡ m' i) → read_req m ≡ read_req m'
unfolding read_req
read_req-cong m m' same =
    let name = bytes-cong m m' 10 40 (λ i low high. same i (omega arith)) in
    λ i. record {
      type = same 8 (omega arith) i;
      room_size = same 9 (omega arith) i;
      username = name i;
    }

pub read_req-filled :
    (m : Mem) (bs : List ℕ) → length bs ≡ 56 → read_req (put_bytes m 0 (take 56 bs)) ≡ request_of bs
read_req-filled m bs whole =
    read_req-cong (put_bytes m 0 (take 56 bs)) (λ i. get_or bs i 0)
      (λ i lt. filled-at m bs i whole lt)

-- The request names nobody, or has one of the three types.
abbrev pub IsRoutable : Request → Type 0
IsRoutable req = (get_or req.username 0 0 ≡ 0) ⊎ (req.type ≤ 1) ⊎ (req.type ≡ 255)

pub proc_step-routed :
    (w : Worker)
    → IsRoutable w.req
    → ((proc_step w).0.state ≡ wait) × ((proc_step w).1 ≡ routed w.socket w.req)
unfolding proc_step routed
proc_step-routed w routable = ground arith

-- PROC leaves the receive buffer alone.
pub proc_step-pack : (w : Worker) → (proc_step w).0.pack ≡ w.pack
unfolding proc_step
proc_step-pack w = ground arith

first_of_name : (bs : List ℕ) → get_or (request_of bs).username 0 0 ≡ get_or bs CPack.username 0
unfolding read_req bytes
first_of_name bs = refl

pub request_of-IsRoutable : (bs : List ℕ) → IsServable (some bs) → IsRoutable (request_of bs)
unfolding read_req
request_of-IsRoutable bs servable = ground (arith, first_of_name bs)

-- The thread after a successful `recv`.
abbrev pub receive : List ℕ → Worker → Worker
receive bs w =
    let buffer = put_bytes w.pack 0 (take 56 bs) in
    record w { pack = buffer; req = read_req buffer; state = proc }

step-wait :
    (io : Input) (w : Worker) (con : Connection)
    → w.state ≡ wait
    → io.msgrcv ≡ some con
    → step io w ≡ (record w { socket = con.socket; state = recv }, [])
unfolding step
step-wait io w con at got = ap (λ s. dispatch s io w) at ∙ rw got refl

step-recv : (io : Input) (w : Worker) → w.state ≡ recv → step io w ≡ recv_step io w
unfolding step
step-recv io w at = ap (λ s. dispatch s io w) at

pub recv_step-some :
    (io : Input) (w : Worker) (bs : List ℕ)
    → io.recv ≡ some bs
    → recv_step io w ≡ (receive bs w, [])
unfolding recv_step
recv_step-some io w bs got = rw got refl

pub recv_step-none :
    (io : Input) (w : Worker)
    → io.recv ≡ none
    → recv_step io w
      ≡ (record w { state = error; err_type = some recv; err_arg = pos w.socket }, [])
unfolding recv_step
recv_step-none io w failed = rw failed refl

-- A visit that delivers bytes is decided by PROC, on the buffer that they leave.
pub run-delivered :
    (socket : ℕ) (bs : List ℕ) (w : Worker)
    → w.state ≡ wait
    → run (inputs_of (visit socket (some bs))) w ≡ (
      (proc_step (receive bs (record w { socket = socket }))).0,
      (proc_step (receive bs (record w { socket = socket }))).1,
    )
unfolding run
run-delivered socket bs w at =
    let con : Connection = record { type = msg_wrk; socket = socket } in
    let io : Input = record { msgrcv = some con; recv = some bs } in
    let w₁ : Worker = record w { socket = socket; state = recv } in
    rw
      (
        step-wait io w con at refl,
        step-recv io w₁ refl,
        recv_step-some io w₁ bs refl,
        step-proc io (receive bs w₁) refl,
      )
      (λ i. ((proc_step (receive bs w₁)).0, append-nil (proc_step (receive bs w₁)).1 i))

-- What a worker that waits makes of one connection.
pub serve :
    (socket : ℕ) (delivered : Option (List ℕ)) (w : Worker)
    → w.state ≡ wait
    → IsServable delivered
    → ((run (inputs_of (visit socket delivered)) w).0.state ≡ wait)
      × ((run (inputs_of (visit socket delivered)) w).1 ≡ outcome (visit socket delivered))
unfolding outcome
serve socket none w at servable =
    let con : Connection = record { type = msg_wrk; socket = socket } in
    let io : Input = record { msgrcv = some con; recv = none } in
    let w₁ : Worker = record w { socket = socket; state = recv } in
    unfold run in
    rw (step-wait io w con at refl, step-recv io w₁ refl, recv_step-none io w₁ refl)
      (unfold step in (refl, refl))
serve socket (some bs) w at servable =
    let w₁ : Worker = receive bs (record w { socket = socket }) in
    let read : w₁.req ≡ request_of bs = read_req-filled w.pack bs servable.0 in
    let (waits, sent) =
      proc_step-routed w₁ (subst IsRoutable (sym read) (request_of-IsRoutable bs servable)) in
    rw (run-delivered socket bs w at) (waits, sent ∙ ap (routed socket) read)
