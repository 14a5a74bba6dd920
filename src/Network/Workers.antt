-- ===== src/Network/Workers.antt =====
-- What a worker (src/worker.c) sends the rooms, round by round, when its clients send requests: every
-- message is one that the rooms can serve.
use intellect_battle.Prelude.{
  ℕ, ℤ, Bool, true, false, ◌≤◌, ◌≡◌, refl, sym, subst, ◌∙◌, ◌⊎◌, inl, inr, Option, none, some, List,
  [], ◌∷◌, length, All, get_or, ◌==◌, if◌then◌else◌, Bool-cases, Option-cases, eqb_ℤ, signed,
}
use intellect_battle.Memory.{put_bytes, bytes}
use intellect_battle.Memory.Text.{c_string-strncpy}
use intellect_battle.Packet.{JoinInfo, msg_join, msg_create, req_join, req_create, req_disconnect}
use intellect_battle.Room.Safety.{HasText, IsSound}
use intellect_battle.Worker.Machine.{
  State, Request, Worker, Input, Event, wait, recv, proc, error, fin, step, dispatch, wait_step,
  read_req, recv_step, proc_step, error_step, prepare, route, forward,
}
use intellect_battle.Worker.Service.{
  request_of, receive, read_req-filled, recv_step-some, recv_step-none,
}

-- A request that a room can serve: a size from 2 to 4, and a terminated name in its 40 bytes.
pub record IsRequest (req : Request) : Type 0 where
  pub least : 2 ≤ req.room_size
  pub most : req.room_size ≤ 4
  pub named : HasText req.username
  pub fits : length req.username ≤ 40

-- What a `recv` delivers: nothing, because it failed (`none`) or because the peer has closed (no bytes), or a
-- whole packet with such a request.
abbrev pub IsProperPacket : Option (List ℕ) → Type 0
IsProperPacket none = Unit
IsProperPacket (some []) = Unit
IsProperPacket (some (b ∷ bs)) = (length (b ∷ bs) ≡ 56) × IsRequest (request_of (b ∷ bs))

-- A request that the worker drops, since it names nobody, or one that a room can serve.
abbrev pub IsHarmless : Request → Type 0
IsHarmless req = (get_or req.username 0 0 ≡ 0) ⊎ IsRequest req

-- A message for the rooms that they can serve.
abbrev pub IsJoin : JoinInfo → Type 0
IsJoin msg = IsSound msg × ((msg.type ≡ msg_join) ⊎ (msg.type ≡ msg_create))

abbrev pub IsPost : Event → Type 0
IsPost (Event.msgsnd msg) = IsJoin msg
IsPost (Event.report what) = Unit

-- What holds of a worker between two rounds: of the request that it has read, and of the one that its buffer
-- holds, which a `recv` without bytes leaves there.
pub record Ready (w : Worker) : Type 0 where
  pub asked : w.state ≡ proc → IsHarmless w.req
  pub packed : IsHarmless (read_req w.pack)

abbrev Keeps : Worker × List Event → Type 0
Keeps (w, es) = Ready w × All IsPost es

pub waits-Ready : (w : Worker) → w.state ≡ wait → IsHarmless (read_req w.pack) → Ready w
waits-Ready w at packed = record { asked = λ on. absurd (apart (sym at ∙ on)); packed = packed }
  where
    apart : ¬ (wait ≡ proc)
    apart e = cc

forward-Keeps :
    (type : ℤ) (w : Worker)
    → IsRequest w.req
    → HasText w.join_msg.player.username
    → IsHarmless (read_req w.pack)
    → (type ≡ msg_join) ⊎ (type ≡ msg_create)
    → Keeps (forward type w)
unfolding forward
forward-Keeps type w req named packed kind = (
  record { asked = λ on. absurd (cc); packed = packed },
  ((record { least = req.least; most = req.most; named = named }, kind), tt),
)

route-Keeps :
    (w : Worker)
    → IsRequest w.req
    → HasText w.join_msg.player.username
    → IsHarmless (read_req w.pack)
    → Keeps (route w)
unfolding route
route-Keeps w req named packed = elim (Bool-cases (eqb_ℤ (signed w.req.type) req_join)) [
  | inl joins ↦ rw joins (forward-Keeps msg_join w req named packed (inl refl))
  | inr other ↦ elim (Bool-cases (eqb_ℤ (signed w.req.type) req_create)) [
    | inl creates ↦ rw (other, creates) (forward-Keeps msg_create w req named packed (inr refl))
    | inr neither ↦ elim (Bool-cases (eqb_ℤ (signed w.req.type) req_disconnect)) [
      | inl leaves ↦
          rw (other, neither, leaves) (record { asked = λ on. absurd (cc); packed = packed }, tt)
      | inr unknown ↦
          rw (other, neither, unknown) (record { asked = λ on. inr req; packed = packed }, tt)
    ]
  ]
]

renamed :
    (req : Request) (b : Bool) (t : ℕ)
    → IsRequest req
    → IsRequest (if b then record req { type = t } else req)
renamed req true t is = record {
  least = is.least;
  most = is.most;
  named = is.named;
  fits = is.fits;
}
renamed req false t is = is

proc_step-Keeps :
    (w : Worker) → IsHarmless w.req → IsHarmless (read_req w.pack) → Keeps (proc_step w)
unfolding proc_step prepare route
proc_step-Keeps w (inl nobody) packed =
    rw nobody (record { asked = λ on. absurd (cc); packed = packed }, tt)
proc_step-Keeps w (inr req) packed =
    let (s, text) = req.named in
    route-Keeps (prepare w) (renamed w.req (get_or w.req.username 0 0 == 0) _ req)
      (s, c_string-strncpy 40 w.req.username text req.fits) packed

received-Keeps :
    (bs : List ℕ) (w : Worker)
    → IsProperPacket (some bs)
    → IsHarmless (read_req w.pack)
    → Ready (receive bs w)
unfolding put_bytes read_req bytes
received-Keeps [] w proper packed = record { asked = λ on. packed; packed = packed }
received-Keeps (b ∷ bs) w (whole, req) packed =
    let read = inr (subst IsRequest (sym (read_req-filled w.pack (b ∷ bs) whole)) req) in
    record { asked = λ on. read; packed = read }

recv_step-Keeps :
    (io : Input) (w : Worker)
    → IsProperPacket io.recv
    → IsHarmless (read_req w.pack)
    → Keeps (recv_step io w)
recv_step-Keeps io w proper packed = elim (Option-cases io.recv) [
  | inl failed ↦
      rw (recv_step-none io w failed) (record { asked = λ on. absurd (cc); packed = packed }, tt)
  | inr (bs, came) ↦
      rw (recv_step-some io w bs came)
        (received-Keeps bs w (subst IsProperPacket came proper) packed, tt)
]

wait_step-Keeps : (io : Input) (w : Worker) → IsHarmless (read_req w.pack) → Keeps (wait_step io w)
unfolding wait_step
wait_step-Keeps io w packed = elim (Option-cases io.msgrcv) [
  | inl failed ↦ rw failed (record { asked = λ on. absurd (cc); packed = packed }, tt)
  | inr (con, came) ↦ rw came (record { asked = λ on. absurd (cc); packed = packed }, tt)
]

-- A round of a worker keeps it ready, and all messages that it sends are proper.
pub step-Keeps :
    (io : Input) (w : Worker)
    → IsProperPacket io.recv
    → Ready w
    → Ready (step io w).0 × All IsPost (step io w).1
unfolding step
step-Keeps io w proper ready = by_state w.state refl
  where
    by_state : (s : State) → w.state ≡ s → Keeps (dispatch s io w)
    by_state wait at = wait_step-Keeps io w ready.packed
    by_state recv at = recv_step-Keeps io w proper ready.packed
    by_state proc at = proc_step-Keeps w (ready.asked at) ready.packed
    by_state error at =
        unfold error_step in (record { asked = λ on. absurd (cc); packed = ready.packed }, (tt, tt))
    by_state fin at = (ready, tt)
