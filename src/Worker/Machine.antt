-- ===== src/Worker/Machine.antt =====
-- The state machine of `worker_fsm` (src/worker.c, include/worker.h).
use intellect_battle.Prelude.{
  ℕ, Option, none, some, List, [], ◌∷◌, ◌++◌, ℤ, pos, signed, to_char, eqb_ℤ, is_negative, get_or,
  ◌==◌, if◌then◌else◌,
}
use intellect_battle.Memory.{Mem, bytes, strncpy}
use intellect_battle.Packet.{
  Connection, JoinInfo, username_len, req_join, req_create, req_disconnect, msg_join, msg_create,
}
use intellect_battle.Packet.CPack
use intellect_battle.Room.State.{recvfrom_user}

-- `enum State`
pub data State : Type 0 where
  wait recv proc error fin : State

-- `request_t`: the tag is a `char`, held as its byte.
pub record Request : Type 0 where
  pub type : ℕ
  pub room_size : ℕ
  pub username : List ℕ

-- The variables of the thread. `err_type` holds no state at first.
pub record Worker : Type 0 where
  pub state : State
  pub pack : Mem
  pub req : Request
  pub join_msg : JoinInfo
  pub socket : ℕ
  pub err_type : Option State
  pub err_arg : ℤ

-- What the kernel answers in one round: the message of `msgrcv` (`none`: it failed), and the bytes
-- that `recv` delivers (`none`: it failed; `some []`: the peer has closed).
pub record Input : Type 0 where
  pub msgrcv : Option Connection
  pub recv : Option (List ℕ)

-- What `worker_error_handler` reports.
pub data Report : Type 0 where
  connection_error unexpected_jointype unknown_error : ℤ → Report

-- The messages for the rooms, and the reports.
pub data Event : Type 0 where
  msgsnd : JoinInfo → Event
  report : Report → Event

-- `worker_error_handler`
unfoldable pub worker_error_handler : Option State → ℤ → Report
worker_error_handler (some recv) arg = connection_error arg
worker_error_handler (some proc) arg = unexpected_jointype arg
worker_error_handler _ arg = unknown_error arg

-- `pack.p_req`
unfoldable pub read_req : Mem → Request
read_req m = record {
  type = m CPack.req_type;
  room_size = m CPack.room_size;
  username = bytes m CPack.username username_len;
}

-- `case WAIT`
unfoldable pub wait_step : Input → Worker → Worker × List Event
wait_step io w = elim io.msgrcv [
  | none ↦ (record w { state = fin }, [])
  | some con ↦ (record w { socket = con.socket; state = recv }, [])
]

-- `case RECV`. The buffer keeps the bytes that `recv` does not write.
unfoldable pub recv_step : Input → Worker → Worker × List Event
unfolding recvfrom_user read_req
recv_step io w =
    let (got, buffer) = recvfrom_user io.recv w.pack CPack.size in
    if is_negative got
    then (record w { state = error; err_type = some recv; err_arg = pos w.socket }, [])
    else (record w { pack = buffer; req = read_req buffer; state = proc }, [])

-- Lines 69 to 76.
unfoldable pub prepare : Worker → Worker
unfolding strncpy
prepare w = record w {
  join_msg = record (w.join_msg) {
    player = record { socket = w.socket; username = strncpy username_len w.req.username };
  };
  req =
      if get_or w.req.username 0 0 == 0
      then record (w.req) { type = to_char req_disconnect }
      else w.req;
}

-- A request for the rooms: lines 87 to 91 and 97 to 101.
unfoldable pub forward : ℤ → Worker → Worker × List Event
forward type w =
    let msg = record (w.join_msg) { type = type; room_size = w.req.room_size } in
    (record w { join_msg = msg; state = wait }, Event.msgsnd msg ∷ [])

-- Lines 82 to 109.
unfoldable pub route : Worker → Worker × List Event
unfolding forward
route w =
    if eqb_ℤ (signed w.req.type) req_join
    then forward msg_join w
    else if eqb_ℤ (signed w.req.type) req_create
    then forward msg_create w
    else if eqb_ℤ (signed w.req.type) req_disconnect
    then (record w { state = wait }, [])
    else (record w { err_type = some proc; err_arg = signed w.req.type }, [])

-- `case PROC`
unfoldable pub proc_step : Worker → Worker × List Event
unfolding prepare route
proc_step w = route (prepare w)

-- `case ERROR`
unfoldable pub error_step : Worker → Worker × List Event
unfolding worker_error_handler
error_step w =
    (record w { state = wait }, Event.report (worker_error_handler w.err_type w.err_arg) ∷ [])

-- `switch (state)`
unfoldable pub dispatch : State → Input → Worker → Worker × List Event
unfolding wait_step recv_step proc_step error_step
dispatch wait io w = wait_step io w
dispatch recv io w = recv_step io w
dispatch proc io w = proc_step w
dispatch error io w = error_step w
dispatch fin io w = (w, [])

unfoldable pub step : Input → Worker → Worker × List Event
unfolding dispatch
step io w = dispatch w.state io w

-- `while (state != FIN)`, one round for each input. In FIN a round changes nothing.
unfoldable pub run : List Input → Worker → Worker × List Event
run [] w = (w, [])
run (io ∷ ios) w = let (w', es) = step io w in let (w'', es') = run ios w' in (w'', es ++ es')
