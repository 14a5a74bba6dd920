-- ===== src/System/Serving.antt =====
-- From the server's `loop_recv` (src/server.c) to what its worker (src/worker.c) sends the rooms.
use intellect_battle.Prelude.{
  ℕ, ◌≡◌, refl, ap, Option, some, List, [], ◌∷◌, ◌++◌, map, ℤ, pos, negsuc, All,
}
use intellect_battle.Packet.{Connection}
use intellect_battle.Server.Process.{Conf}
use intellect_battle.Server.Loop.{Action, listens, prints, msgsnd, shutdown, loop_recv}
use intellect_battle.Server.Accepting.{connection, loop_recv-serve_all, serve_all}
use intellect_battle.Worker.Machine.{Worker, Input, wait, run}
use intellect_battle.Worker.Service.{Visit, IsServable, all_inputs}
use intellect_battle.Worker.Visits.{outcomes, run-outcomes}

-- The messages that the server puts on the queue, in order.
abbrev pub queued : List Action → List Connection
queued [] = []
queued (msgsnd con ∷ actions) = con ∷ queued actions
queued (listens n ∷ actions) = queued actions
queued (prints t ∷ actions) = queued actions
queued (shutdown code calls ∷ actions) = queued actions

-- The rounds of a worker that takes the messages in order: three for each, where `recv` delivers from
-- each connection what is listed for it.
abbrev pub meets : List Connection → List (Option (List ℕ)) → List Input
meets [] contents = []
meets (con ∷ cons) [] = []
meets (con ∷ cons) (content ∷ contents) =
    let io : Input = record { msgrcv = some con; recv = content } in
    io ∷ io ∷ io ∷ meets cons contents

abbrev pub socket_of : Visit → ℕ
socket_of v = v.socket

abbrev pub content_of : Visit → Option (List ℕ)
content_of v = v.delivered

meets-all_inputs :
    (vs : List Visit)
    → meets (map connection (map socket_of vs)) (map content_of vs) ≡ all_inputs vs
meets-all_inputs [] = refl
meets-all_inputs (v ∷ vs) = rw (meets-all_inputs vs) refl

queued-serve_all :
    (conf : Conf) (sockets : List ℕ) → queued (serve_all conf sockets) ≡ map connection sockets
queued-serve_all conf [] = refl
queued-serve_all conf (s ∷ sockets) =
    ap (λ rest. connection s ∷ rest) (queued-serve_all conf sockets)

-- The connections that the server accepts before `accept` fails are each served once, in their order:
-- a waiting worker that takes the server's messages in the order in which they were sent, and meets
-- at each connection a failed reception or a whole packet that names nobody or has one of the three
-- types, sends the rooms what each of these packets asks for, and waits again.
pub loop_recv-served :
    (conf : Conf) (vs : List Visit) (err : ℕ) (later : List ℤ) (w : Worker)
    → w.state ≡ wait
    → All (λ v. IsServable v.delivered) vs
    → ((run
          (meets
            (queued (loop_recv conf (map pos (map socket_of vs) ++ negsuc err ∷ later)))
            (map content_of vs))
          w).0.state
        ≡ wait)
      × ((run
            (meets
              (queued (loop_recv conf (map pos (map socket_of vs) ++ negsuc err ∷ later)))
              (map content_of vs))
            w).1
          ≡ outcomes vs)
loop_recv-served conf vs err later w at servable =
    rw
      (
        loop_recv-serve_all conf (map socket_of vs) err later,
        queued-serve_all conf (map socket_of vs),
        meets-all_inputs vs,
      )
      (run-outcomes vs w at servable)
