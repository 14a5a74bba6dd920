-- ===== src/Worker/Visits.antt =====
-- The worker (src/worker.c) over many connections.
use intellect_battle.Prelude.{ℕ, ◌≡◌, refl, ap, subst, ◌∙◌, sym, some, List, [], ◌∷◌, ◌++◌, All}
use intellect_battle.Memory.{put_bytes}
use intellect_battle.Memory.Laws.{put_bytes-nil}
use intellect_battle.Worker.Machine.{wait, Worker, Input, Event, step, run, read_req}
use mathlib.Core.List.{append_assoc}
use intellect_battle.Worker.Service.{
  Visit, visit, inputs_of, all_inputs, request_of, IsServable, routed, outcome, receive, IsRoutable,
  proc_step-routed, proc_step-pack, request_of-IsRoutable, read_req-filled, run-delivered, serve,
}

run-append :
    (ios ios' : List Input) (w : Worker)
    → run (ios ++ ios') w
      ≡ ((run ios' (run ios w).0).0, (run ios w).1 ++ (run ios' (run ios w).0).1)
unfolding run
run-append [] ios' w = refl
run-append (io ∷ ios) ios' w = rw (run-append ios ios' (step io w).0, append_assoc) refl

-- What a list of connections leads to.
abbrev pub outcomes : List Visit → List Event
outcomes [] = []
outcomes (v ∷ vs) = outcome v ++ outcomes vs

-- A waiting worker serves connections in turn, three rounds of its loop for each, where from each
-- the reception fails or delivers a whole packet that names nobody or has one of the three types:
-- for each it sends the rooms exactly the message that the request asks for, or reports a failed reception, and
-- it waits again. What one client has sent does not show in what is sent for another.
pub run-outcomes :
    (vs : List Visit) (w : Worker)
    → w.state ≡ wait
    → All (λ v. IsServable v.delivered) vs
    → ((run (all_inputs vs) w).0.state ≡ wait) × ((run (all_inputs vs) w).1 ≡ outcomes vs)
run-outcomes [] w at servable = unfold run in (at, refl)
run-outcomes (v ∷ vs) w at (one, more) =
    let (waits, sent) = serve v.socket v.delivered w at one in
    let (waits', sent') = run-outcomes vs (run (inputs_of v) w).0 waits more in
    rw (run-append (inputs_of v) (all_inputs vs) w) (waits', rw (sent, sent') refl)

-- To a waiting worker that has served a whole packet which names nobody or has one of the three
-- types, a client that closes before it has sent anything is not noticed: `recv` delivers no byte and
-- reports no error. The worker then serves the request that its buffer still holds from the client
-- before, under the new socket.
pub closed_client-repeats :
    (first second : ℕ) (bs : List ℕ) (w : Worker)
    → w.state ≡ wait
    → IsServable (some bs)
    → (run (inputs_of (visit first (some bs)) ++ inputs_of (visit second (some []))) w).1
      ≡ outcome (visit first (some bs)) ++ routed second (request_of bs)
closed_client-repeats first second bs w at servable =
    let w₁ : Worker = receive bs (record w { socket = first }) in
    let w' = (run (inputs_of (visit first (some bs))) w).0 in
    let (waits, sent) = serve first (some bs) w at servable in
    let kept : w'.pack ≡ w₁.pack = rw (run-delivered first bs w at) (proc_step-pack w₁) in
    let read : read_req (put_bytes w'.pack 0 []) ≡ request_of bs =
      ap read_req (put_bytes-nil w'.pack 0 ∙ kept) ∙ read_req-filled w.pack bs servable.0 in
    let again =
      proc_step-routed (receive [] (record w' { socket = second }))
        (subst IsRoutable (sym read) (request_of-IsRoutable bs servable)) in
    rw
      (
        run-append (inputs_of (visit first (some bs))) (inputs_of (visit second (some []))) w,
        run-delivered second [] w' waits,
        sent,
      )
      (rw (again.1, read) refl)
