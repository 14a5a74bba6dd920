-- ===== src/Worker/Livelock.antt =====
-- A request of an unknown type stops the worker for good: the `default` of `switch (req.type)` sets
-- `err_type`, and leaves `state` as it is (src/worker.c, lines 107 to 108).
use intellect_battle.Prelude.{
  ◌≡◌, ◌≢◌, refl, ap, sym, subst, false, ◌∙◌, List, [], ◌∷◌, signed, arith, eqb_ℤ, get_or,
}
use intellect_battle.Packet.{req_join, req_create, req_disconnect}
use intellect_battle.Worker.Machine.{proc, Request, Worker, Input, step, run, dispatch, proc_step}

-- A request with a name, whose type is none of the three that the worker knows.
pub record IsUnknown (req : Request) : Type 0 where
  pub named : get_or req.username 0 0 ≢ 0
  pub not_join : eqb_ℤ (signed req.type) req_join ≡ false
  pub not_create : eqb_ℤ (signed req.type) req_create ≡ false
  pub not_disconnect : eqb_ℤ (signed req.type) req_disconnect ≡ false

pub step-proc : (io : Input) (w : Worker) → w.state ≡ proc → step io w ≡ proc_step w
unfolding step
step-proc io w at = ap (λ s. dispatch s io w) at

proc_step-stays :
    (w : Worker)
    → w.state ≡ proc
    → IsUnknown w.req
    → ((proc_step w).0.state ≡ proc) × ((proc_step w).0.req ≡ w.req) × ((proc_step w).1 ≡ [])
unfolding proc_step
proc_step-stays w at u = ground arith

-- A worker in PROC whose request has a name and a type other than -1, 0 and 1: whatever the queue
-- and the network deliver, it stays in PROC with the same request, sends
-- nothing to the rooms and reports nothing.
pub unknown_type-stuck :
    (ios : List Input) (w : Worker)
    → w.state ≡ proc
    → IsUnknown w.req
    → ((run ios w).0.state ≡ proc) × ((run ios w).0.req ≡ w.req) × ((run ios w).1 ≡ [])
unfolding run
unknown_type-stuck [] w at u = (at, refl, refl)
unknown_type-stuck (io ∷ ios) w at u =
    let (at', same, quiet) = proc_step-stays w at u in
    let (at'', same', quiet') =
      unknown_type-stuck ios (proc_step w).0 at' (subst IsUnknown (sym same) u) in
    rw (step-proc io w at) (at'', same' ∙ same, rw (quiet, quiet') refl)
