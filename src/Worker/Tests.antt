-- ===== src/Worker/Tests.antt =====
-- The worker (src/worker.c) at concrete inputs.
use intellect_battle.Prelude.{
  ℕ, ◌≡◌, refl, none, some, List, [], ◌∷◌, ◌++◌, negsuc, inl, inr, arith, replicate,
}
use intellect_battle.Packet.{msg_join}
use intellect_battle.Worker.Machine.{Request, Worker, Input, wait, proc, run}
use intellect_battle.Worker.Livelock.{unknown_type-stuck}
use intellect_battle.Worker.Service.{
  Visit, visit, inputs_of, all_inputs, outcome, routed, request_of,
}
use intellect_battle.Worker.Visits.{outcomes, run-outcomes, closed_client-repeats}

abbrev eve : Request
eve = record { type = 7; room_size = 2; username = b'E' ∷ replicate 39 0 }

abbrev idle : Worker
idle = record {
  state = wait;
  pack = λ i. 0;
  req = eve;
  join_msg = record {
    type = msg_join;
    room_size = 0;
    player = record { socket = 0; username = [] };
  };
  socket = 0;
  err_type = none;
  err_arg = negsuc 0;
}

abbrev caught : Worker
caught = record idle { state = proc }

abbrev nothing : Input
nothing = record { msgrcv = none; recv = none }

unknown_type-stuck_example :
    ((run (replicate 5 nothing) caught).0.state ≡ proc)
    × ((run (replicate 5 nothing) caught).0.req ≡ eve)
    × ((run (replicate 5 nothing) caught).1 ≡ [])
unknown_type-stuck_example =
    unknown_type-stuck (replicate 5 nothing) caught refl
      (record { named = omega arith; not_join = refl; not_create = refl; not_disconnect = refl })

-- A whole request of Ann to join, and one that nobody has signed.
abbrev by_ann : List ℕ
by_ann = replicate 8 0 ++ 0 ∷ 4 ∷ b'A' ∷ replicate 45 0

abbrev unsigned : List ℕ
unsigned = replicate 56 0

abbrev three_visits : List Visit
three_visits = visit 5 (some by_ann) ∷ visit 6 none ∷ visit 7 (some unsigned) ∷ []

run-outcomes_example :
    ((run (all_inputs three_visits) idle).0.state ≡ wait)
    × ((run (all_inputs three_visits) idle).1 ≡ outcomes three_visits)
run-outcomes_example =
    run-outcomes three_visits idle refl
      ((refl, inr (inl (omega arith))), (tt, ((refl, inl refl), tt)))

closed_client-repeats_example :
    (run (inputs_of (visit 5 (some by_ann)) ++ inputs_of (visit 6 (some []))) idle).1
    ≡ outcome (visit 5 (some by_ann)) ++ routed 6 (request_of by_ann)
closed_client-repeats_example =
    closed_client-repeats 5 6 by_ann idle refl (refl, inr (inl (omega arith)))
