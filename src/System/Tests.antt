-- ===== src/System/Tests.antt =====
-- The parts together at concrete inputs.
use intellect_battle.Prelude.{
  ℕ, ◌≡◌, refl, none, some, [], ◌∷◌, pos, negsuc, arith, replicate, ◌==◌, if◌then◌else◌,
}
use intellect_battle.Memory.{Mem, bytes, c_string}
use intellect_battle.Packet.{JoinInfo, Player, msg_join, msg_create}
use intellect_battle.Room.State.{Input}
use intellect_battle.Room.Game.{Round, judge}
use intellect_battle.Room.Safety.{IsSound}
use intellect_battle.Worker.Machine.{Worker, Event, wait, run}
use intellect_battle.Worker.Service.{visit, inputs_of}
use intellect_battle.Client.Logic.{Client, send_conf, send_ans, answer_packet, code_success}
use intellect_battle.System.Joining.{request-reaches_room}
use intellect_battle.System.Answering.{right_option-loses, fourth_option-unreachable}

abbrev ann : Client
ann = record { socket = pos 3; username = λ i. if i == 0 then b'A' else 0 }

abbrev idle : Worker
idle = record {
  state = wait;
  pack = λ i. 0;
  req = record { type = 0; room_size = 0; username = [] };
  join_msg = record {
    type = msg_join;
    room_size = 0;
    player = record { socket = 0; username = [] };
  };
  socket = 0;
  err_type = none;
  err_arg = negsuc 0;
}

request-reaches_room_example :
    (m : Mem) × (msg : JoinInfo) × (send_conf (λ i. 9) (pos 56) ann 1 3 ≡ (code_success, some m))
    × ((run (inputs_of (visit 7 (some (bytes m 0 56)))) idle).1 ≡ Event.msgsnd msg ∷ [])
    × IsSound msg
    × (c_string msg.player.username ≡ some (b'A' ∷ []))
    × (msg.player.socket ≡ 7)
    × (msg.type ≡ msg_create)
unfolding bytes c_string
request-reaches_room_example =
    request-reaches_room (λ i. 9) (pos 56) ann 7 1 3 b'A' [] idle refl (omega arith) (omega arith)
      (omega arith) refl

abbrev packet : ℕ → Mem
packet ans = answer_packet (λ i. 9) ans (replicate 16 0)

abbrev answering : ℕ → Input
answering ans = record {
  msgrcv = none;
  send = λ id. pos 540;
  recv = λ id. some (bytes (packet ans) 0 56);
  rand = 0;
}

abbrev players : ℕ → Player
players i = record { socket = 7; username = [] }

abbrev round : Round
round = record { score = λ i. 3; alive = 2; cpack = λ i. 0; events = [] }

right_option-loses_example : (judge (answering 1) players 2 0 round).score 0 ≡ 255
unfolding send_ans
right_option-loses_example =
    right_option-loses (λ i. 9) (pos 56) (replicate 16 0) (answering 1) players 2 0 56 round
      (packet 1) (omega arith) (omega arith) (omega arith) (omega arith) refl refl

fourth_option-unreachable_example : (judge (answering 3) players 4 0 round).score 0 ≡ 255
unfolding send_ans
fourth_option-unreachable_example =
    fourth_option-unreachable (λ i. 9) (pos 56) 3 (replicate 16 0) (answering 3) players 0 56 round
      (packet 3) (omega arith) (omega arith) (omega arith) refl refl
