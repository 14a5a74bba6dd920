-- ===== src/System/SessionTests.antt =====
-- The programs' runs at concrete inputs.
use intellect_battle.Prelude.{◌≡◌, refl, none, some, [], ◌∷◌, pos, negsuc, arith, length, All}
use intellect_battle.Packet.{msg_join}
use intellect_battle.Worker.Machine.{Worker, wait}
use intellect_battle.Client.Menu.{mouse, get_behaviour, request_for}
use intellect_battle.Client.Retry.{retry}
use intellect_battle.Client.Logic.{send_conf}
use intellect_battle.Client.Errors.{error_window}
use intellect_battle.Client.Waiting.{wait_room}
use intellect_battle.Client.Play.{packets}
use intellect_battle.Client.Phases.{HasFuel}
use intellect_battle.Client.Main.{Session, World, main, get_nickname}
use intellect_battle.System.Playing.{Arrives, main-reaches_rooms}

abbrev pub idle : Worker
idle = record {
  state = wait;
  pack = λ i. 0;
  req = record { type = 0; room_size = 0; username = [] };
  join_msg = record {
    type = msg_join;
    room_size = 0;
    player = record { socket = 0; username = [] };
  };
  socket = 0;
  err_type = none;
  err_arg = negsuc 0;
}

-- The user chooses JOIN; the first attempt to send fails and is tried again.
abbrev pub joining : Session
joining = record {
  menu = mouse 20 10 ∷ [];
  attempts =
      record { stack = λ i. 9; sent = negsuc 0 } ∷ record { stack = λ i. 8; sent = pos 56 } ∷ [];
  send_errors = mouse 28 16 ∷ [];
  r_info = record { occupancy = 0; room_size = 0; id = 0; usernames = λ i. []; score = λ i. 0 };
  lobby = [];
  wait_errors = [];
  stack = λ i. 9;
  delivered = none;
  question = record { quest = []; ans = λ i. [] };
  turns = [];
  end_errors = [];
}

abbrev pub world : World
world = record {
  scanned = some (b'Z' ∷ b'e' ∷ b'd' ∷ []) ∷ [];
  socket = pos 3;
  connects = (λ socket. pos 0) ∷ [];
  connect_errors = [];
  sessions = joining ∷ [];
}

two_requests : length (main world).0 ≡ 2
unfolding main retry get_behaviour request_for send_conf error_window wait_room packets
two_requests = refl

main-reaches_rooms_example :
    All (Arrives (b'Z' ∷ b'e' ∷ b'd' ∷ []) 7 idle) (main world).0 × HasFuel (main world).1
unfolding get_nickname
main-reaches_rooms_example =
    main-reaches_rooms world b'Z' (b'e' ∷ b'd' ∷ []) 7 idle refl (omega arith) refl
