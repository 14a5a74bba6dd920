-- ===== src/Server/Tests.antt =====
-- The server's process at concrete answers of the system.
use intellect_battle.Prelude.{false, arith, true, pos, negsuc, refl, ◌≡◌, [], ◌∷◌}
use intellect_battle.Server.Process.{
  loaded, later_failed, Answers, init_server, exits, acquire, release, report, socket,
}
use intellect_battle.Server.Release.{Shutdown, server_finalize-forgets}
use intellect_battle.Server.Loop.{main, serving}
use intellect_battle.Server.Accepting.{IsUp, coming_up, serve_all, main-serves}
use intellect_battle.Server.Accepting

-- Everything is there.
abbrev up : Answers
up = record {
  socket_fd = pos 3;
  bound = pos 0;
  msgqid = pos 7;
  units_load = loaded;
  workers_malloc = true;
  rooms_malloc = true;
}

-- The port is taken.
abbrev taken : Answers
taken = record up { bound = negsuc 0 }

port_taken : init_server taken 1 1 ≡ exits 5 (acquire socket ∷ report 5 ∷ release socket ∷ [])
unfolding init_server
port_taken = refl

-- The second `calloc` of the load fails.
abbrev no_memory : Answers
no_memory = record up { units_load = later_failed }

server_finalize-forgets_example : Shutdown (init_server up 1 1)
server_finalize-forgets_example = server_finalize-forgets up 1 1

up-IsUp : IsUp up
up-IsUp = record {
  has_socket = refl;
  has_port = refl;
  has_queue = refl;
  has_units = refl;
  has_workers = refl;
  has_rooms = refl;
}

main-serves_example :
    main up (true ∷ false ∷ true ∷ []) (pos 5 ∷ pos 6 ∷ negsuc 0 ∷ pos 7 ∷ [])
    ≡ serving coming_up (serve_all Accepting.up (5 ∷ 6 ∷ []))
main-serves_example =
    main-serves up (true ∷ false ∷ true ∷ []) (5 ∷ 6 ∷ []) 0 (pos 7 ∷ []) up-IsUp (omega arith)
