-- ===== src/Units/Listing.antt =====
-- What `unit_deque_init` (src/unit.c) should load: the units of all files, as a list.
use intellect_battle.Prelude.{Bool, List, [], ◌∷◌, ◌++◌, if◌then◌else◌}
use intellect_battle.Memory.{Mem}
use intellect_battle.Units.Parse.{Quiz, Entry, Loading, ok, is_loaded, read_entries}

-- The list grows by each unit that is loaded.
unfoldable pub collect : List Quiz → Quiz → Bool → Loading (Unit {0}) (List Quiz)
collect qs q error_flag = if is_loaded q error_flag then ok (qs ++ q ∷ []) else ok qs

-- The units of the directory's files, in the order of the files.
unfoldable pub listing :
    (fresh : Mem → Mem) (input : Mem) → List Entry → Loading (Unit {0}) (List Quiz)
listing fresh input entries = read_entries collect fresh entries input []
