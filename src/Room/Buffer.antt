-- ===== src/Room/Buffer.antt =====
-- All players of a room share the one receive buffer `cpack` (src/room.c, lines 183 to 197).
use intellect_battle.Prelude.{ℕ, suc, ◌+◌, ◌<◌, ◌≡◌, some, List, [], arith, length, get_or}
use intellect_battle.Packet.{Player}
use intellect_battle.Packet.CPack
use intellect_battle.Room.State.{Input}
use intellect_battle.Room.Game.{Round, judge}
use intellect_battle.Room.Loops.{get_or-take}

-- The peer of player `id + 1` has closed its connection, so `recv` delivers nothing and reports no
-- error. The player is judged on the answer of player `id`: if that was right, both score a
-- point (both scores are below 127, and what player `id` sent reaches its answer byte).
pub closed_peer-scores :
    (io : Input) (players : ℕ → Player) (rans id : ℕ) (s : Round) (bs : List ℕ)
    → s.score id < 127
    → s.score (suc id) < 127
    → io.recv id ≡ some bs
    → CPack.ans < length bs
    → get_or bs CPack.ans 0 ≡ rans
    → io.recv (suc id) ≡ some []
    → let s' = judge io players rans (suc id) (judge io players rans id s) in
      (s'.score id ≡ s.score id + 1) × (s'.score (suc id) ≡ s.score (suc id) + 1)
unfolding judge
closed_peer-scores io players rans id s bs a b got whole right closed =
    ground (arith, get_or-take 56 8 bs (s.cpack 8))
