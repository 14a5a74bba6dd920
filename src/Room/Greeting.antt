-- ===== src/Room/Greeting.antt =====
-- The WAIT state of `room_fsm` (src/room.c) tells every player of a newcomer, until a send fails.
use intellect_battle.Prelude.{
  ℕ, zero, suc, ◌+◌, ◌%◌, ◌<◌, ◌≤◌, ◌≡◌, refl, ◌∙◌, sym, true, false, some, List, [], ◌∷◌, ◌++◌,
  arith, is_negative, length, get_or, ◌==◌, if◌then◌else◌, Returns, returns, result, lt→ltb,
}
use mathlib.Core.Path.{fun_ext}
use mathlib.Core.List.{append-nil, append_assoc}
use intellect_battle.Memory.{Mem, put, get_int, c_string}
use intellect_battle.Memory.Laws.{strcpy-at}
use intellect_battle.Packet.{JoinInfo, Player, s_wait}
use intellect_battle.Packet.SPack
use intellect_battle.Room.State.{Room, Input, Event, wait, game, assign, set_at}
use intellect_battle.Room.Lobby.{Notice, notify, wait_fields, wait_packet, wait_step}
use intellect_battle.Room.Packets.{wait_packet-tag}
use intellect_battle.Room.Safety.{wait_packet-Returns}

-- One packet for each player from `id` on, each with the player's own id.
unfoldable pub greetings : (ℕ → Player) → Mem → (rounds id : ℕ) → List Event
greetings players packet zero id = []
greetings players packet (suc rounds) id =
    Event.send (players id).socket (put packet SPack.id id)
    ∷ greetings players packet rounds (suc id)

put-put : (m : Mem) (o v w : ℕ) → put (put m o v) o w ≡ put m o w
unfolding put
put-put m o v w = fun_ext λ i. ground arith

greetings-put :
    (players : ℕ → Player) (packet : Mem) (v rounds id : ℕ)
    → greetings players (put packet SPack.id v) rounds id ≡ greetings players packet rounds id
unfolding greetings
greetings-put players packet v zero id = refl
greetings-put players packet v (suc rounds) id =
    rw (put-put packet SPack.id v id, greetings-put players packet v rounds (suc id))

module _ (io : Input) (players : ℕ → Player) where
  -- All sends succeed.
  notify-all :
      (rounds id : ℕ) (n : Notice)
      → ((j : ℕ) → id ≤ j → j < id + rounds → is_negative (io.send j) ≡ false)
      → ((notify io players rounds id n).events ≡ n.events ++ greetings players n.packet rounds id)
        × ((notify io players rounds id n).score ≡ n.score)
  unfolding notify greetings
  notify-all zero id n ok = (sym (append-nil n.events), refl)
  notify-all (suc rounds) id n ok =
      let packet = put n.packet SPack.id id in
      let sent : Notice = record n {
        packet = packet;
        events = n.events ++ Event.send (players id).socket packet ∷ [];
      } in
      let (told, kept) =
        notify-all rounds (suc id) sent (λ j low high. ok j (omega arith) (omega arith)) in
      rw (ok id (omega arith) (omega arith))
        (told ∙ rw (greetings-put players n.packet id rounds (suc id), append_assoc) refl, kept)

  -- The send to player `id + gap` is the first that fails.
  notify-stops :
      (gap rounds id : ℕ) (n : Notice)
      → gap < rounds
      → ((j : ℕ) → id ≤ j → j < id + gap → is_negative (io.send j) ≡ false)
      → is_negative (io.send (id + gap)) ≡ true
      → ((notify io players rounds id n).events
          ≡ n.events ++ greetings players n.packet (suc gap) id)
        × ((notify io players rounds id n).score ≡ assign n.score (id + gap) 254)
  unfolding notify greetings
  notify-stops gap zero id n lt ok bad = absurd (omega arith)
  notify-stops zero (suc rounds) id n lt ok bad =
      let here : id + 0 ≡ id = omega arith in
      let fails : is_negative (io.send id) ≡ true = rw here at bad in rw (here, fails) (refl, refl)
  notify-stops (suc gap) (suc rounds) id n lt ok bad =
      let packet = put n.packet SPack.id id in
      let sent : Notice = record n {
        packet = packet;
        events = n.events ++ Event.send (players id).socket packet ∷ [];
      } in
      let next : id + suc gap ≡ suc id + gap = omega arith in
      let (told, dropped) =
        notify-stops gap rounds (suc id) sent (omega arith)
          (λ j low high. ok j (omega arith) (omega arith)) (rw next at bad) in
      rw (next, ok id (omega arith) (omega arith))
        (
          told ∙ rw (greetings-put players n.packet id (suc gap) (suc id), append_assoc) refl,
          dropped,
        )

-- The packet that tells of the player who joined as `last`: its tag, the players so far, the size
-- of the room, and the newcomer's name with its NUL.
pub record TellsOf (packet : Mem) (last room_size : ℕ) (name : List ℕ) : Type 0 where
  pub lobby : get_int packet SPack.type ≡ s_wait
  pub occupancy : packet SPack.occupancy ≡ last + 1
  pub size : packet SPack.room_size ≡ room_size
  pub named :
      (i : ℕ) → i ≤ length name → packet (SPack.usernames last + i) ≡ get_or (name ++ 0 ∷ []) i 0

wait_packet-TellsOf :
    (m : Mem) (last size : ℕ) (p : Player) (name : List ℕ) {m' : Mem}
    → last < 4
    → c_string p.username ≡ some name
    → wait_packet m last size p ≡ some m'
    → TellsOf m' last size name
unfolding wait_packet
wait_packet-TellsOf m last size p name room text e = record {
  lobby = wait_packet-tag m last size p e;
  occupancy = ground arith;
  size = ground arith;
  named = λ i low.
      strcpy-at (wait_fields m last size) (SPack.usernames last) p.username name i text e low;
}

-- Who joins as player `last` gets the next slot and score 0, and while every send succeeds each of
-- the players so far, the newcomer included, is sent the one packet that tells of the newcomer, with
-- the player's own id in it. The game starts exactly when the room is full.
pub wait_step-greets :
    (io : Input) (r : Room) (msg : JoinInfo) (name : List ℕ)
    → io.msgrcv ≡ some msg
    → c_string msg.player.username ≡ some name
    → r.last_plr_id < 4
    → ((j : ℕ) → j ≤ r.last_plr_id → is_negative (io.send j) ≡ false)
    → (packet : Mem) × TellsOf packet r.last_plr_id r.room_size name
      × Returns
          (λ (r', es).
            (es ≡ greetings r'.players packet (r.last_plr_id + 1) 0)
            × (r'.players ≡ assign r.players r.last_plr_id msg.player)
            × (r'.score ≡ assign r.score r.last_plr_id 0)
            × (r'.last_plr_id ≡ r.last_plr_id + 1)
            × (r'.state ≡ (if r.last_plr_id + 1 == r.room_size then game else wait)))
          (wait_step io r)
unfolding wait_step set_at assign
wait_step-greets io r msg name e text room ok =
    let (packet, written, _) =
      result (wait_packet-Returns r.spack r.last_plr_id r.room_size msg.player (name, text)) in
    let players = assign r.players r.last_plr_id msg.player in
    let score = assign r.score r.last_plr_id 0 in
    let wrap : (r.last_plr_id + 1) % 256 ≡ r.last_plr_id + 1 = omega arith in
    let (told, kept) =
      notify-all io players (r.last_plr_id + 1) 0
        (record { packet = packet; score = score; events = [] })
        (λ j low high. ok j (omega arith)) in
    (
      packet,
      wait_packet-TellsOf r.spack r.last_plr_id r.room_size msg.player name room text written,
      rw (e, lt→ltb r.last_plr_id 4 room, written, wrap) (returns (told, refl, kept, refl, refl)),
    )

-- If the send to player `k` is the first that fails, the players after `k` are told nothing of the
-- newcomer, and player `k` counts as disconnected; the room goes on as if all had been told.
pub wait_step-stops :
    (io : Input) (r : Room) (msg : JoinInfo) (name : List ℕ) (k : ℕ)
    → io.msgrcv ≡ some msg
    → c_string msg.player.username ≡ some name
    → r.last_plr_id < 4
    → k ≤ r.last_plr_id
    → ((j : ℕ) → j < k → is_negative (io.send j) ≡ false)
    → is_negative (io.send k) ≡ true
    → (packet : Mem) × TellsOf packet r.last_plr_id r.room_size name
      × Returns
          (λ (r', es).
            (es ≡ greetings r'.players packet (k + 1) 0)
            × (r'.score ≡ assign (assign r.score r.last_plr_id 0) k 254)
            × (r'.last_plr_id ≡ r.last_plr_id + 1)
            × (r'.state ≡ (if r.last_plr_id + 1 == r.room_size then game else wait)))
          (wait_step io r)
unfolding wait_step set_at assign
wait_step-stops io r msg name k e text room le ok bad =
    let (packet, written, _) =
      result (wait_packet-Returns r.spack r.last_plr_id r.room_size msg.player (name, text)) in
    let players = assign r.players r.last_plr_id msg.player in
    let score = assign r.score r.last_plr_id 0 in
    let wrap : (r.last_plr_id + 1) % 256 ≡ r.last_plr_id + 1 = omega arith in
    let start : 0 + k ≡ k = omega arith in
    let one : suc k ≡ k + 1 = omega arith in
    let (told, dropped) =
      notify-stops io players k (r.last_plr_id + 1) 0
        (record { packet = packet; score = score; events = [] }) (omega arith)
        (λ j low high. ok j (omega arith)) (rw start bad) in
    (
      packet,
      wait_packet-TellsOf r.spack r.last_plr_id r.room_size msg.player name room text written,
      rw (e, lt→ltb r.last_plr_id 4 room, written, wrap)
          (returns (rw (← one) told, rw start at dropped, refl, refl)),
    )
