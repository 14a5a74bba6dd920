-- ===== src/System/Playing.antt =====
-- All that the client's program (src/client.c) asks for, as the rooms hear of it through the worker
-- (src/worker.c).
use intellect_battle.Prelude.{ℕ, ◌≡◌, ◌≢◌, refl, some, List, [], ◌∷◌, take, All}
use intellect_battle.Memory.{bytes, c_string}
use intellect_battle.Packet.{JoinInfo}
use intellect_battle.Room.Safety.{IsSound}
use intellect_battle.Worker.Machine.{Worker, Event, wait, run}
use intellect_battle.Worker.Service.{visit, inputs_of}
use intellect_battle.Client.Logic.{Client, init}
use intellect_battle.Client.Requests.{name_of, init-name}
use intellect_battle.Client.Main.{Sent, answer, World, zeroed, get_nickname, named, main}
use intellect_battle.Client.Phases.{IsOf, HasFuel}
use intellect_battle.Client.Sessions.{main-IsRun}
use intellect_battle.System.Joining.{message, read-reaches_room}

-- A request reaches the rooms as one message that they can serve, with this name.
unfoldable pub Arrives : (name : List ℕ) → (socket : ℕ) → Worker → Sent → Type 0
Arrives name socket w (Sent.request m) =
    (msg : JoinInfo) × ((run (inputs_of (visit socket (some (bytes m 0 56)))) w).1
      ≡ Event.msgsnd msg ∷ [])
    × IsSound msg
    × (c_string msg.player.username ≡ some name)
Arrives name socket w (answer m) = Unit

module _ (client : Client) (c : ℕ) (cs : List ℕ) (socket : ℕ) (w : Worker) where
  All-Arrives :
      (sent : List Sent)
      → c_string (name_of client) ≡ some (c ∷ cs)
      → w.state ≡ wait
      → All (IsOf client) sent
      → All (Arrives (c ∷ cs) socket w) sent
  unfolding Arrives IsOf
  All-Arrives [] text at h = tt
  All-Arrives (Sent.request m ∷ sent) text at ((type, size, known, least, most, read), h) =
      let (served, sound, kept) =
        read-reaches_room m client socket type size c cs w read text known least most at in
      ((message client socket type size, served, sound, kept), All-Arrives sent text at h)
  All-Arrives (answer m ∷ sent) text at (_, h) = (tt, All-Arrives sent text at h)

-- Once the user has given a name, a text without a 0 byte: each packet of a request that the program hands
-- to `send`, in any of its rounds and also where that `send` fails, would lead a waiting worker that
-- received it in full to send the rooms exactly one message. That message has a size from 2 to 4 and a
-- proper name: the given one, or its first 39 bytes. (The server's worker reads one request of a connection;
-- whether a packet arrives is not said.) So it is for whatever keys the user presses, however often a failed
-- connection, send or reception is tried again, and whatever the server sends. The fuel of the
-- model is enough for all loops of such a run, the menus included.
pub main-reaches_rooms :
    (world : World) (c : ℕ) (cs : List ℕ) (socket : ℕ) (w : Worker)
    → get_nickname world.scanned ≡ named (c ∷ cs)
    → All (λ b. b ≢ 0) (c ∷ cs)
    → w.state ≡ wait
    → All (Arrives (take 39 (c ∷ cs)) socket w) (main world).0 × HasFuel (main world).1
main-reaches_rooms world c cs socket w typed nonzero at =
    let (sent, fuel) = main-IsRun world (c ∷ cs) typed in
    (
      All-Arrives (init world.socket (c ∷ cs) zeroed) c (take 38 cs) socket w (main world).0
          (init-name world.socket (c ∷ cs) zeroed (λ i lt. refl) nonzero) at sent,
      fuel,
    )
