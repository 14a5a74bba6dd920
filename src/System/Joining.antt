-- ===== src/System/Joining.antt =====
-- From the client's `send_conf` (src/client_logic.c) through the worker (src/worker.c) to the message
-- that a room takes from the queue (src/room.c).
use intellect_battle.Prelude.{
  ℕ, ◌≤◌, ◌≡◌, refl, ap, ◌∙◌, some, List, [], ◌∷◌, ℤ, arith, get_or, ◌==◌, if◌then◌else◌,
  is_negative, inr, inl,
}
use intellect_battle.Memory.{Mem, bytes, c_string, strncpy}
use intellect_battle.Memory.Laws.{length-bytes, get_or-bytes}
use intellect_battle.Memory.Text.{c_string-first, c_string-strncpy, length-strncpy}
use intellect_battle.Packet.{JoinInfo, username_len, msg_join, msg_create}
use intellect_battle.Packet.CPack
use intellect_battle.Room.Safety.{IsSound}
use intellect_battle.Worker.Machine.{Request, Worker, Event, wait, run, read_req}
use intellect_battle.Worker.Service.{
  visit, inputs_of, IsServable, request_of, join_info, routed, outcome, serve, read_req-cong,
}
use intellect_battle.Client.Logic.{Client, send_conf, code_success, code_failure}
use intellect_battle.Client.Requests.{name_of, request, send_conf-request}

pub request_of-bytes : (m : Mem) → request_of (bytes m 0 56) ≡ read_req m
request_of-bytes m =
    read_req-cong (λ i. get_or (bytes m 0 56) i 0) m
      (λ i lt. get_or-bytes m 0 56 i 0 lt ∙ ap m (omega arith))

-- The message that a request by `client` turns into.
abbrev pub message : Client → (socket type size : ℕ) → JoinInfo
message client socket type size =
    join_info (if type == 0 then msg_join else msg_create) socket
      (request client type (if type == 0 then 4 else size))

name-kept :
    (client : Client) (name : List ℕ)
    → c_string (name_of client) ≡ some name
    → c_string (strncpy username_len (strncpy username_len (name_of client))) ≡ some name
name-kept client name text =
    c_string-strncpy 40 (strncpy 40 (name_of client))
      (c_string-strncpy 40 (name_of client) text (omega (arith, length-bytes client.username 0 40)))
      (omega (arith, length-strncpy 40 (name_of client)))

message-IsSound :
    (client : Client) (socket type size : ℕ) (name : List ℕ)
    → c_string (name_of client) ≡ some name
    → 2 ≤ size
    → size ≤ 4
    → IsSound (message client socket type size)
message-IsSound client socket type size name text least most = record {
  least = ground arith;
  most = ground arith;
  named = (name, name-kept client name text);
}

routed-named :
    (client : Client) (socket type size : ℕ) (c : ℕ) (cs : List ℕ)
    → c_string (name_of client) ≡ some (c ∷ cs)
    → type ≤ 1
    → routed socket (request client type (if type == 0 then 4 else size))
      ≡ Event.msgsnd (message client socket type size) ∷ []
unfolding routed
routed-named client socket type size c cs text known =
    let kept =
      c_string-strncpy 40 (name_of client) text
        (omega (arith, length-bytes client.username 0 40)) in
    let (first, named) = c_string-first (strncpy 40 (name_of client)) c cs kept in ground arith

-- What a request of the client, as the worker reads it, leads to.
pub read-reaches_room :
    (m : Mem) (client : Client) (socket type size c : ℕ) (cs : List ℕ) (w : Worker)
    → read_req m ≡ request client type (if type == 0 then 4 else size)
    → c_string (name_of client) ≡ some (c ∷ cs)
    → type ≤ 1
    → 2 ≤ size
    → size ≤ 4
    → w.state ≡ wait
    → ((run (inputs_of (visit socket (some (bytes m 0 56)))) w).1
        ≡ Event.msgsnd (message client socket type size) ∷ [])
      × IsSound (message client socket type size)
      × (c_string (message client socket type size).player.username ≡ some (c ∷ cs))
unfolding outcome routed
read-reaches_room m client socket type size c cs w read text known least most at =
    let whole : IsServable (some (bytes m 0 56)) = (length-bytes m 0 56, inr (inl type_known)) in
    let (waits, served) = serve socket (some (bytes m 0 56)) w at whole in
    (
      served
          ∙ ap (routed socket) (request_of-bytes m ∙ read)
          ∙ routed-named client socket type size c cs text known,
      message-IsSound client socket type size (c ∷ cs) text least most,
      name-kept client (c ∷ cs) text,
    )
  where
    type_known : get_or (bytes m 0 56) CPack.req_type 0 ≤ 1
    type_known =
        let first : (read_req m).type ≡ type = ap (λ (q : Request). q.type) read in
        let at : m CPack.req_type ≡ type = unfold read_req in first in
        omega (arith, get_or-bytes m 0 56 8 0 (omega arith), at, known)

-- A client with a name of at least one byte that asks to join a room, or to create one for 2 to 4 players, sends one
-- packet. The worker that takes it sends the rooms one message, and that message carries the
-- client's name and socket, the kind of the request and a room size that the rooms can serve.
pub request-reaches_room :
    (raw : Mem) (sent : ℤ) (client : Client) (socket type size c : ℕ) (cs : List ℕ) (w : Worker)
    → c_string (name_of client) ≡ some (c ∷ cs)
    → type ≤ 1
    → 2 ≤ size
    → size ≤ 4
    → w.state ≡ wait
    → (m : Mem) × (msg : JoinInfo) × (send_conf raw sent client type size
        ≡ ((if is_negative sent then code_failure else code_success), some m))
      × ((run (inputs_of (visit socket (some (bytes m 0 56)))) w).1 ≡ Event.msgsnd msg ∷ [])
      × IsSound msg
      × (c_string msg.player.username ≡ some (c ∷ cs))
      × (msg.player.socket ≡ socket)
      × (msg.type ≡ (if type == 0 then msg_join else msg_create))
request-reaches_room raw sent client socket type size c cs w text known least most at =
    let (m, sends, read) = send_conf-request raw sent client type size known in
    let (served, sound, kept) =
      read-reaches_room m client socket type size c cs w read text known least most at in
    (m, message client socket type size, sends, served, sound, kept, refl, refl)
