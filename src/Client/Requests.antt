-- ===== src/Client/Requests.antt =====
-- The packets that the client sends (src/client_logic.c), read back field by field.
use intellect_battle.Prelude.{
  ℕ, zero, suc, ◌+◌, ◌<◌, ◌≤◌, ◌≡◌, ◌≢◌, refl, sym, ◌∙◌, some, none, List, ℤ, to_char, arith,
  length, get_or, get_or-past, take, length-take, All, leb, ◌==◌, if◌then◌else◌, Bool-cases, inl,
  inr, is_negative,
}
use intellect_battle.Memory.{Mem, put, put_bytes, bytes, c_string, strncpy}
use intellect_battle.Memory.Laws.{get_or_default}
use intellect_battle.Memory.Text.{
  length-strncpy, bytes-put_bytes, c_string-bytes, c_string-ends, strncpy-eq-take, take-all,
  All-take,
}
use intellect_battle.Packet.{username_len, user_count, req_join, req_create}
use intellect_battle.Worker.Machine.{Request, read_req}
use intellect_battle.Client.Logic.{
  Client, init, request_head, request_packet, send_conf, sendto_server, code_success, code_failure,
}

-- The user name that `Client` holds, as an array.
abbrev pub name_of : Client → List ℕ
name_of client = bytes client.username 0 username_len

request_packet-read :
    (raw username : Mem) (type : ℤ) (size : ℕ)
    → read_req (request_packet raw username type size) ≡ record {
      type = to_char type;
      room_size = size;
      username = strncpy username_len (bytes username 0 username_len);
    }
unfolding read_req request_packet
request_packet-read raw username type size =
    let name =
      bytes-put_bytes (request_head raw type size) 10 40 (strncpy 40 (bytes username 0 40))
        (length-strncpy 40 (bytes username 0 40)) in
    λ i. record { type = to_char type; room_size = size; username = name i }

-- The request that `send_conf` makes of its arguments, as the worker reads it.
abbrev pub request : Client → (type size : ℕ) → Request
request client type size = record {
  type = type;
  room_size = size;
  username = strncpy username_len (name_of client);
}

-- `send_conf` makes one attempt to send a request: for REQ_JOIN (0) one for a room of 4, for
-- REQ_CREATE (1) one for a room of the given size, with the user name of `Client`. The worker reads
-- the same fields from it. The result tells of the success of `send`.
pub send_conf-request :
    (raw : Mem) (sent : ℤ) (client : Client) (type size : ℕ)
    → type ≤ 1
    → (m : Mem) × (send_conf raw sent client type size
        ≡ ((if is_negative sent then code_failure else code_success), some m))
      × (read_req m ≡ request client type (if type == 0 then 4 else size))
unfolding send_conf sendto_server
send_conf-request raw sent client zero size known = (
  request_packet raw client.username req_join user_count,
  refl,
  request_packet-read raw client.username req_join user_count,
)
send_conf-request raw sent client (suc zero) size known = (
  request_packet raw client.username req_create size,
  refl,
  request_packet-read raw client.username req_create size,
)
send_conf-request raw sent client (suc (suc type)) size known = absurd (omega arith)

-- Every other type is refused, and nothing is sent.
pub send_conf-unknown :
    (raw : Mem) (sent : ℤ) (client : Client) (type size : ℕ)
    → 1 < type
    → type < 256
    → send_conf raw sent client type size ≡ (code_failure, none)
unfolding send_conf
send_conf-unknown raw sent client type size other char = ground arith

-- After `init` the user name's array holds a text that ends within its 40 bytes, whatever it held
-- before and however long the name is.
pub init-HasText :
    (socket : ℤ) (name : List ℕ) (client : Client)
    → (s : List ℕ) × (c_string (name_of (init socket name client)) ≡ some s)
unfolding init
init-HasText socket name client = c_string-ends _ 0 40 39 (omega arith) (ground arith)

-- The buffer of `init` after a text of at most 39 bytes.
buffer-at :
    (u : Mem) (bs : List ℕ) (i : ℕ)
    → i < 39
    → put (put_bytes u 0 bs) 39 0 (0 + i) ≡ get_or bs i (u i)
unfolding put put_bytes
buffer-at u bs i lt = ground arith

buffer-end :
    (u : Mem) (bs : List ℕ)
    → length bs ≤ 39
    → u (length bs) ≡ 0
    → put (put_bytes u 0 bs) 39 0 (0 + length bs) ≡ 0
unfolding put put_bytes
buffer-end u bs fits nul = ground (arith, get_or-past bs (length bs) (u (length bs)))

init-kept :
    (name : List ℕ)
    → All (λ c. c ≢ 0) name
    → strncpy (if leb 40 (length name) then 39 else length name) name ≡ take 39 name
init-kept name nonzero = elim (Bool-cases (leb 40 (length name))) [
  | inl long ↦ rw long (strncpy-eq-take 39 name nonzero (ground arith))
  | inr short ↦ rw short (
      strncpy-eq-take (length name) name nonzero (omega arith)
      ∙ take-all (length name) name (omega arith)
      ∙ sym (take-all 39 name (ground arith)))
]

-- If every byte of the client's user name is still 0, as before the first call, `init` sets it to the
-- given name, a text without a 0 byte, or to the first 39 bytes of a longer one.
pub init-name :
    (socket : ℤ) (name : List ℕ) (client : Client)
    → ((i : ℕ) → i < 40 → client.username i ≡ 0)
    → All (λ c. c ≢ 0) name
    → c_string (name_of (init socket name client)) ≡ some (take 39 name)
unfolding init
init-name socket name client empty nonzero =
    let kept = init-kept name nonzero in
    let fits : length (take 39 name) ≤ 39 = length-take 39 name in
    c_string-bytes (init socket name client).username 0 40 (take 39 name) (omega arith)
      (All-take (λ c. c ≢ 0) 39 name nonzero)
      (λ i lt. rw kept (
        buffer-at client.username (take 39 name) i (omega arith)
        ∙ get_or_default (take 39 name) i (client.username i) 0 lt))
      (rw kept (
        buffer-end client.username (take 39 name) fits
          (empty (length (take 39 name)) (omega arith))))
