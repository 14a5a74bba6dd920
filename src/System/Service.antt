-- ===== src/System/Service.antt =====
-- The whole server (src/server.c, src/worker.c, src/room.c, src/unit.c) among players who use the client of
-- this repository (src/client.c, src/client_logic.c): its threads in any order.
use intellect_battle.Prelude.{
  ℕ, suc, ◌≡◌, refl, ap, sym, subst, ◌∙◌, ◌⊎◌, inl, inr, Option, none, some, List, [], ◌∷◌, length,
  All, arith,
}
use intellect_battle.Memory.{Mem, bytes, c_string}
use intellect_battle.Memory.Laws.{length-bytes}
use intellect_battle.Memory.Text.{c_string-strncpy, length-strncpy}
use intellect_battle.Units.{Heap, Ptr}
use intellect_battle.Units.Parse.{Quiz, Entry, Loading, ok, undefined, out_of_fuel, null_returned}
use intellect_battle.Units.Load.{unit_deque_init}
use intellect_battle.Units.Listing.{listing}
use intellect_battle.Units.Deque.{IsFresh}
use intellect_battle.Units.Refinement.{unit_deque_init-IsRing}
use intellect_battle.Units.Proper.{listing-IsProper}
use intellect_battle.Room.State.{Room, RoomInfo}
use intellect_battle.Room.Machine.{room_fsm_start}
use intellect_battle.Room.Safety
use intellect_battle.Room.Safety.{Inv}
use intellect_battle.Room.Announcements.{Proper}
use intellect_battle.Worker.Machine.{Worker, wait, read_req}
use intellect_battle.Worker.Service.{request_of}
use intellect_battle.Client.Logic.{Client, init}
use intellect_battle.Client.Requests.{name_of, init-HasText}
use intellect_battle.Client.Main.{Sent, World, zeroed, get_nickname, named, main}
use intellect_battle.Client.Phases.{IsOf}
use intellect_battle.Client.Sessions.{main-IsRun}
use intellect_battle.Network.Queue.{Message, Kernel}
use intellect_battle.Network.Steps.{System, Reach}
use intellect_battle.Network.Workers.{IsRequest, IsProperPacket, IsHarmless, waits-Ready}
use intellect_battle.Network.Safety.{IsSafe, Reach-IsSafe}
use intellect_battle.System.Joining.{request_of-bytes}
use intellect_battle.System.Questions.{OfDeque, walkable, fresh_room, step-fresh_room}

-- One of the list's entries.
abbrev pub Among : {A : Type 0} → A → List A → Type 0
Among x [] = ⊥
Among x (y ∷ ys) = (x ≡ y) ⊎ Among x ys

All-Among : {A : Type 0} (P : A → Type 0) (x : A) (xs : List A) → All P xs → Among x xs → P x
All-Among P x [] all among = absurd among
All-Among P x (y ∷ ys) (here, all) (inl e) = subst P (sym e) here
All-Among P x (y ∷ ys) (here, all) (inr later) = All-Among P x ys all later

-- A reception fails, or the peer has closed, as the client does when its user chooses EXIT, or a request
-- that a run of the client has sent arrives in full.
abbrev pub FromClient : Option (List ℕ) → Type 0
FromClient none = Unit
FromClient (some []) = Unit
FromClient (some (b ∷ bs)) =
    (world : World) × (name : List ℕ) × (m : Mem) × (get_nickname world.scanned ≡ named name)
    × Among (Sent.request m) (main world).0
    × (b ∷ bs ≡ bytes m 0 56)

asked-IsRequest :
    (client : Client) (m : Mem) (s : List ℕ)
    → c_string (name_of client) ≡ some s
    → IsOf client (Sent.request m)
    → IsRequest (read_req m)
unfolding IsOf
asked-IsRequest client m s text (type, size, known, least, most, read) =
    subst IsRequest (sym read) (record {
      least = ground arith;
      most = ground arith;
      named = (
        s,
        c_string-strncpy 40 (name_of client) text
            (omega (arith, length-bytes client.username 0 40)),
      );
      fits = omega (arith, length-strncpy 40 (name_of client));
    })

pub FromClient-IsProperPacket : (got : Option (List ℕ)) → FromClient got → IsProperPacket got
FromClient-IsProperPacket none from = tt
FromClient-IsProperPacket (some []) from = tt
FromClient-IsProperPacket (some (b ∷ bs)) (world, name, m, typed, sent, e) =
    let client = init world.socket name zeroed in
    let (s, text) = init-HasText world.socket name zeroed in
    let of_client =
      All-Among (IsOf client) (Sent.request m) (main world).0 (main-IsRun world name typed).0
        sent in
    subst (λ bs. (length bs ≡ 56) × IsRequest (request_of bs)) (sym e)
      (
        length-bytes m 0 56,
        subst IsRequest (sym (request_of-bytes m)) (asked-IsRequest client m s text of_client),
      )

-- The threads at their start: the queue is `q`, the workers are waiting, and each room has run its first
-- lines on the deque `p` with the variables that are not yet set in `raw`.
abbrev pub started : {Q : Type 0} → Q → (ℕ → Worker) → RoomInfo → Ptr → (ℕ → Room) → System Q
started q workers info p raw = record {
  queue = q;
  workers = workers;
  rooms = λ i. (room_fsm_start (record info { units = p }) (raw i)).1;
}

module _ {Q : Type 0} (kernel : Kernel Q) (On : Ptr → Type 0) (heap : Heap) where
  pub started-IsSafe :
      (q : Q) (workers : ℕ → Worker) (info : RoomInfo) (p : Ptr) (raw : ℕ → Room)
      → ((m : Message) → ¬ kernel.Holds q m)
      → ((i : ℕ) → ((workers i).state ≡ wait) × IsHarmless (read_req (workers i).pack))
      → On p
      → IsSafe kernel On heap (started q workers info p raw)
  unfolding room_fsm_start
  started-IsSafe q workers info p raw empty waiting on = record {
    messages = λ m holds. absurd (empty m holds);
    workers = λ i. waits-Ready (workers i) (waiting i).0 (waiting i).1;
    rooms = λ i.
        let v : Inv On (fresh_room p (raw i) 1) = ground (arith, on) in
        (
          fresh_room p (raw i) 1,
          v,
          refl,
          λ io. step-fresh_room heap io p (raw i) (raw i).quest_num 1,
        );
  }

ok-injective : {L A : Type 0} {a b : A} → ◌≡◌ {A = Loading L A} (ok a) (ok b) → a ≡ b
ok-injective {a} e =
    ap (λ l. elim l [ ok x ↦ x | undefined ↦ a | out_of_fuel ↦ a | null_returned _ ↦ a ]) e

module _ {Q : Type 0} (kernel : Kernel Q) (calloc : ℕ → Ptr) (fresh : Mem → Mem) (input : Mem)
    (entries : List Entry) (h : Heap) (qs : List Quiz) (m : ℕ) (p : Ptr) (heap : Heap)
    (new : IsFresh calloc h) (lists : listing fresh input entries ≡ ok qs)
    (many : length qs ≡ suc m)
    (loads : unit_deque_init calloc fresh input (some entries) h ≡ ok (p, heap)) where
  -- The deque that was loaded is one that rooms can walk.
  pub loaded : (OfDeque calloc (suc m)) p × Safety.Ring (OfDeque calloc (suc m)) heap
  loaded =
      let (heap', loads', ring) =
        unit_deque_init-IsRing calloc fresh input entries h qs m new lists many in
      let e : ◌≡◌ {A = Ptr × Heap} (calloc m, heap') (p, heap) =
        ok-injective (sym loads' ∙ loads) in
      (
        subst (OfDeque calloc (suc m)) (ap (λ x. x.0) e) (m, omega arith, refl),
        subst (Safety.Ring (OfDeque calloc (suc m))) (ap (λ x. x.1) e) (
            walkable calloc h heap' qs m many ring (listing-IsProper fresh input entries qs lists)),
      )

  module _ (wnum rnum : ℕ) (q : Q) (workers : ℕ → Worker) (info : RoomInfo) (raw : ℕ → Room)
      (empty : (msg : Message) → ¬ kernel.Holds q msg)
      (waiting : (i : ℕ) → ((workers i).state ≡ wait) × IsHarmless (read_req (workers i).pack))
      (t : System Q)
      (reached : Reach kernel FromClient heap wnum rnum (started q workers info p raw) t) where
    pub reached-IsSafe : IsSafe kernel (OfDeque calloc (suc m)) heap t
    reached-IsSafe =
        Reach-IsSafe kernel (OfDeque calloc (suc m)) heap FromClient wnum rnum loaded.1
          FromClient-IsProperPacket
          (started-IsSafe kernel (OfDeque calloc (suc m)) heap q workers info p raw empty waiting
            loaded.0)
          reached
