-- ===== src/Server/Release.antt =====
-- Does the server release what it has acquired (src/server.c)?
use intellect_battle.Prelude.{
  ◌⊎◌, ℕ, ◌≡◌, refl, Bool, true, false, List, [], ◌∷◌, is_negative, if◌then◌else◌, Bool-cases, inl,
  inr,
}
use intellect_battle.Server.Process.{
  Resource, socket, queue, units, worker_handlers, room_handlers, unit_remains, UnitsLoad, loaded,
  first_failed, later_failed, Call, acquire, release, report, join, start_workers, start_rooms, Tid,
  null, room_tid, worker_tid, Answers, Started, exits, runs, after, make_pools, make_queue, launch,
  init_server, server_finalize, free,
}

unfoldable pub same : Resource → Resource → Bool
same socket socket = true
same queue queue = true
same units units = true
same worker_handlers worker_handlers = true
same room_handlers room_handlers = true
same unit_remains unit_remains = true
same _ _ = false

-- Is the resource held after the calls, if it was `before`?
unfoldable pub held : Resource → Bool → List Call → Bool
unfolding same
held r before [] = before
held r before (acquire q ∷ calls) = held r (if same r q then true else before) calls
held r before (release q ∷ calls) = held r (if same r q then false else before) calls
held r before (report error ∷ calls) = held r before calls
held r before (join tid size ∷ calls) = held r before calls
held r before (start_workers size ∷ calls) = held r before calls
held r before (start_rooms size ∷ calls) = held r before calls

-- After the calls each of the five resources of a running server is held, or none is.
abbrev pub AllHeld : Bool → List Call → Type 0
AllHeld b calls =
    (held socket false calls ≡ b)
    × (held queue false calls ≡ b)
    × (held units false calls ≡ b)
    × (held worker_handlers false calls ≡ b)
    × (held room_handlers false calls ≡ b)

-- A start that ends holds none of the five; one that runs holds them all. What a load of the units has left
-- behind is held after an end with code 4 for which a later `calloc` of the load has failed, and never else.
unfoldable pub IsClean : UnitsLoad → Started → Type 0
IsClean load (exits code calls) =
    AllHeld false calls
    × ((held unit_remains false calls ≡ false)
        ⊎ ((load ≡ later_failed) × (code ≡ 4) × (held unit_remains false calls ≡ true)))
IsClean load (runs conf calls) = AllHeld true calls × (held unit_remains false calls ≡ false)

-- The eight ends of a start.
abbrev Ends : UnitsLoad → (wnum rnum : ℕ) → (Started → Type 0) → Type 0
Ends load wnum rnum P =
    P (exits 4 (report 4 ∷ []))
    × P (exits 5 (acquire socket ∷ report 5 ∷ release socket ∷ []))
    × P (exits 1 (acquire socket ∷ report 1 ∷ release socket ∷ []))
    × P (exits 4 (acquire socket ∷ acquire queue ∷ report 3 ∷ release socket ∷ release queue ∷ []))
    × ((load ≡ later_failed)
        → P (
            exits 4 (
              acquire socket
              ∷ acquire queue
              ∷ acquire unit_remains
              ∷ report 3
              ∷ release socket
              ∷ release queue
              ∷ [])))
    × P (
        exits 2 (
          acquire socket
          ∷ acquire queue
          ∷ acquire units
          ∷ report 2
          ∷ release socket
          ∷ release queue
          ∷ release units
          ∷ []))
    × P (
        exits 2 (
          acquire socket
          ∷ acquire queue
          ∷ acquire units
          ∷ acquire worker_handlers
          ∷ report 2
          ∷ release socket
          ∷ release queue
          ∷ release units
          ∷ release worker_handlers
          ∷ []))
    × P (
        runs
          (record {
            workers = record { tid = room_tid; size = rnum };
            rooms = record { tid = null; size = 0 };
          })
          (acquire socket
            ∷ acquire queue
            ∷ acquire units
            ∷ acquire worker_handlers
            ∷ acquire room_handlers
            ∷ start_workers wnum
            ∷ start_rooms rnum
            ∷ []))

load-cases : (load : UnitsLoad) → (load ≡ loaded) ⊎ ((load ≡ first_failed) ⊎ (load ≡ later_failed))
load-cases loaded = inl refl
load-cases first_failed = inr (inl refl)
load-cases later_failed = inr (inr refl)

-- What holds of the eight ends holds of every start.
init_server-end :
    (P : Started → Type 0) (env : Answers) (wnum rnum : ℕ)
    → Ends env.units_load wnum rnum P
    → P (init_server env wnum rnum)
unfolding init_server make_queue make_pools launch after
init_server-end P env wnum rnum (p1, p2, p3, p4, p4', p5, p6, p7) =
    elim (Bool-cases (is_negative env.socket_fd)) [
      | inl e ↦ rw e p1
      | inr e ↦ elim (Bool-cases (is_negative env.bound)) [
        | inl e1 ↦ rw (e, e1) p2
        | inr e1 ↦ elim (Bool-cases (is_negative env.msgqid)) [
          | inl e2 ↦ rw (e, e1, e2) p3
          | inr e2 ↦ elim (load-cases env.units_load) [
            | inr (inl e3) ↦ rw (e, e1, e2, e3) p4
            | inr (inr e3) ↦ rw (e, e1, e2, e3) (p4' e3)
            | inl e3 ↦ elim (Bool-cases env.workers_malloc) [
              | inr e4 ↦ rw (e, e1, e2, e3, e4) p5
              | inl e4 ↦ elim (Bool-cases env.rooms_malloc) [
                | inr e5 ↦ rw (e, e1, e2, e3, e4, e5) p6
                | inl e5 ↦ rw (e, e1, e2, e3, e4, e5) p7
              ]
            ]
          ]
        ]
      ]
    ]

-- Is the call of `pthread_join` for these threads among the calls?
unfoldable pub waits_for : Tid → List Call → Bool
waits_for tid [] = false
waits_for room_tid (join room_tid size ∷ calls) = true
waits_for worker_tid (join worker_tid size ∷ calls) = true
waits_for null (join null size ∷ calls) = true
waits_for tid (_ ∷ calls) = waits_for tid calls

-- What becomes of a server that has come up and is then shut down.
unfoldable pub Shutdown : Started → Type 0
Shutdown (exits code calls) = AllHeld false calls
Shutdown (runs conf calls) =
    let ending = server_finalize conf in
    (held worker_handlers true ending ≡ true)
    × (held room_handlers true ending ≡ false)
    × (held socket true ending ≡ false)
    × (held queue true ending ≡ false)
    × (held units true ending ≡ false)
    × (waits_for worker_tid ending ≡ false)
    × (waits_for room_tid ending ≡ true)

-- A server that `init_server` has brought up and `server_finalize` shuts down waits for the threads of
-- the rooms but not for those of the workers, and it gives back the socket, the queue, the units and
-- the rooms' array, but never the workers' array. A start that fails leaves none of
-- these five behind.
pub server_finalize-forgets : (env : Answers) (wnum rnum : ℕ) → Shutdown (init_server env wnum rnum)
unfolding held same waits_for server_finalize free Shutdown
server_finalize-forgets env wnum rnum =
    init_server-end Shutdown env wnum rnum
      (none, none, none, none, (λ later. none), none, none, all)
  where
    none : {a b c d e : Bool} → (a ≡ a) × (b ≡ b) × (c ≡ c) × (d ≡ d) × (e ≡ e)
    none = (refl, refl, refl, refl, refl)

    all :
        {a b c d e f g : Bool} → (a ≡ a) × (b ≡ b) × (c ≡ c) × (d ≡ d) × (e ≡ e) × (f ≡ f) × (g ≡ g)
    all = (refl, refl, refl, refl, refl, refl, refl)
