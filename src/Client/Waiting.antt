-- ===== src/Client/Waiting.antt =====
-- `wait_players` of src/client.c up to the start of the game: lobby packets are read until the room
-- is full, and a failure may be retried.
use intellect_battle.Prelude.{
  ℕ, zero, suc, ◌≤◌, ◌<◌, ◌≡◌, refl, subst, inl, inr, true, false, Option, none, some, List, [],
  ◌∷◌, ℤ, eqb_ℤ, ltb, length, arith, Bool-cases, ◌==◌, ◌⊎◌,
}
use intellect_battle.Memory.{Mem, get_int}
use intellect_battle.Packet.{s_wait}
use intellect_battle.Packet.SPack
use intellect_battle.Client.Logic.{
  RoomInfo, wait_for_players, recvfrom_server, read_wait, code_failure, wait_more, start_game,
}
use intellect_battle.Client.Menu.{Key}
use intellect_battle.Client.Errors.{err_wait_fail}
use intellect_battle.Client.Retry.{
  Retried, settled, stopped, waiting, out_of_fuel, retry, IsEnd, retry-IsEnd,
}

-- What a call of `wait_for_players` meets: the stack, and the bytes that `recv` delivers.
pub record Reception : Type 0 where
  pub stack : Mem
  pub delivered : Option (List ℕ)

-- The call of `wait_for_players` in lines 255 and 261. `r_info` is a local, so its address is not null.
unfoldable pub receive : Reception → RoomInfo → ℤ × RoomInfo
receive io r_info =
    let (errCode, room) = wait_for_players io.stack io.delivered (some r_info) in
    (errCode, elim room [ some r_info' ↦ r_info' | none ↦ r_info ])

-- The loops of lines 254 to 279, from a test of `errCode == WAIT_MORE` on, with fuel for the rounds.
unfoldable pub gather :
    ℕ → (errCode : ℤ) → RoomInfo → List Reception → List Key → Retried Reception RoomInfo
gather zero errCode r_info ios keys = out_of_fuel
gather (suc fuel) errCode r_info ios keys = elim (eqb_ℤ errCode wait_more) [
  | false ↦ settled errCode r_info ios keys
  | true ↦ elim ios [
    | [] ↦ waiting r_info
    | io ∷ later ↦
        let (errCode', r_info') = receive io r_info in
        elim (retry err_wait_fail receive (suc (length later)) errCode' r_info' later keys) [
          | settled errCode'' r_info'' ios' keys' ↦ gather fuel errCode'' r_info'' ios' keys'
          | stopped r_info'' ↦ stopped r_info''
          | waiting r_info'' ↦ waiting r_info''
          | out_of_fuel ↦ out_of_fuel
        ]
  ]
]

-- The loops of `wait_players`. Each round takes a reception, so more rounds than receptions are enough.
unfoldable pub wait_room : RoomInfo → List Reception → List Key → Retried Reception RoomInfo
unfolding gather
wait_room r_info ios keys = gather (suc (length ios)) wait_more r_info ios keys

-- A code of `wait_for_players` with the room that it leaves: the game starts in a full room only.
abbrev pub IsReceived : ℤ → RoomInfo → Type 0
IsReceived code room =
    (code ≡ code_failure)
    ⊎ (code ≡ wait_more)
    ⊎ ((code ≡ start_game) × (room.room_size ≤ room.occupancy))

receive-IsReceived :
    (io : Reception) (r_info : RoomInfo) → IsReceived (receive io r_info).0 (receive io r_info).1
unfolding receive wait_for_players
receive-IsReceived io r_info =
    let got = recvfrom_server io.delivered io.stack in
    let room' = read_wait got.1 r_info in
    elim (Bool-cases (eqb_ℤ got.0 code_failure)) [
      | inl fail ↦ rw fail (inl refl)
      | inr ok ↦ elim (Bool-cases (get_int got.1 SPack.type == s_wait)) [
        | inr other ↦ rw (ok, other) (inl refl)
        | inl wait ↦ elim (Bool-cases (ltb room'.occupancy room'.room_size)) [
          | inl more ↦ rw (ok, wait, more) (inr (inl refl))
          | inr full ↦ rw (ok, wait, full) (inr (inr (refl, ground arith)))
        ]
      ]
    ]

-- How the wait for a game may end: with a full room, not yet, or with the end of the program.
unfoldable pub IsGathered : Retried Reception RoomInfo → Type 0
IsGathered (settled errCode r_info ios keys) =
    (errCode ≡ start_game) × (r_info.room_size ≤ r_info.occupancy)
IsGathered (stopped r_info) = Unit
IsGathered (waiting r_info) = Unit
IsGathered out_of_fuel = ⊥

starts :
    (code : ℤ) (room : RoomInfo)
    → eqb_ℤ code code_failure ≡ false
    → eqb_ℤ code wait_more ≡ false
    → IsReceived code room
    → (code ≡ start_game) × (room.room_size ≤ room.occupancy)
starts code room ok done (inl fail) =
    absurd (unmet (subst (λ c. eqb_ℤ c code_failure ≡ false) fail ok))
  where
    unmet : eqb_ℤ code_failure code_failure ≡ false → ⊥
    unmet e = ground arith
starts code room ok done (inr (inl more)) =
    absurd (unmet (subst (λ c. eqb_ℤ c wait_more ≡ false) more done))
  where
    unmet : eqb_ℤ wait_more wait_more ≡ false → ⊥
    unmet e = ground arith
starts code room ok done (inr (inr full)) = full

-- What is known of every start of the loop.
abbrev IsStart : ℤ → RoomInfo → Type 0
IsStart errCode r_info = (eqb_ℤ errCode code_failure ≡ false) × IsReceived errCode r_info

-- A round, if the rounds after it end as they should.
next_round :
    (fuel n : ℕ) (r : Retried Reception RoomInfo)
    → n < fuel
    → IsEnd err_wait_fail receive IsReceived n r
    → ((c : ℤ) (room : RoomInfo) (ios : List Reception) (keys : List Key)
        → length ios < fuel
        → IsStart c room
        → IsGathered (gather fuel c room ios keys))
    → IsGathered (elim r [
      | settled errCode r_info ios keys ↦ gather fuel errCode r_info ios keys
      | stopped r_info ↦ stopped r_info
      | waiting r_info ↦ waiting r_info
      | out_of_fuel ↦ out_of_fuel
    ])
unfolding IsGathered IsEnd
next_round fuel n (settled c room ios keys) lt (ok, p, few) later =
    later c room ios keys (omega arith) (ok, p)
next_round fuel n (stopped room) lt e later = tt
next_round fuel n (waiting room) lt e later = tt
next_round fuel n out_of_fuel lt e later = e

gather-IsGathered :
    (fuel : ℕ) (errCode : ℤ) (r_info : RoomInfo) (ios : List Reception) (keys : List Key)
    → length ios < fuel
    → IsStart errCode r_info
    → IsGathered (gather fuel errCode r_info ios keys)
unfolding gather IsGathered
gather-IsGathered zero errCode r_info ios keys enough p = absurd (omega arith)
gather-IsGathered (suc fuel) errCode r_info ios keys enough (ok, p) =
    elim (Bool-cases (eqb_ℤ errCode wait_more)) [
      | inr done ↦ rw (done, gather) (starts errCode r_info ok done p)
      | inl more ↦
          elim ios
              as (λ l. length l < suc fuel → IsGathered (gather (suc fuel) errCode r_info l keys)) [
                | [] ↦ λ enough. rw (more, gather) tt
                | io ∷ later ↦ λ enough.
                    rw (more, gather)
                      (next_round fuel (length later) _ (omega arith)
                        (retry-IsEnd err_wait_fail receive IsReceived
                          (λ a s known. receive-IsReceived a s) (suc (length later))
                          (receive io r_info).0 (receive io r_info).1 later keys (omega arith)
                          (receive-IsReceived io r_info))
                        (gather-IsGathered fuel))
              ]
            enough
    ]

-- The wait for the players ends only with START_GAME and in a room whose players are at least as many
-- as its size, whatever the server sends, however often receptions fail and whatever the user
-- answers; or it still waits, or the user has left. The rounds of the model are enough for it.
pub wait_room-IsGathered :
    (r_info : RoomInfo) (ios : List Reception) (keys : List Key)
    → IsGathered (wait_room r_info ios keys)
unfolding wait_room
wait_room-IsGathered r_info ios keys =
    gather-IsGathered (suc (length ios)) wait_more r_info ios keys (omega arith)
      (ground arith, inr (inl refl))
