-- ===== src/Client/Phases.antt =====
-- What each part of the program of src/client.c sends.
use intellect_battle.Prelude.{
  ℕ, suc, ◌≤◌, ◌≡◌, inl, inr, false, List, [], ◌∷◌, map, ℤ, eqb_ℤ, length, arith, ◌==◌,
  if◌then◌else◌, All, All-append, Option-cases, Bool-cases,
}
use intellect_battle.Memory.{Mem}
use intellect_battle.Worker.Machine.{read_req}
use intellect_battle.Client.Logic.{Client, RoomInfo, code_failure}
use intellect_battle.Client.Requests.{request, send_conf-request}
use intellect_battle.Client.Menu.{Key}
use intellect_battle.Client.Errors.{err_conn_fail, err_conf_send_fail, error_window}
use intellect_battle.Client.Play.{Played, game_loop, packets}
use intellect_battle.Client.Retry.{Retried, retry, IsEnd, retry-IsEnd}
use intellect_battle.Client.Waiting.{Reception, wait_room, IsGathered, wait_room-IsGathered}
use intellect_battle.Client.Main.{
  Sent, answer, Attempt, Session, Phase, goes_on, ends, after_game, handle_end, play, crashed,
  blocked, aborted, no_fuel, Ended, left, wait_players, try_send, send_request, followed_by,
}

-- The worker reads from the packet a request of the client: to join a room, or to create one for a size
-- from 2 to 4, with its name.
abbrev pub IsAsk : Client → Mem → Type 0
IsAsk client m =
    (type : ℕ) × (size : ℕ) × (type ≤ 1)
    × (2 ≤ size)
    × (size ≤ 4)
    × (read_req m ≡ request client type (if type == 0 then 4 else size))

unfoldable pub IsOf : Client → Sent → Type 0
IsOf client (Sent.request m) = IsAsk client m
IsOf client (answer m) = Unit

-- The model has not run out of fuel.
abbrev pub HasFuel : Ended → Type 0
HasFuel left = Unit
HasFuel aborted = Unit
HasFuel blocked = Unit
HasFuel crashed = Unit
HasFuel no_fuel = ⊥

unfoldable pub IsSound : Client → Phase → Type 0
IsSound client (goes_on out) = All (IsOf client) out
IsSound client (ends e out) = HasFuel e × All (IsOf client) out

module _ (client : Client) where
  answers-Of : (out : List Mem) → All (IsOf client) (map answer out)
  unfolding IsOf
  answers-Of [] = tt
  answers-Of (m ∷ out) = (tt, answers-Of out)

  requests-Of : (out : List Mem) → All (IsAsk client) out → All (IsOf client) (map Sent.request out)
  unfolding IsOf
  requests-Of [] h = tt
  requests-Of (m ∷ out) (h, hs) = (h, requests-Of out hs)

  -- A chain of parts is sound if they are.
  pub followed_by-IsSound :
      (p q : Phase) → IsSound client p → IsSound client q → IsSound client (followed_by p q)
  unfolding IsSound followed_by
  followed_by-IsSound (ends e out) q hp hq = hp
  followed_by-IsSound (goes_on out) (goes_on out') hp hq = All-append (IsOf client) out out' hp hq
  followed_by-IsSound (goes_on out) (ends e out') hp (fuel, hq) =
      (fuel, All-append (IsOf client) out out' hp hq)

  handle_end-IsSound :
      (handle : ℕ) (out : List Sent)
      → All (IsOf client) out
      → IsSound client (handle_end handle out)
  unfolding handle_end IsSound
  handle_end-IsSound handle out h = elim (Bool-cases (handle == 201)) [
    | inl again ↦ rw again h
    | inr other ↦ elim (Bool-cases (handle == 202)) [
      | inl stop ↦ rw (other, stop) (tt, h)
      | inr none_of_both ↦ rw (other, none_of_both) h
    ]
  ]

  after_game-IsSound :
      (code : ℤ) (out : List Sent) (keys : List Key)
      → All (IsOf client) out
      → IsSound client (after_game code out keys)
  unfolding after_game IsSound
  after_game-IsSound code out keys h = elim (Bool-cases (eqb_ℤ code code_failure)) [
    | inr ok ↦ rw ok h
    | inl fail ↦ elim (Option-cases (error_window err_conn_fail false keys)) [
      | inl none_yet ↦ rw (fail, none_yet) (tt, h)
      | inr ((handle, rest), at) ↦ rw (fail, at) (handle_end-IsSound handle out h)
    ]
  ]

  ended-IsSound :
      (played : Played) (keys : List Key)
      → IsSound client (elim played [
        | Played.returned status out shown ↦ after_game status (map answer out) keys
        | Played.waiting out ↦ ends blocked (map answer out)
        | Played.undefined ↦ ends crashed []
      ])
  unfolding IsSound
  ended-IsSound (Played.returned status out shown) keys =
      after_game-IsSound status (map answer out) keys (answers-Of out)
  ended-IsSound (Played.waiting out) keys = (tt, answers-Of out)
  ended-IsSound Played.undefined keys = (tt, tt)

  waited-IsSound :
      (r : Retried Reception RoomInfo) (s : Session)
      → IsGathered r
      → IsSound client (elim r [
        | Retried.settled code r_info ios keys ↦ play r_info s
        | Retried.stopped r_info ↦ ends aborted []
        | Retried.waiting r_info ↦ ends blocked []
        | Retried.out_of_fuel ↦ ends no_fuel []
      ])
  unfolding IsSound play IsGathered
  waited-IsSound (Retried.settled code r_info ios keys) s g =
      ended-IsSound (game_loop s.stack s.delivered s.question r_info s.turns) s.end_errors
  waited-IsSound (Retried.stopped r_info) s g = (tt, tt)
  waited-IsSound (Retried.waiting r_info) s g = (tt, tt)
  waited-IsSound Retried.out_of_fuel s g = (g, tt)

  pub wait_players-IsSound : (s : Session) → IsSound client (wait_players s)
  unfolding wait_players
  wait_players-IsSound s =
      waited-IsSound (wait_room s.r_info s.lobby s.wait_errors) s
        (wait_room-IsGathered s.r_info s.lobby s.wait_errors)

  module _ (type size : ℕ) (known : type ≤ 1) (least : 2 ≤ size) (most : size ≤ 4) where
    -- Each attempt sends one more request.
    try_send-IsAsk :
        (a : Attempt) (out : List Mem)
        → All (IsAsk client) out
        → All (IsAsk client) (try_send client type size a out).1
    unfolding try_send packets
    try_send-IsAsk a out h =
        let (m, sends, read) = send_conf-request a.stack a.sent client type size known in
        rw sends
          (All-append (IsAsk client) out (m ∷ []) h ((type, size, known, least, most, read), tt))

    sent-IsSound :
        (r : Retried Attempt (List Mem)) (n : ℕ)
        → IsEnd err_conf_send_fail (try_send client type size) (λ c out. All (IsAsk client) out) n r
        → IsSound client (elim r [
          | Retried.settled code out tries keys ↦ goes_on (map Sent.request out)
          | Retried.stopped out ↦ ends aborted (map Sent.request out)
          | Retried.waiting out ↦ ends blocked (map Sent.request out)
          | Retried.out_of_fuel ↦ ends no_fuel []
        ])
    unfolding IsSound IsEnd
    sent-IsSound (Retried.settled code out tries keys) n (ok, h, few) = requests-Of out h
    sent-IsSound (Retried.stopped out) n (c, h) = (tt, requests-Of out h)
    sent-IsSound (Retried.waiting out) n (c, h) = (tt, requests-Of out h)
    sent-IsSound Retried.out_of_fuel n h = (h, tt)

    pub send_request-IsSound :
        (tries : List Attempt) (keys : List Key)
        → IsSound client (send_request client type size tries keys)
    unfolding send_request IsSound
    send_request-IsSound [] keys = (tt, tt)
    send_request-IsSound (a ∷ later) keys =
        let first = try_send client type size a [] in
        sent-IsSound
          (retry err_conf_send_fail (try_send client type size) (suc (length later)) first.0 first.1
            later keys)
          (length later)
          (retry-IsEnd err_conf_send_fail (try_send client type size)
            (λ c out. All (IsAsk client) out) (λ a out (c, h). try_send-IsAsk a out h)
            (suc (length later)) first.0 first.1 later keys (omega arith) (try_send-IsAsk a [] tt))
