-- ===== src/Client/Sessions.antt =====
-- What the program of src/client.c sends, over all its rounds.
use intellect_battle.Prelude.{
  ℕ, suc, ◌≤◌, ◌≡◌, refl, inl, inr, List, [], ◌∷◌, ◌++◌, ℤ, pos, negsuc, eqb_ℤ, length, arith,
  to_char, All, All-append, Option-cases, Bool-cases, Yields, Yields_at, fails, yields,
}
use intellect_battle.Client.Logic.{Client, init}
use intellect_battle.Client.Menu.{
  Key, Stay, chosen, waiting, out_of_fuel, get_behaviour, request_for, back_to_main_menu,
  application_exit, room_join,
}
use intellect_battle.Client.Choices.{IsBehaviour, Settles, get_behaviour-Settles}
use intellect_battle.Client.Errors.{err_conn_fail}
use intellect_battle.Client.Retry.{Retried, retry, IsEnd, retry-IsEnd}
use intellect_battle.Client.Main.{
  Sent, Session, Phase, goes_on, ends, blocked, aborted, no_fuel, Ended, after_menu, round,
  main_loop, World, try_connect, connected, zeroed, get_nickname, named, main,
}
use intellect_battle.Client.Phases.{
  HasFuel, IsOf, IsSound, followed_by-IsSound, wait_players-IsSound, send_request-IsSound,
}

-- A run sends requests of the client only, and the model of it has had fuel enough.
abbrev pub IsRun : Client → List Sent × Ended → Type 0
IsRun client (out, end) = All (IsOf client) out × HasFuel end

continued :
    (client : Client) (p : Phase) (rest : List Sent × Ended)
    → IsSound client p
    → IsRun client rest
    → IsRun client (elim p as (λ _. List Sent × Ended) [
      | ends e out ↦ (out, e)
      | goes_on out ↦ (out ++ rest.0, rest.1)
    ])
unfolding IsSound
continued client (ends e out) rest (fuel, h) later = (h, fuel)
continued client (goes_on out) rest h (later, fuel) =
    (All-append (IsOf client) out rest.0 h later, fuel)

-- The request that a choice of the menus leads to.
abbrev Known : ℤ × ℤ → Type 0
Known (type, size) = (to_char type ≤ 1) × (2 ≤ to_char size) × (to_char size ≤ 4)

request_for-Known : (c : ℤ) → IsBehaviour c → Yields Known (request_for c)
unfolding request_for
request_for-Known c (inl exit) = rw exit fails
request_for-Known c (inr (inl join)) = rw join (yields (omega arith, omega arith, omega arith))
request_for-Known (pos n) (inr (inr (least, most))) = elim (Bool-cases (eqb_ℤ (pos n) room_join)) [
  | inl one ↦ absurd (ground arith)
  | inr more ↦ elim (Bool-cases (eqb_ℤ (pos n) application_exit)) [
    | inl none_of_both ↦ absurd (ground arith)
    | inr going ↦ rw (going, more) (yields (omega arith, least, most))
  ]
]
request_for-Known (negsuc n) (inr (inr bad)) = absurd bad

-- What follows the menus in a round.
chosen-IsSound :
    (client : Client) (s : Session) (stay : Stay)
    → Settles stay
    → IsSound client (after_menu client s stay)
unfolding after_menu IsSound Settles
chosen-IsSound client s waiting settles = (tt, tt)
chosen-IsSound client s out_of_fuel settles = absurd settles
chosen-IsSound client s (chosen c keys) behaviour = elim (Option-cases (request_for c)) [
  | inl leave ↦ rw (leave, after_menu) (tt, tt)
  | inr ((type, size), asks) ↦
      let (known, least, most) = Yields_at (request_for-Known c behaviour) asks in
      rw (asks, after_menu)
        (followed_by-IsSound client _ _
          (send_request-IsSound client (to_char type) (to_char size) known least most s.attempts
            s.send_errors)
          (wait_players-IsSound client s))
]

round-IsSound : (client : Client) (s : Session) → IsSound client (round client back_to_main_menu s)
unfolding round
round-IsSound client s =
    chosen-IsSound client s (get_behaviour (suc (length s.menu)) s.menu back_to_main_menu) (
      get_behaviour-Settles (suc (length s.menu)) s.menu back_to_main_menu (inl refl) (omega arith))

main_loop-IsRun :
    (client : Client) (sessions : List Session)
    → IsRun client (main_loop client back_to_main_menu sessions)
unfolding main_loop
main_loop-IsRun client [] = (tt, tt)
main_loop-IsRun client (s ∷ later) =
    continued client (round client back_to_main_menu s) (main_loop client back_to_main_menu later)
      (round-IsSound client s) (main_loop-IsRun client later)

connected-IsRun :
    (client : Client) (connects : List (ℤ → ℤ)) (keys : List Key) (sessions : List Session)
    → IsRun client (connected client connects keys sessions)
unfolding connected IsEnd
connected-IsRun client [] keys sessions = (tt, tt)
connected-IsRun client (connect ∷ later) keys sessions =
    let first = try_connect client connect 0 in
    met (retry err_conn_fail (try_connect client) (suc (length later)) first.0 first.1 later keys) (
      retry-IsEnd err_conn_fail (try_connect client) (λ _ _. Unit) (λ _ _ _. tt)
        (suc (length later)) first.0 first.1 later keys (omega arith) tt)
  where
    met :
        (r : Retried (ℤ → ℤ) ℕ)
        → IsEnd err_conn_fail (try_connect client) (λ _ _. Unit) (length later) r
        → IsRun client (elim r as (λ _. List Sent × Ended) [
          | Retried.settled _ _ _ _ ↦ main_loop client back_to_main_menu sessions
          | Retried.stopped _ ↦ ([], aborted)
          | Retried.waiting _ ↦ ([], blocked)
          | Retried.out_of_fuel ↦ ([], no_fuel)
        ])
    met (Retried.settled _ _ _ _) e = main_loop-IsRun client sessions
    met (Retried.stopped _) e = (tt, tt)
    met (Retried.waiting _) e = (tt, tt)
    met Retried.out_of_fuel e = (tt, e)

-- Once the user has given a name, every request that the program sends, in all its rounds, is read by
-- the worker as a request of the client of that name to join a room or to create one, for 2 to
-- 4 players. That is so for whatever keys the user presses, however often a failed connection, a
-- failed send or a failed reception is tried again, and whatever the server sends. The model's fuel
-- is enough for all loops of such a run.
pub main-IsRun :
    (world : World) (name : List ℕ)
    → get_nickname world.scanned ≡ named name
    → IsRun (init world.socket name zeroed) (main world)
unfolding main
main-IsRun world name typed =
    rw (typed, main)
      (connected-IsRun (init world.socket name zeroed) world.connects world.connect_errors
        world.sessions)
