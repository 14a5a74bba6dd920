-- ===== src/Room/LobbyTests.antt =====
-- The lobby and the shared buffer of `room_fsm` (src/room.c) at concrete inputs.
use intellect_battle.Prelude.{
  ◌≡◌, refl, none, some, [], ◌∷◌, pos, negsuc, arith, Returns, ◌==◌, if◌then◌else◌,
}
use intellect_battle.Memory.{Mem, c_string}
use intellect_battle.Room.State.{Room, Input, wait, assign}
use intellect_battle.Room.Lobby.{wait_step}
use intellect_battle.Room.Game.{Round, judge}
use intellect_battle.Room.Greeting.{TellsOf, greetings, wait_step-greets, wait_step-stops}
use intellect_battle.Room.Buffer.{closed_peer-scores}
use intellect_battle.Room.Tests.{quiet, joined, empty_room, ann, bob, answer_two}

-- A room for three, with one player in it.
abbrev room_of_three : Room
room_of_three = record empty_room { state = wait; room_size = 3; last_plr_id = 1 }

wait_step-greets_example :
    (packet : Mem) × TellsOf packet 1 3 (b'B' ∷ [])
    × Returns
        (λ (r', es).
          (es ≡ greetings r'.players packet 2 0)
          × (r'.players ≡ assign room_of_three.players 1 bob)
          × (r'.score ≡ assign room_of_three.score 1 0)
          × (r'.last_plr_id ≡ 2)
          × (r'.state ≡ wait))
        (wait_step (quiet (some joined)) room_of_three)
unfolding c_string
wait_step-greets_example =
    wait_step-greets (quiet (some joined)) room_of_three joined (b'B' ∷ []) refl refl (omega arith)
      (λ j low. refl)

-- The first player is gone.
abbrev first_gone : Input
first_gone = record (quiet (some joined)) { send = λ id. if id == 0 then negsuc 0 else pos 540 }

wait_step-stops_example :
    (packet : Mem) × TellsOf packet 1 3 (b'B' ∷ [])
    × Returns
        (λ (r', es).
          (es ≡ greetings r'.players packet 1 0)
          × (r'.score ≡ assign (assign room_of_three.score 1 0) 0 254)
          × (r'.last_plr_id ≡ 2)
          × (r'.state ≡ wait))
        (wait_step first_gone room_of_three)
unfolding c_string
wait_step-stops_example =
    wait_step-stops first_gone room_of_three joined (b'B' ∷ []) 0 refl refl (omega arith)
      (omega arith) (λ j low. absurd (omega arith)) refl

-- Both have 3 points; the second has closed the connection.
abbrev second_closed : Input
second_closed = record (quiet none) { recv = λ id. if id == 0 then some answer_two else some [] }

abbrev even_round : Round
even_round = record { score = λ i. 3; alive = 2; cpack = λ i. 0; events = [] }

abbrev judged_round : Round
judged_round = judge second_closed (λ i. ann) 2 1 (judge second_closed (λ i. ann) 2 0 even_round)

closed_peer-scores_example : (judged_round.score 0 ≡ 4) × (judged_round.score 1 ≡ 4)
closed_peer-scores_example =
    closed_peer-scores second_closed (λ i. ann) 2 0 even_round answer_two (omega arith)
      (omega arith) refl (omega arith) refl refl
