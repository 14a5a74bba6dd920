-- ===== src/System/Questions.antt =====
-- The server's questions: the deque that `unit_deque_init` (src/unit.c) loads is one that the rooms
-- (src/room.c) can walk for ever, and that `unit_deque_free` takes apart again.
use intellect_battle.Prelude.{
  ℕ, zero, suc, ◌+◌, ◌<◌, ◌≡◌, refl, ap, sym, subst, ◌∙◌, inl, inr, some, List, [], ◌∷◌, length,
  All, arith, get_elem?, ◌==◌, if◌then◌else◌, Returns, returns, result, Returns-of_some, Bool-cases,
}
use mathlib.Core.Option.{some-injective}
use intellect_battle.Memory.{Mem}
use intellect_battle.Units.{Heap, Ptr, UnitNode}
use intellect_battle.Units.Parse.{Quiz, Entry, ok}
use intellect_battle.Units.Load.{unit_deque_init}
use intellect_battle.Units.Listing.{listing}
use intellect_battle.Units.Deque.{quiz_of, IsFresh}
use intellect_battle.Units.Closing.{IsRing}
use intellect_battle.Units.Refinement.{unit_deque_init-IsRing}
use intellect_battle.Units.Proper.{IsProper, listing-IsProper}
use intellect_battle.Room.State.{Room, RoomInfo, Input, init}
use intellect_battle.Room.Safety
use intellect_battle.Room.Safety.{HasTexts, Inv, Admissible}
use intellect_battle.Room.Announcements.{Proper, run-Proper}
use intellect_battle.Room.Machine.{run, step, dispatch, room_fsm_start}
use intellect_battle.Room.Lobby.{init_step, reset}

-- A node of the deque with this many units.
abbrev pub OfDeque : (ℕ → Ptr) → ℕ → Ptr → Type 0
OfDeque calloc n p = (k : ℕ) × (k < n) × (p ≡ calloc k)

All-at :
    (P : Quiz → Type 0) (qs : List Quiz) (k : ℕ) (q : Quiz)
    → All P qs
    → get_elem? qs k ≡ some q
    → P q
All-at P [] k q all e = cc
All-at P (x ∷ qs) zero q (here, all) e = subst P (some-injective x q e) here
All-at P (x ∷ qs) (suc k) q (here, all) e = All-at P qs k q all e

proper_texts : (u : UnitNode) → IsProper (quiz_of u) → HasTexts u
proper_texts u p = record {
  quest = p.quest;
  ans0 = p.ans0;
  ans1 = p.ans1;
  ans2 = p.ans2;
  ans3 = p.ans3;
}

module _ (calloc : ℕ → Ptr) (h heap : Heap) (qs : List Quiz) (m : ℕ) (many : length qs ≡ suc m)
    (ring : IsRing calloc h qs m heap) where
  next_in : (k : ℕ) → k < suc m → OfDeque calloc (suc m) (calloc (if k == m then 0 else k + 1))
  next_in k lt = elim (Bool-cases (k == m)) [
    | inl last ↦ rw last (0, omega arith, refl)
    | inr inner ↦ rw inner (k + 1, ground arith, refl)
  ]

  -- A room can walk it.
  pub walkable : All IsProper qs → Safety.Ring (OfDeque calloc (suc m)) heap
  walkable proper p (k, lt, e) =
      let (u, at, holds, next, back) = ring.nodes k (omega (arith, many)) in
      (
        u,
        ap heap e ∙ at,
        subst (OfDeque calloc (suc m)) (sym next) (next_in k lt),
        proper_texts u (All-at IsProper qs k (quiz_of u) proper holds),
      )

-- A room that starts on a unit, with what the number of the round happens to be.
abbrev pub fresh_room : Ptr → Room → ℕ → Room
fresh_room p raw n = record raw { state = init; cur_unit = p; quest_num = n }

-- INIT sets the number of the round.
pub step-fresh_room :
    (h : Heap) (io : Input) (p : Ptr) (raw : Room) (n k : ℕ)
    → step h io (fresh_room p raw n) ≡ step h io (fresh_room p raw k)
unfolding step dispatch init_step reset
step-fresh_room h io p raw n k = refl

run-fresh_room :
    (On : Ptr → Type 0) (h : Heap) (ios : List Input) (p : Ptr) (raw : Room) (n : ℕ)
    → Safety.Ring On h
    → On p
    → All Admissible ios
    → Returns (λ (r, es). All Proper es) (run h ios (fresh_room p raw n))
unfolding run
run-fresh_room On h [] p raw n ring on sound = returns tt
run-fresh_room On h (io ∷ ios) p raw n ring on sound =
    let v : Inv On (fresh_room p raw 1) = ground (arith, on) in
    let ((r, es), e, (_, proper)) =
      result (run-Proper On h (io ∷ ios) (fresh_room p raw 1) ring v sound) in
    rw (step-fresh_room h io p raw n 1) (Returns-of_some (λ (r, es). All Proper es) e proper)

-- If `calloc` returns fresh addresses, and the files of the directory, read without undefined
-- behaviour, list at least one unit, whatever else they hold, then `unit_deque_init` returns a deque,
-- and every room that starts on it runs without undefined behaviour on all admissible inputs and
-- sends proper packets only.
pub deque-serves_rooms :
    (calloc : ℕ → Ptr) (fresh : Mem → Mem) (input : Mem) (entries : List Entry) (h : Heap)
    (qs : List Quiz) (m : ℕ) (info : RoomInfo) (raw : Room) (ios : List Input)
    → IsFresh calloc h
    → listing fresh input entries ≡ ok qs
    → length qs ≡ suc m
    → All Admissible ios
    → (p : Ptr) × (heap : Heap) × (unit_deque_init calloc fresh input (some entries) h
        ≡ ok (p, heap))
      × Returns
          (λ (r, es). All Proper es)
          (run heap ios (room_fsm_start (record info { units = p }) raw).1)
deque-serves_rooms calloc fresh input entries h qs m info raw ios new lists many sound =
    let (heap, loads, ring) =
      unit_deque_init-IsRing calloc fresh input entries h qs m new lists many in
    (
      calloc m,
      heap,
      loads,
      unfold room_fsm_start in
          run-fresh_room (OfDeque calloc (suc m)) heap ios (calloc m) raw raw.quest_num
            (walkable calloc h heap qs m many ring (listing-IsProper fresh input entries qs lists))
            (m, omega arith, refl) sound,
    )
