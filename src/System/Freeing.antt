-- ===== src/System/Freeing.antt =====
-- `unit_deque_free` on what `unit_deque_init` has loaded (src/unit.c).
-- (src/room.c) can walk for ever, and that `unit_deque_free` takes apart again.
use intellect_battle.Prelude.{
  ℕ, zero, suc, ◌+◌, ◌<◌, ◌≤◌, ◌≡◌, ◌≢◌, refl, ap, sym, subst, ◌∙◌, ◌⊎◌, inl, inr, true, false,
  none, some, List, [], ◌∷◌, length, All, arith, ◌==◌, if◌then◌else◌, result, pos,
}
use mathlib.Core.Path.{fun_ext}
use native.Mathlib.Decide.{ℕ_discrete}
use intellect_battle.Memory.{Mem}
use intellect_battle.Units.{Heap, Ptr}
use intellect_battle.Units.Free.{unit_deque_free}
use intellect_battle.Units.Rings
use intellect_battle.Units.Rings.{Next, Linked, Apart, among, unit_deque_free-frees}
use intellect_battle.Units.Parse.{Quiz, Entry, ok}
use intellect_battle.Units.Load.{unit_deque_init}
use intellect_battle.Units.Listing.{listing}
use intellect_battle.Units.Deque.{IsFresh}
use intellect_battle.Units.Closing.{IsRing}
use intellect_battle.Units.Refinement.{unit_deque_init-IsRing}

-- The other addresses of the deque.
abbrev addresses : (ℕ → Ptr) → (n from : ℕ) → List Ptr
addresses calloc zero from = []
addresses calloc (suc n) from = calloc from ∷ addresses calloc n (suc from)

length-addresses : (calloc : ℕ → Ptr) (n from : ℕ) → length (addresses calloc n from) ≡ n
length-addresses calloc zero from = refl
length-addresses calloc (suc n) from = ap suc (length-addresses calloc n (suc from))

module _ (calloc : ℕ → Ptr) (h : Heap) (new : IsFresh calloc h) where
  addresses-others :
      (n from k : ℕ)
      → (k < from) ⊎ (from + n ≤ k)
      → All (λ z. z ≢ calloc k) (addresses calloc n from)
  addresses-others zero from k out = tt
  addresses-others (suc n) from k out = (
    new.apart from k (omega (arith, out)),
    addresses-others n (suc from) k
        (elim out [ inl low ↦ inl (omega arith) | inr high ↦ inr (omega arith) ]),
  )

  addresses-Apart :
      (n from k : ℕ) → (k < from) ⊎ (from + n ≤ k) → Apart (calloc k) (addresses calloc n from)
  addresses-Apart zero from k out = tt
  addresses-Apart (suc n) from k out =
      (addresses-others (suc n) from k out, addresses-Apart n (suc from) from (inl (omega arith)))

  among-addresses :
      (a : Ptr) (n from : ℕ)
      → ((among a (addresses calloc n from) ≡ true)
          × ((k : ℕ) × (from ≤ k) × (k < from + n) × (a ≡ calloc k)))
        ⊎ ((among a (addresses calloc n from) ≡ false)
            × ((k : ℕ) → from ≤ k → k < from + n → a ≢ calloc k))
  unfolding among
  among-addresses a zero from = inr (refl, λ k low high. absurd (omega arith))
  among-addresses a (suc n) from = elim (ℕ_discrete a (calloc from)) [
    | yes e ↦
        let here : (a == calloc from) ≡ true = ground (arith, e) in
        inl (rw here refl, (from, omega arith, omega arith, e))
    | no ne ↦
        let other : (a == calloc from) ≡ false = ground (arith, ne) in
        elim (among-addresses a n (suc from)) [
          | inl (found, (k, low, high, e)) ↦ inl (rw other found, (k, omega arith, omega arith, e))
          | inr (missing, none_is) ↦ inr (
            rw other missing,
            λ k low high. elim (ℕ_discrete k from) [
              | yes first ↦ rw first ne
              | no later ↦ none_is k (omega arith) (omega arith)
            ],
          )
        ]
  ]

module _ (calloc : ℕ → Ptr) (h heap : Heap) (new : IsFresh calloc h) (qs : List Quiz) (m : ℕ)
    (many : length qs ≡ suc m) (ring : IsRing calloc h qs m heap) where
  inner-Next : (k : ℕ) → k < m → Next heap (calloc k) (calloc (suc k))
  inner-Next k lt =
      let (u, at, _, next, _) = ring.nodes k (omega (arith, many)) in
      let inner : (k == m) ≡ false = ground arith in
      (u, at, next ∙ rw inner (ap calloc (omega arith)))

  last-Next : Next heap (calloc m) (calloc 0)
  last-Next =
      let (u, at, _, next, _) = ring.nodes m (omega (arith, many)) in
      let last : (m == m) ≡ true = ground arith in (u, at, next ∙ rw last refl)

  Linked-from :
      (n from : ℕ) (x : Ptr)
      → from + n ≡ m
      → Next heap x (calloc from)
      → Linked heap x (addresses calloc n from) (calloc m)
  Linked-from zero from x e next = subst (λ (k : ℕ). Next heap x (calloc k)) (omega arith) next
  Linked-from (suc n) from x e next = (
    next,
    new.real from,
    Linked-from n (suc from) (calloc from) (omega arith) (inner-Next from (omega arith)),
  )

  deque-Ring : Rings.Ring heap (calloc m) (addresses calloc m 0)
  deque-Ring = (
    Linked-from m 0 (calloc m) (omega arith) last-Next,
    addresses-Apart calloc h new m 0 m (inr (omega arith)),
    new.real m,
  )

  -- Without the nodes of the deque the heap is what it was.
  emptied_lem :
      (a : Ptr) → (if among a (calloc m ∷ addresses calloc m 0) then none else heap a) ≡ h a
  unfolding among
  emptied_lem a = elim (ℕ_discrete a (calloc m)) [
    | yes e ↦
        let here : (a == calloc m) ≡ true = ground (arith, e) in
        rw here (sym (ap h e ∙ new.unused m))
    | no ne ↦
        let other : (a == calloc m) ≡ false = ground (arith, ne) in
        elim (among-addresses calloc h new a m 0) [
          | inl (found, (k, low, high, e)) ↦ rw (other, found) (sym (ap h e ∙ new.unused k))
          | inr (missing, none_is) ↦
              rw (other, missing)
                (ring.others a (λ k lt. elim (ℕ_discrete k m) [
                  | yes last ↦ rw last ne
                  | no before ↦ none_is k (omega arith) (omega (arith, many))
                ]))
        ]
  ]

-- If `calloc` returns fresh addresses, and the files of the directory, read without undefined
-- behaviour, list at least one unit, whatever else they hold, then `unit_deque_free` on the deque that
-- `unit_deque_init` returns ends with 0 and leaves the heap as it was before the deque was loaded:
-- nothing is lost, and nothing else is freed.
pub deque-freed :
    (calloc : ℕ → Ptr) (fresh : Mem → Mem) (input : Mem) (entries : List Entry) (h : Heap)
    (qs : List Quiz) (m : ℕ)
    → IsFresh calloc h
    → listing fresh input entries ≡ ok qs
    → length qs ≡ suc m
    → (p : Ptr) × (heap : Heap) × (unit_deque_init calloc fresh input (some entries) h
        ≡ ok (p, heap))
      × (unit_deque_free (suc m) heap p ≡ some (pos 0, h))
deque-freed calloc fresh input entries h qs m new lists many =
    let (heap, loads, ring) =
      unit_deque_init-IsRing calloc fresh input entries h qs m new lists many in
    let ((code, h'), e, (zero_code, emptied)) = result (
      unit_deque_free-frees (suc m) heap (calloc m) (addresses calloc m 0)
        (omega (arith, length-addresses calloc m 0))
        (deque-Ring calloc h heap new qs m many ring)) in
    (
      calloc m,
      heap,
      loads,
      e
          ∙ ap some (λ i. (
            zero_code i,
            fun_ext (λ a. emptied a ∙ emptied_lem calloc h heap new qs m many ring a) i,
          )),
    )
