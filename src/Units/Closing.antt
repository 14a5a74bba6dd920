-- ===== src/Units/Closing.antt =====
-- `unit_deque_init` (src/unit.c) closes the list of the units to a ring.
use intellect_battle.Prelude.{
  ℕ, zero, suc, ◌+◌, ◌-◌, ◌<◌, ◌≡◌, ◌≢◌, refl, ap, sym, subst, ◌∙◌, inl, inr, false, true, none,
  some, List, ◌==◌, if◌then◌else◌, length, get_elem?, arith,
}
use native.Mathlib.Decide.{dec_lt, ℕ_discrete}
use intellect_battle.Units.{Heap, Ptr, UnitNode}
use intellect_battle.Units.Free.{update, free, set_next, update-other, update_self}
use intellect_battle.Units.Parse.{Quiz, ok}
use intellect_battle.Units.Load.{Deque, set_prev, close_ring}
use intellect_battle.Units.Deque.{quiz_of, Back, IsFresh, Built}

-- The k-th node of the ring whose last is number `m`: its unit, and its neighbours.
abbrev pub Sits : (ℕ → Ptr) → Heap → List Quiz → ℕ → ℕ → Type 0
Sits calloc heap qs m k =
    (u : UnitNode) × (heap (calloc k) ≡ some u)
    × (get_elem? qs k ≡ some (quiz_of u))
    × (u.next ≡ calloc (if k == m then 0 else k + 1))
    × (u.prev ≡ calloc (if k == 0 then m else k - 1))

-- The units stand in a closed ring of nodes, in their order, and the rest of the heap is as before.
pub record IsRing (calloc : ℕ → Ptr) (h : Heap) (qs : List Quiz) (m : ℕ) (heap : Heap)
    : Type 0 where
  pub nodes : (k : ℕ) → k < length qs → Sits calloc heap qs m k
  pub others : (p : Ptr) → ((k : ℕ) → k < length qs → p ≢ calloc k) → heap p ≡ h p

-- The same node, before `first` points back.
abbrev Half : (ℕ → Ptr) → Heap → List Quiz → ℕ → ℕ → Type 0
Half calloc heap qs m k =
    (u : UnitNode) × (heap (calloc k) ≡ some u)
    × (get_elem? qs k ≡ some (quiz_of u))
    × (u.next ≡ calloc (if k == m then 0 else k + 1))
    × Back calloc k u

close_ring_lem :
    (heap : Heap) (first next last : Ptr) (loaded : ℕ) (spare u v : UnitNode)
    → heap next ≡ some spare
    → update heap next none last ≡ some u
    → update (update heap next none) last (some (record u { next = first })) first ≡ some v
    → close_ring
        (record { heap = heap; first = first; next = next; last = some last; loaded = loaded })
      ≡ ok (
        last,
        update
            (update (update heap next none) last (some (record u { next = first })))
            first
            (some (record v { prev = last })),
      )
unfolding close_ring free set_next set_prev
close_ring_lem heap first next last loaded spare u v at_spare at_u at_v =
    rw (at_spare, close_ring) (rw at_u (rw at_v refl))

module _ (calloc : ℕ → Ptr) (h : Heap) (fresh : IsFresh calloc h) (d : Deque) (qs : List Quiz)
    (m : ℕ) (many : length qs ≡ suc m) (b : Built calloc h d qs) where
  abbrev freed : Heap
  freed = update d.heap (calloc (suc m)) none

  abbrev turned : UnitNode → Heap
  turned u = update freed (calloc m) (some (record u { next = calloc 0 }))

  freed-node : (k : ℕ) → k < suc m → freed (calloc k) ≡ d.heap (calloc k)
  freed-node k lt =
      update-other d.heap (calloc (suc m)) (calloc k) none (fresh.apart k (suc m) (omega arith))

  turned-Half :
      (u : UnitNode)
      → get_elem? qs m ≡ some (quiz_of u)
      → Back calloc m u
      → (k : ℕ) → k < suc m
      → Half calloc (turned u) qs m k
  turned-Half u holds back k lt = elim (dec_lt k m) [
    | yes before ↦
        let (v, at, holds', next, back') = b.nodes k (omega arith) in
        let inner : (k == m) ≡ false = ground arith in
        (
          v,
          update-other freed (calloc m) (calloc k) (some (record u { next = calloc 0 }))
                (fresh.apart k m (omega arith))
              ∙ freed-node k lt
              ∙ at,
          holds',
          next ∙ rw inner refl,
          back',
        )
    | no past ↦
        let here : m ≡ k = omega arith in
        let closes : (m == m) ≡ true = ground arith in
        subst (Half calloc (turned u) qs m) here (
          record u { next = calloc 0 },
          update_self freed (calloc m) (some (record u { next = calloc 0 })),
          holds,
          rw closes refl,
          back,
        )
  ]

  abbrev closed : UnitNode → UnitNode → Heap
  closed u v = update (turned u) (calloc 0) (some (record v { prev = calloc m }))

  closed-Sits :
      (u v : UnitNode)
      → get_elem? qs m ≡ some (quiz_of u)
      → Back calloc m u
      → turned u (calloc 0) ≡ some v
      → get_elem? qs 0 ≡ some (quiz_of v)
      → v.next ≡ calloc (if 0 == m then 0 else 1)
      → (k : ℕ) → k < suc m
      → Sits calloc (closed u v) qs m k
  closed-Sits u v holds back at first next zero lt = (
    record v { prev = calloc m },
    update_self (turned u) (calloc 0) (some (record v { prev = calloc m })),
    first,
    next ∙ ap calloc (ground arith),
    refl,
  )
  closed-Sits u v holds back at first next (suc k) lt =
      let (w, at_w, holds', next', back') = turned-Half u holds back (suc k) lt in
      (
        w,
        update-other (turned u) (calloc 0) (calloc (suc k)) (some (record v { prev = calloc m }))
              (fresh.apart (suc k) 0 (omega arith))
            ∙ at_w,
        holds',
        next',
        elim back' [ inl z ↦ absurd (omega arith) | inr p ↦ p ∙ ap calloc (ground arith) ],
      )

  closed-other :
      (u v : UnitNode) (p : Ptr) → ((k : ℕ) → k < length qs → p ≢ calloc k) → closed u v p ≡ h p
  closed-other u v p new =
      update-other (turned u) (calloc 0) p (some (record v { prev = calloc m }))
        (new 0 (omega (arith, many)))
      ∙ update-other freed (calloc m) p (some (record u { next = calloc 0 }))
          (new m (omega (arith, many)))
      ∙ elim (ℕ_discrete p (calloc (suc m))) [
        | yes e ↦ rw e (update_self d.heap (calloc (suc m)) none ∙ sym (fresh.unused (suc m)))
        | no ne ↦
            update-other d.heap (calloc (suc m)) p none ne
            ∙ b.others p (λ k le. elim (dec_lt k (length qs)) [
              | yes lt ↦ new k lt
              | no past ↦ let last : k ≡ suc m = omega (arith, many) in λ e. ne (e ∙ ap calloc last)
            ])
      ]

  pub close_ring-IsRing :
      (heap : Heap) × (close_ring d ≡ ok (calloc m, heap)) × IsRing calloc h qs m heap
  close_ring-IsRing =
      let ends : d.next ≡ calloc (suc m) = b.ends ∙ ap calloc many in
      let some_units : (length qs == 0) ≡ false = ground (arith, many) in
      let last : d.last ≡ some (calloc m) =
        b.last_is
        ∙ rw some_units (
            ap (λ (n : ℕ). some (calloc (n - 1))) many
            ∙ ap (λ (n : ℕ). some (calloc n)) (omega arith)) in
      let (spare, at_spare, _) = b.spare in
      let spare_at : d.heap (calloc (suc m)) ≡ some spare =
        ap (λ (n : ℕ). d.heap (calloc n)) (sym many) ∙ at_spare in
      let (u, at_u, holds, next, back) = b.nodes m (omega (arith, many)) in
      let u_at : freed (calloc m) ≡ some u = freed-node m (omega arith) ∙ at_u in
      let (v, at_v, first, v_next, v_back) = turned-Half u holds back 0 (omega arith) in
      (
        closed u v,
        ap close_ring (λ i. record {
          heap = d.heap;
          first = b.starts i;
          next = ends i;
          last = last i;
          loaded = d.loaded;
        })
            ∙ close_ring_lem d.heap (calloc 0) (calloc (suc m)) (calloc m) d.loaded spare u v
                spare_at u_at at_v,
        record {
          nodes = λ k lt. closed-Sits u v holds back at_v first v_next k (omega (arith, many));
          others = closed-other u v;
        },
      )
