-- ===== src/Units/Free.antt =====
-- `unit_deque_free` of src/unit.c on the heap of units.
use intellect_battle.Prelude.{
  ◌≡◌, ◌≢◌, arith, ℕ, zero, suc, Option, none, some, ℤ, pos, negsuc, ◌==◌, if◌then◌else◌, ◌>>=◌,
}
use intellect_battle.Units.{Heap, Ptr, UnitNode, null}

-- The heap with another content at one address.
unfoldable pub update : Heap → Ptr → Option UnitNode → Heap
update h p v = λ q. if q == p then v else h q

-- `free`. To free what is not allocated has no defined result.
unfoldable pub free : Heap → Ptr → Option Heap
unfolding update
free h p = h p >>= λ u. some (update h p none)

-- `p->next = q`
unfoldable pub set_next : Heap → Ptr → Ptr → Option Heap
unfolding update
set_next h p q = h p >>= λ u. some (update h p (some (record u { next = q })))

-- The loop, and the `free` after it, from `tmp2` on, with fuel for the nodes. `none` stands for an
-- undefined result, and for too little fuel.
unfoldable pub free_from : ℕ → Heap → Ptr → Option Heap
unfolding free
free_from zero h tmp2 = none
free_from (suc fuel) h tmp2 = h tmp2 >>= λ u. free h tmp2 >>= λ h'.
    let rest = free_from fuel h' u.next in if u.next == null then some h' else rest

-- `unit_deque_free`: the result and the heap.
unfoldable pub unit_deque_free : ℕ → Heap → Ptr → Option (ℤ × Heap)
unfolding free set_next free_from
unit_deque_free fuel h point =
    if point == null
    then some (negsuc 1, h)
    else h point >>= λ u.
        (if u.next == null
          then (free h point >>= λ h'. some (negsuc 0, h'))
          else (set_next h point null >>= λ h'.
              free_from fuel h' u.next >>= λ h''. some (pos 0, h'')))

pub update-other : (h : Heap) (p q : Ptr) (v : Option UnitNode) → q ≢ p → update h p v q ≡ h q
unfolding update
update-other h p q v other = ground arith

pub update_self : (h : Heap) (p : Ptr) (v : Option UnitNode) → update h p v p ≡ v
unfolding update
update_self h p v = ground arith
