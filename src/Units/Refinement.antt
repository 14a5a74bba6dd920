-- ===== src/Units/Refinement.antt =====
-- `unit_deque_init` (src/unit.c) against the list of the units in the files.
use intellect_battle.Prelude.{
  ℕ, suc, ◌≡◌, refl, inl, inr, false, none, some, List, [], ◌==◌, length, arith, Option-cases,
}
use intellect_battle.Memory.{Mem}
use intellect_battle.Units.{Heap, Ptr, null}
use intellect_battle.Units.Free.{free}
use intellect_battle.Units.Parse.{Quiz, Entry, ok, undefined, read_entries}
use intellect_battle.Units.Load.{Deque, keep_unit, close_ring, started, unit_deque_init}
use intellect_battle.Units.Listing.{collect, listing}
use intellect_battle.Units.Alike.{Alike, read_entries-Alike, Alike-ok, Alike-undefined}
use intellect_battle.Units.Deque.{IsFresh, Built, started-Built, keep_unit-Built}
use intellect_battle.Units.Closing.{IsRing, close_ring-IsRing}

close_ring-empty : (d : Deque) → d.last ≡ none → close_ring d ≡ undefined
unfolding close_ring
close_ring-empty d unset = elim (Option-cases (free d.heap d.next)) [
  | inl e ↦ rw (e, close_ring) refl
  | inr (h, e) ↦ rw (e, close_ring) (rw unset refl)
]

module _ (calloc : ℕ → Ptr) (clean : Mem → Mem) (input : Mem) (entries : List Entry) (h : Heap)
    (fresh : IsFresh calloc h) where
  -- The loader goes through the files as the listing does.
  loads_as_listed :
      Alike
        (Built calloc h)
        (read_entries (keep_unit calloc) clean entries input (started (calloc 0) h))
        (listing clean input entries)
  unfolding listing
  loads_as_listed =
      read_entries-Alike (Built calloc h) (keep_unit calloc) collect clean
        (λ d qs q before after reads. keep_unit-Built calloc h fresh d qs q after.error_flag)
        entries input (started (calloc 0) h) [] (started-Built calloc h fresh)

  first_real : (calloc 0 == null) ≡ false
  first_real = ground (arith, fresh.real 0)

  pub unit_deque_init-undefined :
      listing clean input entries ≡ undefined
      → unit_deque_init calloc clean input (some entries) h ≡ undefined
  unfolding unit_deque_init
  unit_deque_init-undefined lists = rw (first_real, Alike-undefined loads_as_listed lists) refl

  -- If `calloc` returns fresh addresses and the directory lists no unit, `last` is never set, and line 116
  -- writes through it.
  pub unit_deque_init-empty :
      listing clean input entries ≡ ok []
      → unit_deque_init calloc clean input (some entries) h ≡ undefined
  unfolding unit_deque_init
  unit_deque_init-empty lists =
      let (d, loads, b) = Alike-ok loads_as_listed lists in
      rw (first_real, loads) (close_ring-empty d b.last_is)

-- If `calloc` returns fresh addresses, and the files of the directory, read without undefined
-- behaviour, list at least one unit, then `unit_deque_init` returns the node of the last unit of a
-- closed ring that holds exactly the listed units in their order, linked both ways, and it leaves the rest
-- of the heap alone.
pub unit_deque_init-IsRing :
    (calloc : ℕ → Ptr) (clean : Mem → Mem) (input : Mem) (entries : List Entry) (h : Heap)
    (qs : List Quiz) (m : ℕ)
    → IsFresh calloc h
    → listing clean input entries ≡ ok qs
    → length qs ≡ suc m
    → (heap : Heap) × (unit_deque_init calloc clean input (some entries) h ≡ ok (calloc m, heap))
      × IsRing calloc h qs m heap
unfolding unit_deque_init
unit_deque_init-IsRing calloc clean input entries h qs m fresh lists many =
    let (d, loads, b) = Alike-ok (loads_as_listed calloc clean input entries h fresh) lists in
    let (heap, closes, ring) = close_ring-IsRing calloc h fresh d qs m many b in
    (heap, rw (first_real calloc clean input entries h fresh, loads) closes, ring)
