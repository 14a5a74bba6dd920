-- ===== src/Units/Load.antt =====
-- `unit_deque_init` of src/unit.c on the heap of units. `calloc` is a function: its k-th call returns
-- the address `calloc k`, or null.
use intellect_battle.Prelude.{
  ℕ, ◌+◌, Bool, Option, none, some, List, [], ◌==◌, if◌then◌else◌, ◌>>=◌,
}
use intellect_battle.Memory.{Mem, strncpy}
use intellect_battle.Packet.{q_len, a_len}
use intellect_battle.Units.{Heap, Ptr, UnitNode, null}
use intellect_battle.Units.Free.{update, free, set_next, unit_deque_free}
use intellect_battle.Units.Parse.{
  Quiz, Entry, Loading, ok, undefined, null_returned, ◌>=>◌, is_loaded, read_entries,
}

-- `calloc(sizeof(unit_t), 1)`: a node of zeros.
unfoldable pub blank : UnitNode
unfolding strncpy
blank = record {
  quest = strncpy q_len [];
  ans = λ i. strncpy a_len [];
  rans = 0;
  next = null;
  prev = null;
}

-- `p->prev = q`
unfoldable pub set_prev : Heap → Ptr → Ptr → Option Heap
unfolding update
set_prev h p q = h p >>= λ u. some (update h p (some (record u { prev = q })))

-- The variables `first`, `next`, `last` (`none`: not yet set) and `loaded`, with the heap.
pub record Deque : Type 0 where
  pub heap : Heap
  pub first : Ptr
  pub next : Ptr
  pub last : Option Ptr
  pub loaded : ℕ

-- The node with the texts and the number of a unit that was read.
unfoldable pub fill : Quiz → UnitNode → UnitNode
fill q u = record u { quest = q.quest; ans = q.ans; rans = q.rans }

-- Lines 97 and 98.
unfoldable pub link : Heap → (last next : Ptr) → Option Heap
unfolding set_next set_prev
link h last next = set_next h last next >>= λ h. set_prev h next last

-- Lines 90 to 98: the node `next` is kept, and a new one follows it.
unfoldable pub append : (ℕ → Ptr) → Deque → Loading Heap Deque
append calloc d =
    let new = calloc (d.loaded + 1) in
    if new == null
    then elim (unit_deque_free (d.loaded + 1) d.heap d.next) [
      | none ↦ undefined
      | some (_, h) ↦ null_returned h
    ]
    else elim (link (update d.heap new (some blank)) d.next new) [
      | none ↦ undefined
      | some h ↦ ok (record {
        heap = h;
        first = d.first;
        next = new;
        last = some d.next;
        loaded = d.loaded + 1;
      })
    ]

-- What lines 66, 77 and 86 have written to the node `next`, and then lines 88 to 100.
unfoldable pub keep_unit : (ℕ → Ptr) → Deque → Quiz → Bool → Loading Heap Deque
keep_unit calloc d q error_flag = elim (d.heap d.next) [
  | none ↦ undefined
  | some u ↦
      let filled = record d { heap = update d.heap d.next (some (fill q u)) } in
      if is_loaded q error_flag then append calloc filled else ok filled
]

-- Lines 111 to 117, and the return: `free(next)`, and the list is closed to a ring.
unfoldable pub close_ring : Deque → Loading Heap (Ptr × Heap)
close_ring d = elim (free d.heap d.next) [
  | none ↦ undefined
  | some h ↦ elim d.last [
    | none ↦ undefined
    | some last ↦ elim (set_next h last d.first >>= λ h. set_prev h d.first last) [
      | none ↦ undefined
      | some h ↦ ok (last, h)
    ]
  ]
]

-- The deque after line 22.
unfoldable pub started : Ptr → Heap → Deque
unfolding update blank
started new h = record {
  heap = update h new (some blank);
  first = new;
  next = new;
  last = none;
  loaded = 0;
}

-- `unit_deque_init`: the pointer that it returns and the heap. `directory` is `none` if it cannot be
-- opened; then `last` is returned, which was never set.
unfoldable pub unit_deque_init :
    (calloc : ℕ → Ptr) (fresh : Mem → Mem) (input : Mem) (directory : Option (List Entry))
    → Heap
    → Loading Heap (Ptr × Heap)
unit_deque_init calloc fresh input directory h =
    if calloc 0 == null then null_returned h else elim directory [
      | none ↦ undefined
      | some entries ↦
          read_entries (keep_unit calloc) fresh entries input (started (calloc 0) h) >=> λ d.
          close_ring d
    ]
