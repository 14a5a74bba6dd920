-- ===== src/Units.antt =====
-- Question units (include/unit.h, src/unit.c): a heap of `unit_t` nodes linked by `next`, `prev`.
-- The children have `unit_deque_init` and `unit_deque_free`.
pub mod Lines
pub mod Parse
pub mod Load
pub mod Listing
pub mod Alike
pub mod Linking
pub mod Deque
pub mod Closing
pub mod Refinement
pub mod Cards
pub mod RoundTrip
pub mod Decks
pub mod Proper
pub mod Trailing
pub mod Fuel
pub mod Free
pub mod Rings
pub mod FileTests
use intellect_battle.Prelude.{ℕ, zero, suc, Option, some, List, ◌>>=◌}

abbrev pub Ptr : Type 0
Ptr = ℕ

abbrev pub null : Ptr
null = 0

-- `struct unit`. Each text is the content of its char array.
pub record UnitNode : Type 0 where
  pub quest : List ℕ
  pub ans : ℕ → List ℕ
  pub rans : ℕ
  pub next : Ptr
  pub prev : Ptr

-- Allocated nodes by address; `null` and freed addresses hold `none`.
abbrev pub Heap : Type 0
Heap = Ptr → Option UnitNode

-- `for (it = 0; it < step; ++it) cur_unit = cur_unit->next;` A read through an address that holds
-- no node has no defined result.
unfoldable pub walk : Heap → ℕ → Ptr → Option Ptr
walk h zero p = some p
walk h (suc n) p = h p >>= λ u. walk h n u.next
