-- ===== src/Units/FileTests.antt =====
-- `unit_deque_init` on concrete files.
use intellect_battle.Prelude.{
  ℕ, suc, ◌+◌, ◌≡◌, refl, true, false, none, some, List, [], ◌∷◌, map, length, arith,
}
use intellect_battle.Memory.{Mem}
use intellect_battle.Units.{Heap, Ptr}
use intellect_battle.Units.Parse.{Entry, ok, undefined, is_units, read_entries}
use intellect_battle.Units.Load.{unit_deque_init}
use intellect_battle.Units.Listing.{listing}
use intellect_battle.Units.Fuel.{Ends, unit_deque_init-Ends}
use intellect_battle.Units.Deque.{IsFresh}
use intellect_battle.Units.Closing.{IsRing}
use intellect_battle.Units.Refinement.{unit_deque_init-IsRing}
use intellect_battle.Units.Cards.{Card, IsCard}
use intellect_battle.Units.RoundTrip.{print}
use intellect_battle.Units.Decks.{
  Deck, IsDeck, entry_of, units_of, listing-print, unit_deque_init-print,
}
use intellect_battle.Units.Trailing.{print_closed, kept, trailing_newline-undefined}

abbrev pub units_file : List ℕ
units_file = b'q' ∷ b'.' ∷ b'u' ∷ b'n' ∷ b'i' ∷ b't' ∷ b's' ∷ []

has_suffix : is_units units_file ≡ true
unfolding is_units
has_suffix = refl

other_suffix : is_units (b'q' ∷ b'.' ∷ b't' ∷ b'x' ∷ b't' ∷ []) ≡ false
unfolding is_units
other_suffix = refl

-- What does not happen by the sea?
abbrev pub sea : Card
sea = record {
  quest = b'S' ∷ b'e' ∷ b'a' ∷ b'?' ∷ [];
  a = b'R' ∷ [];
  b = b'S' ∷ [];
  c = [];
  d = b'F' ∷ [];
  right = 2;
}

pub sea-IsCard : IsCard sea
sea-IsCard = omega arith

-- One unit is six lines.
six_lines :
    print (sea ∷ [])
    ≡ b'S' ∷ b'e' ∷ b'a' ∷ b'?' ∷ 10 ∷ b'R' ∷ 10 ∷ b'S' ∷ 10 ∷ 10 ∷ b'F' ∷ 10 ∷ b'2' ∷ []
unfolding print
six_lines = refl

abbrev pub deck : Deck
deck = record { name = units_file; first = sea; others = sea ∷ [] }

pub deck-IsDeck : IsDeck deck
unfolding is_units
deck-IsDeck = record {
  named = refl;
  short = omega arith;
  first = sea-IsCard;
  others = (sea-IsCard, tt);
}

abbrev pub nothing : Heap
nothing p = none

-- `calloc` counts up from 1.
abbrev pub counter : ℕ → Ptr
counter k = k + 1

pub counter-IsFresh : IsFresh counter nothing
counter-IsFresh = record {
  real = λ k. omega arith;
  unused = λ k. refl;
  apart = λ j k ne e. ne (omega arith);
}

abbrev pub zeros : Mem
zeros i = 0

unit_deque_init-print_example :
    (m : ℕ) × (heap : Heap) × (unit_deque_init counter kept zeros
        (some (map entry_of (deck ∷ [])))
        nothing
      ≡ ok (counter m, heap))
    × (length (units_of (deck ∷ [])) ≡ suc m)
    × IsRing counter nothing (units_of (deck ∷ [])) m heap
unit_deque_init-print_example =
    unit_deque_init-print counter kept zeros deck [] nothing counter-IsFresh deck-IsDeck tt

unit_deque_init-IsRing_example :
    (heap : Heap) × (unit_deque_init counter kept zeros (some (map entry_of (deck ∷ []))) nothing
      ≡ ok (counter 1, heap))
    × IsRing counter nothing (units_of (deck ∷ [])) 1 heap
unit_deque_init-IsRing_example =
    unit_deque_init-IsRing counter kept zeros (map entry_of (deck ∷ [])) nothing
      (units_of (deck ∷ [])) 1 counter-IsFresh
      (listing-print kept (deck ∷ []) zeros (deck-IsDeck, tt)) refl

-- A directory with no file of units.
abbrev other_file : Entry
other_file = record { name = b'a' ∷ []; content = some [] }

nothing_listed : listing kept zeros (other_file ∷ []) ≡ ok []
unfolding listing read_entries is_units
nothing_listed = refl

unit_deque_init-Ends_example :
    Ends (unit_deque_init counter kept zeros (some (map entry_of (deck ∷ []))) nothing)
unit_deque_init-Ends_example =
    unit_deque_init-Ends counter kept zeros (some (map entry_of (deck ∷ []))) nothing

trailing_newline-undefined_example :
    unit_deque_init counter kept zeros
      (some
        (record { name = units_file; content = some (print_closed (sea ∷ [])) } ∷ other_file ∷ []))
      nothing
    ≡ undefined
trailing_newline-undefined_example =
    trailing_newline-undefined counter zeros units_file sea [] (other_file ∷ []) nothing
      counter-IsFresh has_suffix (omega arith) sea-IsCard tt
