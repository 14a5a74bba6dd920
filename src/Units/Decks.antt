-- ===== src/Units/Decks.antt =====
-- A directory of files that were written from units: `unit_deque_init` (src/unit.c) loads exactly
-- these units.
use intellect_battle.Prelude.{
  ℕ, suc, ◌+◌, ◌≤◌, ◌≡◌, refl, ◌∙◌, true, false, some, List, [], ◌∷◌, ◌++◌, map, length,
  length-append, All, arith, ltb-eq-false, ltb,
}
use mathlib.Core.List.{append_assoc, append-nil}
use intellect_battle.Memory.{Mem}
use intellect_battle.Units.{Heap, Ptr}
use intellect_battle.Units.Parse.{Quiz, Entry, ok, read_entries, is_units}
use intellect_battle.Units.Load.{unit_deque_init}
use intellect_battle.Units.Listing.{collect, listing}
use intellect_battle.Units.Deque.{IsFresh}
use intellect_battle.Units.Closing.{IsRing}
use intellect_battle.Units.Refinement.{unit_deque_init-IsRing}
use intellect_battle.Units.Cards.{Card, IsCard, quiz, print_card}
use intellect_battle.Units.RoundTrip.{print, read_units-print}

-- A file with at least one unit.
pub record Deck : Type 0 where
  pub name : List ℕ
  pub first : Card
  pub others : List Card

pub record IsDeck (d : Deck) : Type 0 where
  pub named : is_units d.name ≡ true
  pub short : length d.name ≤ 246
  pub first : IsCard d.first
  pub others : All IsCard d.others

abbrev pub entry_of : Deck → Entry
entry_of d = record { name = d.name; content = some (print (d.first ∷ d.others)) }

-- The units of all files, in their order.
abbrev pub units_of : List Deck → List Quiz
units_of [] = []
units_of (d ∷ ds) = map quiz (d.first ∷ d.others) ++ units_of ds

pub print_card-longer : (k : Card) (more : List ℕ) → length more + 1 ≤ length (print_card k more)
unfolding print_card
print_card-longer k more = omega (arith, length-append {0})

length-le-print : (ks : List Card) (k : Card) → length ks ≤ length (print (k ∷ ks))
unfolding print
length-le-print [] k = omega arith
length-le-print (l ∷ ks) k =
    omega (arith, print_card-longer k (10 ∷ print (l ∷ ks)), length-le-print ks l)

module _ (fresh : Mem → Mem) where
  read_entries-print :
      (ds : List Deck) (input : Mem) (qs : List Quiz)
      → All IsDeck ds
      → read_entries collect fresh (map entry_of ds) input qs ≡ ok (qs ++ units_of ds)
  unfolding read_entries
  read_entries-print [] input qs proper = rw append-nil refl
  read_entries-print (d ∷ ds) input qs (deck, proper) =
      let content = print (d.first ∷ d.others) in
      let short : ltb 246 (length d.name) ≡ false = ltb-eq-false 246 (length d.name) deck.short in
      let (input', reads) =
        read_units-print fresh d.others d.first (length content + 2) input qs deck.first deck.others
          (omega (arith, length-le-print d.others d.first)) in
      rw (deck.named, short, reads)
        (read_entries-print ds input' (qs ++ map quiz (d.first ∷ d.others)) proper
          ∙ rw append_assoc refl)

  pub listing-print :
      (ds : List Deck) (input : Mem)
      → All IsDeck ds
      → listing fresh input (map entry_of ds) ≡ ok (units_of ds)
  unfolding listing
  listing-print ds input proper = read_entries-print ds input [] proper

-- The directory holds files, at least one, each with at least one unit, that were written from
-- proper units by `print`, which ends no file with a newline, and `calloc` returns fresh addresses:
-- then `unit_deque_init` returns the last node
-- of a closed ring that holds exactly these units in their order, each text NUL-padded in its array,
-- and leaves the rest of the heap alone.
pub unit_deque_init-print :
    (calloc : ℕ → Ptr) (fresh : Mem → Mem) (input : Mem) (d : Deck) (ds : List Deck) (h : Heap)
    → IsFresh calloc h
    → IsDeck d
    → All IsDeck ds
    → (m : ℕ) × (heap : Heap) × (unit_deque_init calloc fresh input (some (map entry_of (d ∷ ds))) h
        ≡ ok (calloc m, heap))
      × (length (units_of (d ∷ ds)) ≡ suc m)
      × IsRing calloc h (units_of (d ∷ ds)) m heap
unit_deque_init-print calloc fresh input d ds h new deck decks =
    let m = length (map quiz d.others ++ units_of ds) in
    let (heap, loads, ring) =
      unit_deque_init-IsRing calloc fresh input (map entry_of (d ∷ ds)) h (units_of (d ∷ ds)) m new
        (listing-print fresh (d ∷ ds) input (deck, decks)) refl in
    (m, heap, loads, refl, ring)
