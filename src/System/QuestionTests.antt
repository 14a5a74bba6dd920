-- ===== src/System/QuestionTests.antt =====
-- The server's questions on a concrete file.
use intellect_battle.Prelude.{◌≡◌, refl, some, [], ◌∷◌, map, pos}
use intellect_battle.Units.{Heap, Ptr}
use intellect_battle.Units.Free.{unit_deque_free}
use intellect_battle.Units.Parse.{ok}
use intellect_battle.Units.Load.{unit_deque_init}
use intellect_battle.Units.Decks.{entry_of, units_of, listing-print}
use intellect_battle.Units.Trailing.{kept}
use intellect_battle.Units.FileTests.{deck, deck-IsDeck, nothing, counter, counter-IsFresh, zeros}
use intellect_battle.System.Freeing.{deque-freed}

deque-freed_example :
    (p : Ptr) × (heap : Heap) × (unit_deque_init counter kept zeros
        (some (map entry_of (deck ∷ [])))
        nothing
      ≡ ok (p, heap))
    × (unit_deque_free 2 heap p ≡ some (pos 0, nothing))
deque-freed_example =
    deque-freed counter kept zeros (map entry_of (deck ∷ [])) nothing (units_of (deck ∷ [])) 1
      counter-IsFresh (listing-print kept (deck ∷ []) zeros (deck-IsDeck, tt)) refl
