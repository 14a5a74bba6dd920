-- ===== src/Units/Rings.antt =====
-- `unit_deque_free` (src/unit.c) gives back every node of a closed ring, and each one once.
use intellect_battle.Prelude.{
  Bool, ◌||◌, Returns, Returns-of_some, ℕ, zero, suc, ◌+◌, ◌<◌, ◌≡◌, ◌≢◌, refl, sym, ◌∙◌, false,
  Option, none, some, List, [], ◌∷◌, ◌++◌, pos, length, All, arith, ◌==◌, if◌then◌else◌,
}
use intellect_battle.Units.{Heap, Ptr, UnitNode, null}
use intellect_battle.Units.Free.{
  update-other, update_self, update, free, set_next, free_from, unit_deque_free,
}

-- A node that is allocated, with its successor.
abbrev pub Next : Heap → Ptr → Ptr → Type 0
Next h x y = (u : UnitNode) × (h x ≡ some u) × (u.next ≡ y)

-- The addresses `x ∷ xs` hold nodes, each linked to the one after it, and the last to `end`.
abbrev pub Linked : Heap → Ptr → List Ptr → Ptr → Type 0
Linked h x [] end = Next h x end
Linked h x (y ∷ ys) end = Next h x y × (y ≢ null) × Linked h y ys end

-- No address twice.
abbrev pub Apart : Ptr → List Ptr → Type 0
Apart x [] = Unit
Apart x (y ∷ ys) = All (λ z. z ≢ x) (y ∷ ys) × Apart y ys

-- The ring of the deque, from `x` on.
abbrev pub Ring : Heap → Ptr → List Ptr → Type 0
Ring h x xs = Linked h x xs x × Apart x xs × (x ≢ null)

-- The heap without these nodes.
unfoldable pub without : Heap → List Ptr → Heap
unfolding update
without h [] = h
without h (x ∷ xs) = without (update h x none) xs

-- A change elsewhere leaves the links.
Linked-update :
    (h : Heap) (p : Ptr) (v : Option UnitNode) (x : Ptr) (xs : List Ptr) (end : Ptr)
    → x ≢ p
    → All (λ z. z ≢ p) xs
    → Linked h x xs end
    → Linked (update h p v) x xs end
Linked-update h p v x [] end other rest (u, at, next) = (u, update-other h p x v other ∙ at, next)
Linked-update h p v x (y ∷ ys) end other (other', rest) ((u, at, next), full, more) = (
  (u, update-other h p x v other ∙ at, next),
  full,
  Linked-update h p v y ys end other' rest more,
)

-- The loop frees a line of nodes that ends with a null pointer.
free_from-line :
    (fuel : ℕ) (h : Heap) (x : Ptr) (xs : List Ptr)
    → length xs < fuel
    → Linked h x xs null
    → Apart x xs
    → free_from fuel h x ≡ some (without h (x ∷ xs))
unfolding free_from free without
free_from-line zero h x xs enough line apart = absurd (omega arith)
free_from-line (suc fuel) h x [] enough (u, at, next) apart = rw (at, next) refl
free_from-line (suc fuel) h x (y ∷ ys) enough ((u, at, next), full, more) ((other, others), apart) =
    let go =
      free_from-line fuel (update h x none) y ys (omega arith)
        (Linked-update h x none y ys null other others more) apart in
    let running : (y == null) ≡ false = ground (arith, full) in rw (at, next, running) go

-- Where the ring is opened at `p`, its other nodes are a line that ends at `p`.
opened :
    (h : Heap) (p : Ptr) (u : UnitNode) (x : Ptr) (xs : List Ptr)
    → h p ≡ some u
    → p ≢ null
    → x ≢ p
    → All (λ z. z ≢ p) xs
    → Linked h x xs p
    → Linked (update h p (some (record u { next = null }))) x (xs ++ p ∷ []) null
opened h p u x [] at real other rest (v, at', next) = (
  (v, update-other h p x (some (record u { next = null })) other ∙ at', next),
  real,
  (record u { next = null }, update_self h p (some (record u { next = null })), refl),
)
opened h p u x (y ∷ ys) at real other (other', rest) ((v, at', next), full, more) = (
  (v, update-other h p x (some (record u { next = null })) other ∙ at', next),
  full,
  opened h p u y ys at real other' rest more,
)

Apart-turn :
    (p x : Ptr) (xs : List Ptr) → x ≢ p → All (λ z. z ≢ p) xs → Apart x xs → Apart x (xs ++ p ∷ [])
Apart-turn p x [] other rest apart = (((λ e. other (sym e)), tt), tt)
Apart-turn p x (y ∷ ys) other (other', rest) ((here, more), apart) =
    ((here, All-snoc ys more (λ e. other (sym e))), Apart-turn p y ys other' rest apart)
  where
    All-snoc : (ys : List Ptr) → All (λ z. z ≢ x) ys → p ≢ x → All (λ z. z ≢ x) (ys ++ p ∷ [])
    All-snoc [] all new = (new, tt)
    All-snoc (z ∷ zs) (a, all) new = (a, All-snoc zs all new)

length-snoc : (xs : List Ptr) (p : Ptr) → length (xs ++ p ∷ []) ≡ length xs + 1
length-snoc [] p = omega arith
length-snoc (x ∷ xs) p = ground (arith, length-snoc xs p)

-- The heap that `unit_deque_free` leaves, from the point that it is given.
abbrev pub emptied : Heap → Ptr → UnitNode → List Ptr → Heap
emptied h p u xs = without (update h p (some (record u { next = null }))) (xs ++ p ∷ [])

unit_deque_free-Ring :
    (fuel : ℕ) (h : Heap) (p : Ptr) (xs : List Ptr)
    → length xs < fuel
    → Ring h p xs
    → (u : UnitNode) × (unit_deque_free fuel h p ≡ some (pos 0, emptied h p u xs))
unfolding unit_deque_free set_next
unit_deque_free-Ring fuel h p [] enough ((u, at, next), apart, real) =
    let h' = update h p (some (record u { next = null })) in
    let alone : (p == null) ≡ false = ground (arith, real) in
    let line =
      free_from-line fuel h' p [] enough
        (record u { next = null }, update_self h p (some (record u { next = null })), refl) tt in
    (u, rw (alone, at, next, alone, line) refl)
unit_deque_free-Ring fuel h p (x ∷ xs) enough
      (((u, at, next), full, more), ((other, others), apart), real) =
    let h' = update h p (some (record u { next = null })) in
    let here : (p == null) ≡ false = ground (arith, real) in
    let there : (x == null) ≡ false = ground (arith, full) in
    let line =
      free_from-line fuel h' x (xs ++ p ∷ []) (omega (arith, length-snoc xs p))
        (opened h p u x xs at real other others more) (Apart-turn p x xs other others apart) in
    (u, rw (here, at, next, there, line) refl)

unfoldable pub among : Ptr → List Ptr → Bool
among a [] = false
among a (x ∷ xs) = a == x || among a xs

without-at :
    (h : Heap) (xs : List Ptr) (a : Ptr) → without h xs a ≡ (if among a xs then none else h a)
unfolding without among update
without-at h [] a = refl
without-at h (x ∷ xs) a = ground (arith, without-at (update h x none) xs a)

among-snoc : (a p : Ptr) (xs : List Ptr) → among a (xs ++ p ∷ []) ≡ (a == p || among a xs)
unfolding among
among-snoc a p [] = refl
among-snoc a p (x ∷ xs) = ground (arith, among-snoc a p xs)

emptied-at :
    (h : Heap) (p : Ptr) (u : UnitNode) (xs : List Ptr) (a : Ptr)
    → emptied h p u xs a ≡ (if among a (p ∷ xs) then none else h a)
unfolding among update
emptied-at h p u xs a = ground (
  arith,
  without-at (update h p (some (record u { next = null }))) (xs ++ p ∷ []) a,
  among-snoc a p xs,
)

-- On a closed ring of one or more nodes at different addresses, `unit_deque_free` ends with 0 once the
-- fuel exceeds the number of the nodes behind the first. It reads no freed node and frees none
-- twice, every node of the ring is given back, and the rest of the heap is as before.
pub unit_deque_free-frees :
    (fuel : ℕ) (h : Heap) (p : Ptr) (xs : List Ptr)
    → length xs < fuel
    → Ring h p xs
    → Returns
        (λ (code, h').
          (code ≡ pos 0) × ((a : Ptr) → h' a ≡ (if among a (p ∷ xs) then none else h a)))
        (unit_deque_free fuel h p)
unit_deque_free-frees fuel h p xs enough ring =
    let (u, e) = unit_deque_free-Ring fuel h p xs enough ring in
    Returns-of_some _ e (refl, emptied-at h p u xs)
