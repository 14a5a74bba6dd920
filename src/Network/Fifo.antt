-- ===== src/Network/Fifo.antt =====
-- A queue as a list, the oldest message first: the interface of the kernel can be filled.
use intellect_battle.Prelude.{
  ℕ, zero, suc, ◌≡◌, refl, ap, sym, subst, ◌⊎◌, inl, inr, true, Option, none, some, List, [], ◌∷◌,
  ◌++◌, ℤ, pos, negsuc, eqb_ℤ, leb_ℤ, Bool-cases, Option-cases, Yields, yields, fails, Yields_at,
  Yields-or_else, Yields-mono, or_else, if◌then◌else◌, arith,
}
use mathlib.Core.Option.{some-injective}
use intellect_battle.Network.Queue.{Message, type_of, Selects, Kernel}

abbrev pub Waits : List Message → Message → Type 0
Waits [] m = ⊥
Waits (x ∷ q) m = (m ≡ x) ⊎ Waits q m

-- The oldest message of a type.
abbrev oldest : ℤ → List Message → Option (Message × List Message)
oldest t [] = none
oldest t (x ∷ q) =
    let later = oldest t q in
    if eqb_ℤ (type_of x) t
    then some (x, q)
    else elim later [ none ↦ none | some (m, q') ↦ some (m, x ∷ q') ]

-- The oldest message of the lowest type from 1 to `n`.
abbrev lowest : (n : ℕ) → List Message → Option (Message × List Message)
lowest zero q = none
lowest (suc n) q = or_else (lowest n q) (oldest (pos (suc n)) q)

abbrev pub take_message : List Message → ℤ → Option (Message × List Message)
take_message [] (pos zero) = none
take_message (x ∷ q) (pos zero) = some (x, q)
take_message q (pos (suc n)) = oldest (pos (suc n)) q
take_message q (negsuc n) = lowest (suc n) q

-- A message that was taken from `q`, of a type that satisfies `P`.
record Taken (q : List Message) (P : ℤ → Type 0) (r : Message × List Message) : Type 0 where
  waited : Waits q r.0
  chosen : P (type_of r.0)
  rest : (other : Message) → Waits r.1 other → Waits q other

oldest-Taken : (t : ℤ) (q : List Message) → Yields (Taken q (λ k. eqb_ℤ k t ≡ true)) (oldest t q)
oldest-Taken t [] = fails
oldest-Taken t (x ∷ q) = elim (Bool-cases (eqb_ℤ (type_of x) t)) [
  | inl is ↦ rw is (yields (record { waited = inl refl; chosen = is; rest = λ other w. inr w }))
  | inr other ↦ elim (Option-cases (oldest t q)) [
    | inl nothing ↦ rw (other, nothing) fails
    | inr ((m, q'), found) ↦
        let taken = Yields_at (oldest-Taken t q) found in
        rw (other, found)
          (yields (record {
            waited = inr taken.waited;
            chosen = taken.chosen;
            rest = later q' taken.rest;
          }))
  ]
]
  where
    later :
        (q' : List Message)
        → ((other : Message) → Waits q' other → Waits q other)
        → (other : Message) → Waits (x ∷ q') other
        → Waits (x ∷ q) other
    later q' keep other (inl e) = inl e
    later q' keep other (inr w) = inr (keep other w)

same_type : (k : ℤ) (n : ℕ) → eqb_ℤ k (pos (suc n)) ≡ true → k ≡ pos (suc n)
same_type (pos j) n e = ap pos (ground arith)
same_type (negsuc j) n e = absurd (ground arith)

Taken-mono :
    {P R : ℤ → Type 0} (q : List Message)
    → ((k : ℤ) → P k → R k)
    → (r : Message × List Message) → Taken q P r
    → Taken q R r
Taken-mono q weaken r taken = record {
  waited = taken.waited;
  chosen = weaken (type_of r.0) taken.chosen;
  rest = taken.rest;
}

up_to : (k : ℤ) (n : ℕ) → leb_ℤ k (pos n) ≡ true → leb_ℤ k (pos (suc n)) ≡ true
up_to (pos j) n e = ground arith
up_to (negsuc j) n e = ground arith

at_most : (k : ℤ) (n : ℕ) → eqb_ℤ k (pos (suc n)) ≡ true → leb_ℤ k (pos (suc n)) ≡ true
at_most k n e = rw (same_type k n e) (ground arith)

lowest-Taken :
    (n : ℕ) (q : List Message) → Yields (Taken q (λ k. leb_ℤ k (pos n) ≡ true)) (lowest n q)
lowest-Taken zero q = fails
lowest-Taken (suc n) q =
    Yields-or_else (Yields-mono (lowest-Taken n q) (Taken-mono q (λ k. up_to k n)))
      (Yields-mono (oldest-Taken (pos (suc n)) q) (Taken-mono q (λ k. at_most k n)))

pub take_message-Taken :
    (q q' : List Message) (t : ℤ) (m : Message)
    → take_message q t ≡ some (m, q')
    → Waits q m × Selects t m × ((other : Message) → Waits q' other → Waits q other)
take_message-Taken [] q' (pos zero) m e = cc
take_message-Taken (x ∷ q) q' (pos zero) m e =
    let came = some-injective _ _ e in
    (
      inl (sym (ap (λ (r : Message × List Message). r.0) came)),
      tt,
      λ other w.
          inr (subst (λ l. Waits l other) (sym (ap (λ (r : Message × List Message). r.1) came)) w),
    )
take_message-Taken q q' (pos (suc n)) m e =
    let taken = Yields_at (oldest-Taken (pos (suc n)) q) e in
    (taken.waited, same_type (type_of m) n taken.chosen, taken.rest)
take_message-Taken q q' (negsuc n) m e =
    let taken = Yields_at (lowest-Taken (suc n) q) e in (taken.waited, taken.chosen, taken.rest)

pub snoc-Waits :
    (q : List Message) (m other : Message) → Waits (q ++ m ∷ []) other → (other ≡ m) ⊎ Waits q other
snoc-Waits [] m other (inl e) = inl e
snoc-Waits [] m other (inr w) = absurd w
snoc-Waits (x ∷ q) m other (inl e) = inr (inl e)
snoc-Waits (x ∷ q) m other (inr w) = elim (snoc-Waits q m other w) [
  | inl new ↦ inl new
  | inr old ↦ inr (inr old)
]

abbrev pub fifo : Kernel (List Message)
fifo = record {
  msgsnd = λ q m. q ++ m ∷ [];
  msgrcv = take_message;
  Holds = Waits;
  msgsnd-Holds = snoc-Waits;
  msgrcv-Holds = λ q q' t m e. (take_message-Taken q q' t m e).0;
  msgrcv-Selects = λ q q' t m e. (take_message-Taken q q' t m e).1;
  msgrcv-rest = λ q q' t m other e. (take_message-Taken q q' t m e).2 other;
}
