-- ===== src/Prelude/Tests.antt =====
-- Boolean tests on the native numbers, the conditional, and chains of fallible steps.
use Prim.Native.Nat.{ℕ, ◌≤◌, ◌<◌, compare, Ordering}
use mathlib.Core.Path.{◌≡◌, refl, subst}
use mathlib.Core.Logic.{◌↔◌, ◌⊎◌, inl, inr}
use mathlib.Core.Bool.{Bool, true, false}
use mathlib.Core.Option.{Option, none, some, some-injective}
use native.Mathlib.Omega.{arith}

abbrev pub ltb : ℕ → ℕ → Bool
ltb a b = elim (compare a b) [ Ordering.lt ↦ true | _ ↦ false ]

abbrev pub leb : ℕ → ℕ → Bool
leb a b = elim (compare a b) [ Ordering.gt ↦ false | _ ↦ true ]

infix 50 ◌==◌
abbrev pub ◌==◌ : ℕ → ℕ → Bool
a == b = elim (compare a b) [ Ordering.eq ↦ true | _ ↦ false ]

infix 1 if◌then◌else◌
abbrev pub if◌then◌else◌ {ℓ} : {A : Type ℓ} → Bool → A → A → A
if true then x else y = x
if false then x else y = y

pub ltb→lt : (a b : ℕ) → ltb a b ≡ true → a < b
ltb→lt a b h = ground arith

pub lt→ltb : (a b : ℕ) → a < b → ltb a b ≡ true
lt→ltb a b h = ground arith

pub le→leb : (a b : ℕ) → a ≤ b → leb a b ≡ true
le→leb a b h = ground arith

pub ltb-eq-false : (a b : ℕ) → b ≤ a → ltb a b ≡ false
ltb-eq-false a b h = ground arith

pub ==_iff : (a b : ℕ) → ((a == b) ≡ true) ↔ (a ≡ b)
==_iff a b = ground arith

pub Bool-cases : (b : Bool) → (b ≡ true) ⊎ (b ≡ false)
Bool-cases true = inl refl
Bool-cases false = inr refl

pub Option-cases {ℓ} : {A : Type ℓ} (o : Option A) → (o ≡ none) ⊎ ((a : A) × (o ≡ some a))
Option-cases none = inl refl
Option-cases (some a) = inr (a, refl)

infixl 5 ◌>>=◌
abbrev pub ◌>>=◌ {ℓ κ} : {A : Type ℓ} {B : Type κ} → Option A → (A → Option B) → Option B
none >>= f = none
some a >>= f = f a

-- The computation has a result, and the result satisfies `P`.
pub data Returns {ℓ κ} {A : Type ℓ} (P : A → Type κ) : Option A → Type (ℓ ⊔ κ) where
  returns : {a : A} → P a → Returns P (some a)

-- The rule for a chain of fallible steps.
pub bind {ℓ κ μ ν} :
    {A : Type ℓ} {B : Type κ} {P : A → Type μ} {Q : B → Type ν} {m : Option A} {f : A → Option B}
    → Returns P m
    → ((a : A) → P a → Returns Q (f a))
    → Returns Q (m >>= f)
bind (returns p) k = k _ p

pub Returns-of_some {ℓ κ} :
    {A : Type ℓ} (P : A → Type κ) {o : Option A} {a : A} → o ≡ some a → P a → Returns P o
Returns-of_some P e p = rw e (returns p)

pub result {ℓ κ} :
    {A : Type ℓ} {P : A → Type κ} {o : Option A} → Returns P o → (a : A) × (o ≡ some a) × P a
result (returns p) = (_, refl, p)

-- What is known of every result holds of the one that is there.
pub Returns_at {ℓ κ} :
    {A : Type ℓ} {P : A → Type κ} {o : Option A} {a : A} → Returns P o → o ≡ some a → P a
Returns_at {P} (returns p) e = subst P (some-injective _ _ e) p

-- If the computation has a result, the result satisfies `P`.
pub data Yields {ℓ κ} {A : Type ℓ} (P : A → Type κ) : Option A → Type (ℓ ⊔ κ) where
  fails : Yields P none
  yields : {a : A} → P a → Yields P (some a)

-- The rule for a chain: what follows a step knows that the step had its result.
pub chain {ℓ κ ν} :
    {A : Type ℓ} {B : Type κ} {Q : B → Type ν} (m : Option A) {f : A → Option B}
    → ((a : A) → m ≡ some a → Yields Q (f a))
    → Yields Q (m >>= f)
chain none k = fails
chain (some a) k = k a refl

-- What is known of any result holds of a result that is there.
pub Returns-Yields {ℓ κ μ} :
    {A : Type ℓ} {P : A → Type κ} {Q : A → Type μ} {o : Option A}
    → Returns P o
    → Yields Q o
    → Returns (λ a. P a × Q a) o
Returns-Yields (returns p) (yields q) = returns (p, q)

pub Yields-mono {ℓ κ μ} :
    {A : Type ℓ} {P : A → Type κ} {Q : A → Type μ} {o : Option A}
    → Yields P o
    → ((a : A) → P a → Q a)
    → Yields Q o
Yields-mono fails weaken = fails
Yields-mono (yields p) weaken = yields (weaken _ p)

pub Yields_at {ℓ κ} :
    {A : Type ℓ} {P : A → Type κ} {o : Option A} {a : A} → Yields P o → o ≡ some a → P a
Yields_at {P} (yields p) e = subst P (some-injective _ _ e) p
Yields_at fails e = cc

-- The first choice, or the second where there is none.
abbrev pub or_else {ℓ} : {A : Type ℓ} → Option A → Option A → Option A
or_else none later = later
or_else (some a) later = some a

pub Yields-or_else {ℓ κ} :
    {A : Type ℓ} {P : A → Type κ} {o later : Option A}
    → Yields P o
    → Yields P later
    → Yields P (or_else o later)
Yields-or_else fails h = h
Yields-or_else (yields p) h = yields p
