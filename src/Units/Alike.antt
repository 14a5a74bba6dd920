-- ===== src/Units/Alike.antt =====
-- The loops of `unit_deque_init` (src/unit.c) with two ways to keep a unit: what relates the two ways
-- relates the two runs.
use intellect_battle.Prelude.{
  true, false, subst, ℕ, zero, suc, ◌+◌, ◌≡◌, refl, Bool, some, List, [], ◌∷◌, ltb, Bool-cases,
  Option-cases, inl, inr, if◌then◌else◌, length,
}
use intellect_battle.Memory.{Mem}
use intellect_battle.Units.Lines.{File, Reader}
use intellect_battle.Units.Parse.{
  Quiz, Entry, Loading, ok, undefined, out_of_fuel, ◌>=>◌, read_unit, read_units, read_entries,
  is_units,
}

-- Both go on, with related values, or both have no defined result, or neither has had fuel enough.
pub data Alike {L M A B : Type 0} (R : A → B → Type 0) : Loading L A → Loading M B → Type 0 where
  both : {a : A} {b : B} → R a b → Alike R (ok a) (ok b)
  neither : Alike R undefined undefined
  spent : Alike R out_of_fuel out_of_fuel

-- What each of two runs yields with its array `input`.
abbrev With : {A B : Type 0} → (A → B → Type 0) → Mem × A → Mem × B → Type 0
With R (m, a) (n, b) = (m ≡ n) × R a b

Alike-bind :
    {L M A B C D : Type 0} {R : A → B → Type 0} {Q : C → D → Type 0} {x : Loading L A}
    {y : Loading M B} {f : A → Loading L C} {g : B → Loading M D}
    → Alike R x y
    → ((a : A) (b : B) → R a b → Alike Q (f a) (g b))
    → Alike Q (x >=> f) (y >=> g)
Alike-bind (both r) k = k _ _ r
Alike-bind neither k = neither
Alike-bind spent k = spent

-- What a defined run shows of the other.
pub Alike-ok :
    {L M A B : Type 0} {R : A → B → Type 0} {x : Loading L A} {y : Loading M B} {b : B}
    → Alike R x y
    → y ≡ ok b
    → (a : A) × (x ≡ ok a) × R a b
Alike-ok {R} (both {a} {b} r) e = (a, refl, subst (R a) (ok-injective e) r)
  where
    ok-injective : {M B : Type 0} {b c : B} → ◌≡◌ {A = Loading M B} (ok b) (ok c) → b ≡ c
    ok-injective e = cc
Alike-ok neither e = cc
Alike-ok spent e = cc

pub Alike-undefined :
    {L M A B : Type 0} {R : A → B → Type 0} {x : Loading L A} {y : Loading M B}
    → Alike R x y
    → y ≡ undefined
    → x ≡ undefined
Alike-undefined (both r) e = cc
Alike-undefined neither e = refl
Alike-undefined spent e = cc

-- A test chooses the same branch of both.
Alike-if :
    {L M A B : Type 0} {R : A → B → Type 0} (b : Bool) {x x' : Loading L A} {y y' : Loading M B}
    → Alike R x y
    → Alike R x' y'
    → Alike R (if b then x else x') (if b then y else y')
Alike-if true here there = here
Alike-if false here there = there

module _ {L M S T : Type 0} (R : S → T → Type 0) (keep : S → Quiz → Bool → Loading L S)
    (keep' : T → Quiz → Bool → Loading M T) (fresh : Mem → Mem)
    (step : (s : S) (t : T) (q : Quiz) (before after : Reader)
      → read_unit before ≡ some (q, after)
      → R s t
      → Alike R (keep s q after.error_flag) (keep' t q after.error_flag)) where
  read_units-Alike :
      (fuel : ℕ) (file : File) (input : Mem) (s : S) (t : T)
      → R s t
      → Alike
          (With R)
          (read_units keep fresh fuel file input s)
          (read_units keep' fresh fuel file input t)
  unfolding read_units
  read_units-Alike zero file input s t r = spent
  read_units-Alike (suc fuel) file input s t r =
      let start : Reader = record { file = file; input = fresh input; error_flag = false } in
      Alike-if file.eof (both (refl, r)) (elim (Option-cases (read_unit start)) [
        | inl fails ↦ rw fails neither
        | inr ((q, rd), reads) ↦ rw reads (
            Alike-bind (step s t q start rd reads r)
              (λ a b r'. read_units-Alike fuel rd.file rd.input a b r'))
      ])

  pub read_entries-Alike :
      (es : List Entry) (input : Mem) (s : S) (t : T)
      → R s t
      → Alike R (read_entries keep fresh es input s) (read_entries keep' fresh es input t)
  unfolding read_entries
  read_entries-Alike [] input s t r = both r
  read_entries-Alike (e ∷ es) input s t r = elim (Bool-cases (is_units e.name)) [
    | inr other ↦ rw (other, read_entries) (read_entries-Alike es input s t r)
    | inl units ↦ elim (Bool-cases (ltb 246 (length e.name))) [
      | inl long ↦ rw (units, long, read_entries) neither
      | inr fits ↦ elim (Option-cases e.content) [
        | inl closed ↦ rw (units, fits, closed, read_entries) (read_entries-Alike es input s t r)
        | inr (content, opened) ↦
            rw (units, fits, opened, read_entries)
              (Alike-bind
                (read_units-Alike (length content + 2) (record { rest = content; eof = false })
                  input s t r)
                (λ (m, a) (n, b) (same, r'). rw same (read_entries-Alike es n a b r')))
      ]
    ]
  ]
