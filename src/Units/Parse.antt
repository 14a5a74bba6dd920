-- ===== src/Units/Parse.antt =====
-- A unit of a file, and the loops of `unit_deque_init` (src/unit.c) over the units of a file and over
-- the files of the directory. What becomes of a unit that was read is a parameter.
use intellect_battle.Prelude.{
  ℕ, zero, suc, ◌+◌, ◌-◌, ◌%◌, Bool, true, false, ◌||◌, ◌&&◌, not, Option, none, some, List, [],
  ◌∷◌, ltb, ◌==◌, if◌then◌else◌, ◌>>=◌, or_else, length,
}
use intellect_battle.Memory.{Mem}
use intellect_battle.Packet.{q_len, a_len, ans_count}
use intellect_battle.Units.Lines.{File, Reader, read_line, input_text, read_text}

-- include/const.h
abbrev pub ra_len : ℕ
ra_len = 3

-- What is read into a unit: the contents of its char arrays and the number of the right answer.
pub record Quiz : Type 0 where
  pub quest : List ℕ
  pub ans : ℕ → List ℕ
  pub rans : ℕ

-- The answers of lines 68 to 78, one by one.
abbrev pub four {ℓ} : {A : Type ℓ} → A → A → A → A → ℕ → A
four a b c d i = if i == 0 then a else if i == 1 then b else if i == 2 then c else d

-- Lines 80 to 86: the number of the right answer.
unfoldable pub read_rans : Reader → Option (ℕ × Reader)
read_rans r =
    let got = read_line r in
    input_text got >>= λ s. some (
      (got.input 0 + 208) % 256,
      record got { error_flag = got.error_flag || ltb (ra_len - 1) (length s) },
    )

-- Lines 58 to 86: one unit.
unfoldable pub read_unit : Reader → Option (Quiz × Reader)
read_unit r = read_text q_len r >>= λ (quest, r). read_text a_len r >>= λ (a, r).
    read_text a_len r >>= λ (b, r). read_text a_len r >>= λ (c, r). read_text a_len r >>= λ (d, r).
    read_rans r >>= λ (rans, r). some (record { quest = quest; ans = four a b c d; rans = rans }, r)

-- The tests of lines 88 and 89.
unfoldable pub is_loaded : Quiz → Bool → Bool
is_loaded q error_flag = ltb 0 q.rans && ltb q.rans (ans_count + 1) && not error_flag

-- An entry of the directory: its name, and its content if it can be opened.
pub record Entry : Type 0 where
  pub name : List ℕ
  pub content : Option (List ℕ)

-- `strrchr(name, '.')`
unfoldable pub strrchr_dot : List ℕ → Option (List ℕ)
strrchr_dot [] = none
strrchr_dot (c ∷ cs) = or_else (strrchr_dot cs) (if c == b'.' then some (c ∷ cs) else none)

-- `strcmp(s, t) == 0`
unfoldable pub equal : List ℕ → List ℕ → Bool
equal [] [] = true
equal [] (d ∷ t) = false
equal (c ∷ s) [] = false
equal (c ∷ s) (d ∷ t) = c == d && equal s t

abbrev pub units_suffix : List ℕ
units_suffix = b'.' ∷ b'u' ∷ b'n' ∷ b'i' ∷ b't' ∷ b's' ∷ []

-- Lines 36 and 37.
unfoldable pub is_units : List ℕ → Bool
unfolding strrchr_dot equal
is_units name = elim (strrchr_dot name) [ none ↦ false | some suffix ↦ equal suffix units_suffix ]

-- How loading goes on: with a value, not at all (`undefined`: the C standard gives no result), or with
-- the return of NULL, which leaves something behind. `out_of_fuel` is of the model alone: a loop that had
-- more rounds than it was given.
pub data Loading (L A : Type 0) : Type 0 where
  ok : A → Loading L A
  undefined out_of_fuel : Loading L A
  null_returned : L → Loading L A

infixl 5 ◌>=>◌
abbrev pub ◌>=>◌ : {L A B : Type 0} → Loading L A → (A → Loading L B) → Loading L B
ok a >=> f = f a
undefined >=> f = undefined
out_of_fuel >=> f = out_of_fuel
null_returned l >=> f = null_returned l

-- `keep s q e` is lines 88 to 100 for a unit `q` that was read with the flag `e`, on a state `s`.
-- `fresh b` is what the array `input` holds at the start of a round, where `b` is what it held at the
-- end of the round before: the source leaves it unset.
module _ {L S : Type 0} (keep : S → Quiz → Bool → Loading L S) (fresh : Mem → Mem) where
  -- The loop of lines 54 to 101.
  unfoldable pub read_units : (fuel : ℕ) → File → Mem → S → Loading L (Mem × S)
  read_units zero file input s = out_of_fuel
  read_units (suc fuel) file input s =
      if file.eof
      then ok (input, s)
      else elim (read_unit (record { file = file; input = fresh input; error_flag = false })) [
        | none ↦ undefined
        | some (q, r) ↦ keep s q r.error_flag >=> λ s'. read_units fuel r.file r.input s'
      ]

  -- A file that was opened. Each round but the last uses up a character.
  abbrev pub read_file : List ℕ → Mem → S → Loading L (Mem × S)
  read_file content input s =
      read_units (length content + 2) (record { rest = content; eof = false }) input s

  -- Lines 32 to 105. The array `fullpath` holds 255 bytes, of which "./units/" and the NUL take nine.
  unfoldable pub read_entries : List Entry → Mem → S → Loading L S
  read_entries [] input s = ok s
  read_entries (e ∷ es) input s =
      let skipped = read_entries es input s in
      if is_units e.name
      then (if ltb 246 (length e.name) then undefined else elim e.content [
        | none ↦ skipped
        | some content ↦ read_file content input s >=> λ (input', s'). read_entries es input' s'
      ])
      else skipped
