-- ===== src/Units/Fuel.antt =====
-- The loops of `unit_deque_init` end (src/unit.c): each round over the units of a file reads a character
-- or meets the end of the file.
use intellect_battle.Prelude.{
  Option, none, ltb, ◌>>=◌, ℕ, zero, suc, ◌+◌, ◌≤◌, ◌<◌, ◌≡◌, refl, ap, sym, subst, ◌∙◌, ◌⊎◌, inl,
  inr, Bool, true, false, ◌||◌, some, List, [], ◌∷◌, arith, ◌==◌, length, Bool-cases, if◌then◌else◌,
}
use mathlib.Core.Option.{some-injective}
use intellect_battle.Memory.{Mem}
use intellect_battle.Packet.{q_len, a_len}
use intellect_battle.Units.Lines.{File, Reader, take_line, read_line, input_text, read_text}
use intellect_battle.Units.Parse.{
  Quiz, Loading, Entry, ok, undefined, null_returned, ◌>=>◌, is_loaded, is_units, read_rans,
  read_unit, read_units, read_entries,
}
use intellect_battle.Units.{Heap, Ptr, null}
use intellect_battle.Units.Free.{unit_deque_free, free, set_next, update}
use intellect_battle.Units.Load.{
  Deque, blank, link, set_prev, append, keep_unit, close_ring, started, unit_deque_init,
}
use intellect_battle.Units.Proper.{>>=-eq-some, chosen}

take_line-at_most : (n : ℕ) (cs : List ℕ) → length (take_line n cs).rest ≤ length cs
unfolding take_line
take_line-at_most zero cs = omega arith
take_line-at_most (suc n) [] = omega arith
take_line-at_most (suc n) (c ∷ cs) = elim (Bool-cases (c == 10)) [
  | inl ends ↦ rw ends (omega arith)
  | inr goes ↦ rw goes (omega (arith, take_line-at_most n cs))
]

take_line-less :
    (n : ℕ) (cs : List ℕ)
    → ((take_line (suc n) cs).met_end ≡ true) ⊎ (length (take_line (suc n) cs).rest < length cs)
unfolding take_line
take_line-less n [] = inl refl
take_line-less n (c ∷ cs) = elim (Bool-cases (c == 10)) [
  | inl ends ↦ rw ends (inr (omega arith))
  | inr goes ↦ rw goes (inr (omega (arith, take_line-at_most n cs)))
]

-- A later stream: no more is left, and the end stays met.
abbrev Later : File → File → Type 0
Later f g = ((f.eof ≡ true) → (g.eof ≡ true)) × (length g.rest ≤ length f.rest)

-- A stream that has been read from.
abbrev pub Less : File → File → Type 0
Less f g = (g.eof ≡ true) ⊎ (length g.rest < length f.rest)

Less-Later : (f g h : File) → Less f g → Later g h → Less f h
Less-Later f g h (inl met) (stays, less) = inl (stays met)
Less-Later f g h (inr lt) (stays, less) = inr (omega arith)

||-true : (a b : Bool) → b ≡ true → (a || b) ≡ true
||-true true b e = refl
||-true false b e = e

||-true_left : (a b : Bool) → a ≡ true → (a || b) ≡ true
||-true_left a b e = rw e refl

abbrev next_file : File → File
next_file f = record {
  rest = (take_line 403 f.rest).rest;
  eof = f.eof || (take_line 403 f.rest).met_end;
}

read_line-file : (r : Reader) → (read_line r).file ≡ next_file r.file
unfolding read_line
read_line-file r = file_of (length (take_line 403 r.file.rest).text == 0) _ _
  where
    file_of :
        (b : Bool) (f : File) (m : Mem)
        → (if b
            then record r { file = f; error_flag = true }
            else record r { file = f; input = m }).file
          ≡ f
    file_of true f m = refl
    file_of false f m = refl

next_file-Less : (f : File) → Less f (next_file f)
next_file-Less f = elim (take_line-less 402 f.rest) [
  | inl met ↦ inl (||-true f.eof (take_line 403 f.rest).met_end met)
  | inr lt ↦ inr lt
]

next_file-Later : (f : File) → Later f (next_file f)
next_file-Later f =
    (||-true_left f.eof (take_line 403 f.rest).met_end, take_line-at_most 403 f.rest)

read_text-file :
    (size : ℕ) (r r' : Reader) (t : List ℕ)
    → read_text size r ≡ some (t, r')
    → r'.file ≡ next_file r.file
unfolding read_text
read_text-file size r r' t e =
    let (s, seen, more) = >>=-eq-some (input_text (read_line r)) _ e in
    let came = chosen (length s == 0) _ (t, r') more in
    sym (ap (λ (p : List ℕ × Reader). p.1.file) came) ∙ read_line-file r

read_rans-file : (r r' : Reader) (n : ℕ) → read_rans r ≡ some (n, r') → r'.file ≡ next_file r.file
unfolding read_rans
read_rans-file r r' n e =
    let (s, seen, more) = >>=-eq-some (input_text (read_line r)) _ e in
    let came = some-injective _ _ more in
    sym (ap (λ (p : ℕ × Reader). p.1.file) came) ∙ read_line-file r

-- A unit that was read has used up a character or met the end.
read_unit-Less : (r r' : Reader) (q : Quiz) → read_unit r ≡ some (q, r') → Less r.file r'.file
unfolding read_unit
read_unit-Less r r' q e =
    let ((quest, r1), e1, m1) = >>=-eq-some (read_text q_len r) _ e in
    let ((a, r2), e2, m2) = >>=-eq-some (read_text a_len r1) _ m1 in
    let ((b, r3), e3, m3) = >>=-eq-some (read_text a_len r2) _ m2 in
    let ((c, r4), e4, m4) = >>=-eq-some (read_text a_len r3) _ m3 in
    let ((d, r5), e5, m5) = >>=-eq-some (read_text a_len r4) _ m4 in
    let ((n, r6), e6, m6) = >>=-eq-some (read_rans r5) _ m5 in
    let last : r6.file ≡ r'.file = ap (λ (p : Quiz × Reader). p.1.file) (some-injective _ _ m6) in
    let l1 =
      subst (Less r.file) (sym (read_text-file q_len r r1 quest e1)) (next_file-Less r.file) in
    let l2 = later r1 r2 (read_text-file a_len r1 r2 a e2) l1 in
    let l3 = later r2 r3 (read_text-file a_len r2 r3 b e3) l2 in
    let l4 = later r3 r4 (read_text-file a_len r3 r4 c e4) l3 in
    let l5 = later r4 r5 (read_text-file a_len r4 r5 d e5) l4 in
    let l6 = later r5 r6 (read_rans-file r5 r6 n e6) l5 in subst (Less r.file) last l6
  where
    later : (s s' : Reader) → s'.file ≡ next_file s.file → Less r.file s.file → Less r.file s'.file
    later s s' e l =
        Less-Later r.file s.file s'.file l (subst (Later s.file) (sym e) (next_file-Later s.file))

-- The model has had fuel enough: the loading has any result but `out_of_fuel`.
pub data Ends {L A : Type 0} : Loading L A → Type 0 where
  with_value : {a : A} → Ends (ok a)
  without_result : Ends undefined
  with_null : {l : L} → Ends (null_returned l)

>=>-Ends :
    {L A B : Type 0} {x : Loading L A} {f : A → Loading L B}
    → Ends x
    → ((a : A) → Ends (f a))
    → Ends (x >=> f)
>=>-Ends with_value then_ends = then_ends _
>=>-Ends without_result then_ends = without_result
>=>-Ends with_null then_ends = with_null

-- Whichever branch is taken, it ends.
Ends-if :
    {L A : Type 0} (b : Bool) {x y : Loading L A} → Ends x → Ends y → Ends (if b then x else y)
Ends-if true here there = here
Ends-if false here there = there

Ends-option :
    {L A B : Type 0} (o : Option A) {x : Loading L B} {f : A → Loading L B}
    → Ends x
    → ((a : A) → o ≡ some a → Ends (f a))
    → Ends (elim o as (λ _. Loading L B) [ none ↦ x | some a ↦ f a ])
Ends-option none here there = here
Ends-option (some a) here there = there a refl

module _ {L S : Type 0} (keep : S → Quiz → Bool → Loading L S) (fresh : Mem → Mem)
    (keeps : (s : S) (q : Quiz) (error_flag : Bool) → Ends (keep s q error_flag)) where
  read_units-met :
      (fuel : ℕ) (file : File) (input : Mem) (s : S)
      → 0 < fuel
      → file.eof ≡ true
      → Ends (read_units keep fresh fuel file input s)
  unfolding read_units
  read_units-met zero file input s enough met = absurd (omega arith)
  read_units-met (suc fuel) file input s enough met = rw met with_value

  -- A round more than there are characters, and one at the end, are enough.
  read_units-Ends :
      (fuel : ℕ) (file : File) (input : Mem) (s : S)
      → length file.rest + 1 < fuel
      → Ends (read_units keep fresh fuel file input s)
  unfolding read_units
  read_units-Ends zero file input s enough = absurd (omega arith)
  read_units-Ends (suc fuel) file input s enough =
      let r : Reader = record { file = file; input = fresh input; error_flag = false } in
      Ends-if file.eof with_value (
        Ends-option (read_unit r) without_result λ (q, r') reads.
          >=>-Ends (keeps s q r'.error_flag) (λ s'. elim (read_unit-Less r r' q reads) [
            | inl met ↦ read_units-met fuel r'.file r'.input s' (omega arith) met
            | inr less ↦ read_units-Ends fuel r'.file r'.input s' (omega arith)
          ]))

  read_entries-Ends :
      (es : List Entry) (input : Mem) (s : S) → Ends (read_entries keep fresh es input s)
  unfolding read_entries
  read_entries-Ends [] input s = with_value
  read_entries-Ends (e ∷ es) input s =
      Ends-if (is_units e.name)
        (Ends-if (ltb 246 (length e.name)) without_result (
          Ends-option e.content (read_entries-Ends es input s) λ content opened.
            >=>-Ends
              (read_units-Ends (length content + 2) (record { rest = content; eof = false }) input s
                (omega arith))
              (λ (input', s'). read_entries-Ends es input' s')))
        (read_entries-Ends es input s)

append-Ends : (calloc : ℕ → Ptr) (d : Deque) → Ends (append calloc d)
unfolding append
append-Ends calloc d =
    Ends-if (calloc (d.loaded + 1) == null)
      (Ends-option (unit_deque_free (d.loaded + 1) d.heap d.next) without_result
        (λ freed e. with_null))
      (Ends-option
        (link (update d.heap (calloc (d.loaded + 1)) (some blank)) d.next (calloc (d.loaded + 1)))
        without_result (λ h e. with_value))

keep_unit-Ends :
    (calloc : ℕ → Ptr) (d : Deque) (q : Quiz) (error_flag : Bool)
    → Ends (keep_unit calloc d q error_flag)
unfolding keep_unit
keep_unit-Ends calloc d q error_flag =
    Ends-option (d.heap d.next) without_result
      λ u e. Ends-if (is_loaded q error_flag) (append-Ends calloc _) with_value

close_ring-Ends : (d : Deque) → Ends (close_ring d)
unfolding close_ring
close_ring-Ends d = Ends-option (free d.heap d.next) without_result λ h e.
    Ends-option d.last without_result λ last e'.
      Ends-option (set_next h last d.first >>= λ h. set_prev h d.first last) without_result
        (λ h' e''. with_value)

-- The loops of `unit_deque_init` over the files of the directory and over the units of a file end, whatever
-- the files hold and wherever `calloc` fails: a file of `n` characters takes at most `n + 2` rounds, which
-- is the fuel that the model gives, so that it is never out of fuel.
pub unit_deque_init-Ends :
    (calloc : ℕ → Ptr) (fresh : Mem → Mem) (input : Mem) (directory : Option (List Entry))
    (h : Heap)
    → Ends (unit_deque_init calloc fresh input directory h)
unfolding unit_deque_init
unit_deque_init-Ends calloc fresh input directory h = Ends-if (calloc 0 == null) with_null (
    Ends-option directory without_result λ entries e.
      >=>-Ends
        (read_entries-Ends (keep_unit calloc) fresh (keep_unit-Ends calloc) entries input
          (started (calloc 0) h))
        (λ d. close_ring-Ends d))
