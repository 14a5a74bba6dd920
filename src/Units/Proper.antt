-- ===== src/Units/Proper.antt =====
-- Whatever the files hold, the units that `unit_deque_init` (src/unit.c) loads are proper: their texts
-- end within their arrays, and the right answer is one of the four.
use intellect_battle.Prelude.{
  ℕ, ◌-◌, ◌≤◌, ◌≡◌, refl, ap, sym, subst, ◌∙◌, Bool, true, false, ◌||◌, Option, none, some, List,
  [], ◌∷◌, ◌++◌, length, All, arith, ◌==◌, ltb, if◌then◌else◌, ◌>>=◌, Bool-cases, inl, inr,
}
use mathlib.Core.Option.{some-injective}
use intellect_battle.Memory.{Mem, put, bytes, c_string, strncpy}
use intellect_battle.Memory.Laws.{put_self}
use intellect_battle.Memory.Buffers.{
  strncpy-c_string, c_string-strncpy_text, c_string-nonzero, c_string-cut,
}
use intellect_battle.Packet.{q_len, a_len}
use intellect_battle.Units.Lines.{File, Reader, take_line, read_line, input_text, read_text}
use intellect_battle.Units.Parse.{Quiz, Entry, ok, read_rans, read_unit, is_loaded}
use intellect_battle.Units.Listing.{collect, listing}
use intellect_battle.Units.Alike.{Alike, both, read_entries-Alike, Alike-ok}

-- The array holds a text with its NUL.
abbrev pub IsText : List ℕ → Type 0
IsText t = (s : List ℕ) × (c_string t ≡ some s)

pub record IsProper (q : Quiz) : Type 0 where
  pub quest : IsText q.quest
  pub ans0 : IsText (q.ans 0)
  pub ans1 : IsText (q.ans 1)
  pub ans2 : IsText (q.ans 2)
  pub ans3 : IsText (q.ans 3)
  pub least : 1 ≤ q.rans
  pub most : q.rans ≤ 4

pub >>=-eq-some :
    {A B : Type 0} (m : Option A) (f : A → Option B) {b : B}
    → (m >>= f) ≡ some b
    → (a : A) × (m ≡ some a) × (f a ≡ some b)
>>=-eq-some none f e = cc
>>=-eq-some (some a) f e = (a, refl, e)

read_line-flag : (r : Reader) → (read_line r).error_flag ≡ false → r.error_flag ≡ false
unfolding read_line
read_line-flag r fine = flag_of (length (take_line 403 r.file.rest).text == 0) _ _ _ fine
  where
    flag_of :
        (b : Bool) (f g : File) (m : Mem)
        → (if b
            then record r { file = f; error_flag = true }
            else record r { file = g; input = m }).error_flag
          ≡ false
        → r.error_flag ≡ false
    flag_of true f g m e = cc
    flag_of false f g m e = e

||-eq-false : (a b : Bool) → (a || b) ≡ false → (a ≡ false) × (b ≡ false)
||-eq-false true b e = cc
||-eq-false false b e = (refl, e)

pub chosen : {A : Type 0} (b : Bool) (p q : A) → (if b then none else some p) ≡ some q → p ≡ q
chosen true p q e = cc
chosen false p q e = some-injective p q e

within_limit : (a b : ℕ) → ltb a b ≡ false → b ≤ a
within_limit a b e = ground arith

-- A text that sets no flag.
text_after :
    (size : ℕ) (got : Reader) (s t : List ℕ) (r' : Reader)
    → 1 ≤ size
    → size ≤ 405
    → if◌then◌else◌ {A = Option (List ℕ × Reader)} (length s == 0) none (
        some (
          strncpy size (bytes (put got.input (length s - 1) 0) 0 405),
          record got {
            input = put got.input (length s - 1) 0;
            error_flag = got.error_flag || ltb (size - 1) (length s);
          },
        ))
      ≡ some (t, r')
    → r'.error_flag ≡ false
    → (got.error_flag ≡ false) × IsText t
text_after size got s t r' least most e fine =
    let cut = put got.input (length s - 1) 0 in
    let came =
      chosen (length s == 0)
        (
          strncpy size (bytes cut 0 405),
          record got { input = cut; error_flag = got.error_flag || ltb (size - 1) (length s) },
        )
        (t, r') e in
    let (flag, limit) =
      ||-eq-false got.error_flag (ltb (size - 1) (length s))
        (ap (λ (p : List ℕ × Reader). p.1.error_flag) came ∙ fine) in
    let short = within_limit (size - 1) (length s) limit in
    let (s', text, few) =
      c_string-cut cut 0 405 (length s - 1) (omega (arith, short))
        (ap cut (omega arith) ∙ put_self got.input (length s - 1) 0) in
    let copied = strncpy-c_string size (bytes cut 0 405) s' text in
    (
      flag,
      (
        s',
        ap c_string (ap (λ (p : List ℕ × Reader). p.0) (sym came) ∙ copied)
            ∙ c_string-strncpy_text size s' (c_string-nonzero (bytes cut 0 405) s' text)
                (omega (arith, few, short)),
      ),
    )

read_text-IsText :
    (size : ℕ) (r r' : Reader) (t : List ℕ)
    → 1 ≤ size
    → size ≤ 405
    → read_text size r ≡ some (t, r')
    → r'.error_flag ≡ false
    → (r.error_flag ≡ false) × IsText t
unfolding read_text
read_text-IsText size r r' t least most e fine =
    let (s, seen, more) = >>=-eq-some (input_text (read_line r)) _ e in
    let (flag, text) = text_after size (read_line r) s t r' least most more fine in
    (read_line-flag r flag, text)

read_rans-flag :
    (r r' : Reader) (n : ℕ)
    → read_rans r ≡ some (n, r')
    → r'.error_flag ≡ false
    → r.error_flag ≡ false
unfolding read_rans
read_rans-flag r r' n e fine =
    let (s, seen, more) = >>=-eq-some (input_text (read_line r)) _ e in
    let came = some-injective _ _ more in
    let flags =
      ||-eq-false (read_line r).error_flag (ltb 2 (length s))
        (ap (λ (p : ℕ × Reader). p.1.error_flag) came ∙ fine) in
    read_line-flag r flags.0

loaded_tests :
    (q : Quiz) (error_flag : Bool)
    → is_loaded q error_flag ≡ true
    → (1 ≤ q.rans) × (q.rans ≤ 4) × (error_flag ≡ false)
unfolding is_loaded
loaded_tests q error_flag loads = ground arith

-- A unit that is loaded is proper.
pub read_unit-IsProper :
    (r r' : Reader) (q : Quiz)
    → read_unit r ≡ some (q, r')
    → is_loaded q r'.error_flag ≡ true
    → IsProper q
unfolding read_unit
read_unit-IsProper r r' q e loads =
    let ((quest, r1), e1, m1) = >>=-eq-some (read_text q_len r) _ e in
    let ((a, r2), e2, m2) = >>=-eq-some (read_text a_len r1) _ m1 in
    let ((b, r3), e3, m3) = >>=-eq-some (read_text a_len r2) _ m2 in
    let ((c, r4), e4, m4) = >>=-eq-some (read_text a_len r3) _ m3 in
    let ((d, r5), e5, m5) = >>=-eq-some (read_text a_len r4) _ m4 in
    let ((n, r6), e6, m6) = >>=-eq-some (read_rans r5) _ m5 in
    let came = some-injective _ _ m6 in
    let is_q = ap (λ (p : Quiz × Reader). p.0) came in
    let is_r = ap (λ (p : Quiz × Reader). p.1.error_flag) came in
    let (least, most, fine) = loaded_tests q r'.error_flag loads in
    let f5 = read_rans-flag r5 r6 n e6 (is_r ∙ fine) in
    let (f4, text_d) = read_text-IsText a_len r4 r5 d (omega arith) (omega arith) e5 f5 in
    let (f3, text_c) = read_text-IsText a_len r3 r4 c (omega arith) (omega arith) e4 f4 in
    let (f2, text_b) = read_text-IsText a_len r2 r3 b (omega arith) (omega arith) e3 f3 in
    let (f1, text_a) = read_text-IsText a_len r1 r2 a (omega arith) (omega arith) e2 f2 in
    let (f0, text_quest) = read_text-IsText q_len r r1 quest (omega arith) (omega arith) e1 f1 in
    record {
      quest = subst (λ (q : Quiz). IsText q.quest) is_q text_quest;
      ans0 = subst (λ (q : Quiz). IsText (q.ans 0)) is_q text_a;
      ans1 = subst (λ (q : Quiz). IsText (q.ans 1)) is_q text_b;
      ans2 = subst (λ (q : Quiz). IsText (q.ans 2)) is_q text_c;
      ans3 = subst (λ (q : Quiz). IsText (q.ans 3)) is_q text_d;
      least = least;
      most = most;
    }

keep-IsProper :
    (s t : List Quiz) (q : Quiz) (before after : Reader)
    → read_unit before ≡ some (q, after)
    → (s ≡ t) × All IsProper s
    → Alike
        (λ s t. (s ≡ t) × All IsProper s)
        (collect s q after.error_flag)
        (collect t q after.error_flag)
unfolding collect
keep-IsProper s t q before after reads (same, proper) =
    elim (Bool-cases (is_loaded q after.error_flag)) [
      | inl loads ↦ rw loads (
          both (
            ap (λ (s : List Quiz). s ++ q ∷ []) same,
            All-snoc IsProper s q proper (read_unit-IsProper before after q reads loads),
          ))
      | inr fails ↦ rw fails (both (same, proper))
    ]
  where
    All-snoc : (P : Quiz → Type 0) (s : List Quiz) (q : Quiz) → All P s → P q → All P (s ++ q ∷ [])
    All-snoc P [] q all new = (new, tt)
    All-snoc P (x ∷ s) q (first, all) new = (first, All-snoc P s q all new)

-- Every unit of a listing is proper.
pub listing-IsProper :
    (fresh : Mem → Mem) (input : Mem) (entries : List Entry) (qs : List Quiz)
    → listing fresh input entries ≡ ok qs
    → All IsProper qs
unfolding listing
listing-IsProper fresh input entries qs lists =
    let (s, e, (same, proper)) =
      Alike-ok
        (read_entries-Alike (λ s t. (s ≡ t) × All IsProper s) collect collect fresh keep-IsProper
          entries input [] [] (refl, tt))
        lists in
    subst (All IsProper) same proper
