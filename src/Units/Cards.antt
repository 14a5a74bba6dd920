-- ===== src/Units/Cards.antt =====
-- The files of units as people write them (units/*.units): six lines for a unit, which are its
-- question, four answers and the number of the right one. `print` writes such a file, without a
-- newline at its end.
use intellect_battle.Prelude.{
  ℕ, zero, suc, ◌+◌, ◌-◌, ◌%◌, ◌<◌, ◌≤◌, ◌≡◌, ◌≢◌, refl, ap, ◌∙◌, Bool, true, false, some, List, [],
  ◌∷◌, ◌++◌, length, length-snoc, All, arith, ◌==◌, ltb, ltb-eq-false,
}
use intellect_battle.Memory.{Mem, put, put_bytes, bytes, strncpy}
use intellect_battle.Memory.Buffers.{strncpy-c_string, c_string-put_bytes, c_string-put_cut}
use intellect_battle.Packet.{q_len, a_len}
use intellect_battle.Units.Lines.{Reader, take_line, read_line, input_text, read_text}
use intellect_battle.Units.Parse.{Quiz, four, read_rans}

-- A unit as it is written.
pub record Card : Type 0 where
  pub quest : List ℕ
  pub a : List ℕ
  pub b : List ℕ
  pub c : List ℕ
  pub d : List ℕ
  pub right : ℕ

-- A line for an array of so many bytes: with its newline it leaves room for the NUL.
pub record IsLine (size : ℕ) (s : List ℕ) : Type 0 where
  pub fits : length s + 1 < size
  pub no_nul : All (λ c. c ≢ 0) s
  pub one_line : All (λ c. c ≢ 10) s

pub record IsCard (k : Card) : Type 0 where
  pub quest : IsLine q_len k.quest
  pub a : IsLine a_len k.a
  pub b : IsLine a_len k.b
  pub c : IsLine a_len k.c
  pub d : IsLine a_len k.d
  pub least : 1 ≤ k.right
  pub most : k.right ≤ 4

-- What the program holds of it.
abbrev pub quiz : Card → Quiz
quiz k = record {
  quest = strncpy q_len k.quest;
  ans = four (strncpy a_len k.a) (strncpy a_len k.b) (strncpy a_len k.c) (strncpy a_len k.d);
  rans = k.right;
}

-- Six lines, of which the last is not closed, before what follows.
unfoldable pub print_card : Card → List ℕ → List ℕ
print_card k more =
    k.quest
    ++ (10
        ∷ (k.a ++ (10 ∷ (k.b ++ (10 ∷ (k.c ++ (10 ∷ (k.d ++ (10 ∷ ((48 + k.right) ∷ more))))))))))

take_line_lem :
    (n : ℕ) (s more : List ℕ)
    → length s < n
    → All (λ c. c ≢ 10) s
    → take_line n (s ++ (10 ∷ more)) ≡ record { text = s ++ 10 ∷ []; rest = more; met_end = false }
unfolding take_line
take_line_lem zero s more lt one = absurd (omega arith)
take_line_lem (suc n) [] more lt one = refl
take_line_lem (suc n) (c ∷ s) more lt (other, one) =
    let no_newline : (c == 10) ≡ false = ground (arith, other) in
    rw (no_newline, take_line_lem n s more (omega arith) one) refl

All-snoc : (P : ℕ → Type 0) (s : List ℕ) (c : ℕ) → All P s → P c → All P (s ++ c ∷ [])
All-snoc P [] c all new = (new, tt)
All-snoc P (x ∷ s) c (first, all) new = (first, All-snoc P s c all new)

-- Between two lines of a file: what is left, and no flag set.
pub record At (more : List ℕ) (eof error_flag : Bool) (r : Reader) : Type 0 where
  pub left : r.file.rest ≡ more
  pub ended : r.file.eof ≡ eof
  pub flagged : r.error_flag ≡ error_flag

snoc-nonzero : (s : List ℕ) (c : ℕ) → (length (s ++ c ∷ []) == 0) ≡ false
snoc-nonzero [] c = refl
snoc-nonzero (x ∷ s) c = ground arith

read_line_lem :
    (r : Reader) (s more : List ℕ)
    → length s < 403
    → All (λ c. c ≢ 10) s
    → At (s ++ (10 ∷ more)) false false r
    → read_line r ≡ record {
      file = record { rest = more; eof = false };
      input = put_bytes r.input 0 ((s ++ 10 ∷ []) ++ 0 ∷ []);
      error_flag = false;
    }
unfolding read_line
read_line_lem r s more lt one at =
    let line = take_line_lem 403 s more lt one in
    let many : (length (s ++ 10 ∷ []) == 0) ≡ false = snoc-nonzero s 10 in
    ap read_line (λ i. record {
      file = record { rest = at.left i; eof = at.ended i };
      input = r.input;
      error_flag = at.flagged i;
    })
    ∙ rw line (rw many refl)

-- A proper line is read into its array.
pub read_text_lem :
    (size : ℕ) (r : Reader) (s more : List ℕ)
    → size ≤ 203
    → IsLine size s
    → At (s ++ (10 ∷ more)) false false r
    → (r' : Reader) × (read_text size r ≡ some (strncpy size s, r')) × At more false false r'
unfolding read_text input_text
read_text_lem size r s more small line at =
    let got = read_line_lem r s more (omega (arith, line.fits)) line.one_line at in
    let many = length-snoc s 10 in
    let seen =
      c_string-put_bytes r.input 0 405 (s ++ 10 ∷ []) (omega (arith, many, line.fits))
        (All-snoc (λ c. c ≢ 0) s 10 line.no_nul (omega arith)) in
    let some_text : (length (s ++ 10 ∷ []) == 0) ≡ false = snoc-nonzero s 10 in
    let short : ltb (size - 1) (length (s ++ 10 ∷ [])) ≡ false =
      ltb-eq-false (size - 1) (length (s ++ 10 ∷ [])) (omega (arith, many, line.fits)) in
    let cut = c_string-put_cut r.input 405 s 10 (omega (arith, line.fits)) line.no_nul in
    let copied =
      strncpy-c_string size
        (bytes (put (put_bytes r.input 0 ((s ++ 10 ∷ []) ++ 0 ∷ [])) (length (s ++ 10 ∷ []) - 1) 0)
          0 405)
        s cut in
    (
      record {
        file = record { rest = more; eof = false };
        input = put (put_bytes r.input 0 ((s ++ 10 ∷ []) ++ 0 ∷ [])) (length (s ++ 10 ∷ []) - 1) 0;
        error_flag = false;
      },
      rw got (rw seen (rw (some_text, short) (rw copied refl))),
      record { left = refl; ended = refl; flagged = refl },
    )

put_bytes-head : (m : Mem) (c : ℕ) (s : List ℕ) → put_bytes m 0 (c ∷ s) 0 ≡ c
unfolding put_bytes
put_bytes-head m c s = refl

-- The number in its digit.
digit :
    (m : Mem) (right : ℕ) (s : List ℕ)
    → right ≤ 4
    → (put_bytes m 0 ((48 + right) ∷ s) 0 + 208) % 256 ≡ right
digit m right s most = rw (put_bytes-head m (48 + right) s) (omega arith)

-- The number of the right answer, on a line that is closed or that ends the file.
pub read_rans-closed :
    (r : Reader) (right : ℕ) (more : List ℕ)
    → right ≤ 4
    → At ((48 + right) ∷ (10 ∷ more)) false false r
    → (r' : Reader) × (read_rans r ≡ some (right, r'))
      × At more false false r'
      × ((m : Mem) × (r'.input ≡ put_bytes m 0 ((48 + right) ∷ 10 ∷ 0 ∷ [])))
unfolding read_rans input_text
read_rans-closed r right more most at =
    let c = 48 + right in
    let got = read_line_lem r (c ∷ []) more (omega arith) (omega arith, tt) at in
    let seen =
      c_string-put_bytes r.input 0 405 (c ∷ 10 ∷ []) (omega arith)
        (omega arith, (omega arith, tt)) in
    let r' : Reader = record {
      file = record { rest = more; eof = false };
      input = put_bytes r.input 0 (c ∷ 10 ∷ 0 ∷ []);
      error_flag = false;
    } in
    (
      r',
      rw got (rw seen (ap (λ (v : ℕ). some (v, r')) (digit r.input right (10 ∷ 0 ∷ []) most))),
      record { left = refl; ended = refl; flagged = refl },
      (r.input, refl),
    )

read_line-last :
    (r : Reader) (c : ℕ)
    → c ≢ 10
    → At (c ∷ []) false false r
    → read_line r ≡ record {
      file = record { rest = []; eof = true };
      input = put_bytes r.input 0 (c ∷ 0 ∷ []);
      error_flag = false;
    }
unfolding read_line take_line
read_line-last r c other at =
    let no_newline : (c == 10) ≡ false = ground (arith, other) in
    ap read_line (λ i. record {
      file = record { rest = at.left i; eof = at.ended i };
      input = r.input;
      error_flag = at.flagged i;
    })
    ∙ rw no_newline refl

pub read_rans-last :
    (r : Reader) (right : ℕ)
    → right ≤ 4
    → At ((48 + right) ∷ []) false false r
    → (r' : Reader) × (read_rans r ≡ some (right, r')) × At [] true false r'
unfolding read_rans input_text
read_rans-last r right most at =
    let c = 48 + right in
    let got = read_line-last r c (omega arith) at in
    let seen = c_string-put_bytes r.input 0 405 (c ∷ []) (omega arith) (omega arith, tt) in
    let r' : Reader = record {
      file = record { rest = []; eof = true };
      input = put_bytes r.input 0 (c ∷ 0 ∷ []);
      error_flag = false;
    } in
    (
      r',
      rw got (rw seen (ap (λ (v : ℕ). some (v, r')) (digit r.input right (0 ∷ []) most))),
      record { left = refl; ended = refl; flagged = refl },
    )
