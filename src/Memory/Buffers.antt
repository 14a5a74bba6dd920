-- ===== src/Memory/Buffers.antt =====
-- A text in a larger buffer, and what `strncpy` takes from it.
use intellect_battle.Prelude.{
  ℕ, zero, suc, ◌+◌, ◌-◌, ◌<◌, ◌≤◌, ◌≡◌, ◌≢◌, refl, ap, ◌∙◌, some, List, [], ◌∷◌, ◌++◌, length, All,
  arith, get_or, ◌⊎◌, Bool-cases, Option-cases, inl, inr, ◌==◌, false, length-snoc,
}
use intellect_battle.Memory.{Mem, put, put_bytes, bytes, c_string, strncpy}
use intellect_battle.Memory.Laws.{put-ne, put_self, put_bytes-at, get_or_default}
use intellect_battle.Memory.Text.{c_string-bytes}

-- The two ways in which an array with a text begins.
pub c_string-cons :
    (c : ℕ) (cs s : List ℕ)
    → c_string (c ∷ cs) ≡ some s
    → ((c ≡ 0) × (s ≡ [])) ⊎ ((c ≢ 0) × ((t : List ℕ) × (c_string cs ≡ some t) × (s ≡ c ∷ t)))
unfolding c_string
c_string-cons c cs s e = elim (Option-cases (c_string cs)) [
  | inl no_text ↦ inl (ground (arith, no_text))
  | inr (t, text) ↦ elim (Bool-cases (c == 0)) [
    | inl z ↦ inl (ground arith)
    | inr nz ↦ inr (ground arith, (t, text, ground arith))
  ]
]

-- `strncpy` reads the text of its source only.
pub strncpy-c_string :
    (n : ℕ) (src s : List ℕ) → c_string src ≡ some s → strncpy n src ≡ strncpy n s
unfolding c_string strncpy
strncpy-c_string zero src s e = refl
strncpy-c_string (suc n) [] s e = cc
strncpy-c_string (suc n) (c ∷ cs) s e = elim (c_string-cons c cs s e) [
  | inl (z, none_left) ↦ rw (z, none_left) refl
  | inr (nz, (t, text, more)) ↦
      let go_on : (c == 0) ≡ false = ground (arith, nz) in
      rw (more, go_on) (rw (strncpy-c_string n cs t text) refl)
]

-- A text that is shorter than the target stays a text.
pub c_string-strncpy_text :
    (n : ℕ) (s : List ℕ) → All (λ c. c ≢ 0) s → length s < n → c_string (strncpy n s) ≡ some s
unfolding c_string strncpy
c_string-strncpy_text zero s nonzero lt = absurd (omega arith)
c_string-strncpy_text (suc n) [] nonzero lt = refl
c_string-strncpy_text (suc n) (c ∷ cs) (first, nonzero) lt =
    ground (arith, c_string-strncpy_text n cs nonzero (omega arith))

-- The text of an array has no NUL, and is at most as long as what stands before the first NUL.
pub c_string-nonzero : (src s : List ℕ) → c_string src ≡ some s → All (λ c. c ≢ 0) s
unfolding c_string
c_string-nonzero [] s e = cc
c_string-nonzero (c ∷ cs) s e = elim (c_string-cons c cs s e) [
  | inl (z, none_left) ↦ rw none_left tt
  | inr (nz, (t, text, more)) ↦ rw more (nz, c_string-nonzero cs t text)
]

pub c_string-cut :
    (m : Mem) (o n k : ℕ)
    → k < n
    → m (o + k) ≡ 0
    → (s : List ℕ) × (c_string (bytes m o n) ≡ some s) × (length s ≤ k)
unfolding c_string bytes
c_string-cut m o zero k lt nul = absurd (omega arith)
c_string-cut m o (suc n) zero lt nul =
    let here : m o ≡ 0 = ap m (omega arith) ∙ nul in ([], rw here refl, omega arith)
c_string-cut m o (suc n) (suc k) lt nul = elim (Bool-cases (m o == 0)) [
  | inl e ↦ ([], rw e refl, omega arith)
  | inr e ↦
      let (s, text, short) = c_string-cut m (suc o) n k (omega arith) (ap m (omega arith) ∙ nul) in
      (m o ∷ s, rw (e, text) refl, omega arith)
]

put_bytes-first :
    (m : Mem) (o : ℕ) (s : List ℕ) (i : ℕ)
    → i < length s
    → put_bytes m o (s ++ 0 ∷ []) (o + i) ≡ get_or s i 0
put_bytes-first m o s i lt =
    put_bytes-at m o (s ++ 0 ∷ []) i
    ∙ get_or-append s (0 ∷ []) i (m (o + i)) lt
    ∙ get_or_default s i (m (o + i)) 0 lt
  where
    get_or-append : (s t : List ℕ) (i d : ℕ) → i < length s → get_or (s ++ t) i d ≡ get_or s i d
    get_or-append [] t i d lt = absurd (omega arith)
    get_or-append (c ∷ s) t zero d lt = refl
    get_or-append (c ∷ s) t (suc i) d lt = get_or-append s t i d (omega arith)

put_bytes-nul : (m : Mem) (o : ℕ) (s : List ℕ) → put_bytes m o (s ++ 0 ∷ []) (o + length s) ≡ 0
put_bytes-nul m o s = put_bytes-at m o (s ++ 0 ∷ []) (length s) ∙ at_end s (m (o + length s))
  where
    at_end : (s : List ℕ) (d : ℕ) → get_or (s ++ 0 ∷ []) (length s) d ≡ 0
    at_end [] d = refl
    at_end (c ∷ s) d = at_end s d

-- A text with its NUL, written into a buffer that it fits.
pub c_string-put_bytes :
    (m : Mem) (o n : ℕ) (s : List ℕ)
    → length s < n
    → All (λ c. c ≢ 0) s
    → c_string (bytes (put_bytes m o (s ++ 0 ∷ [])) o n) ≡ some s
c_string-put_bytes m o n s fits nonzero =
    c_string-bytes (put_bytes m o (s ++ 0 ∷ [])) o n s fits nonzero
      (λ i lt. put_bytes-first m o s i lt) (put_bytes-nul m o s)

-- The same buffer with the last character of the text `s ++ c` cut off.
pub c_string-put_cut :
    (m : Mem) (n : ℕ) (s : List ℕ) (c : ℕ)
    → length s < n
    → All (λ c. c ≢ 0) s
    → c_string
        (bytes (put (put_bytes m 0 ((s ++ c ∷ []) ++ 0 ∷ [])) (length (s ++ c ∷ []) - 1) 0) 0 n)
      ≡ some s
c_string-put_cut m n s c fits nonzero =
    let many : length (s ++ c ∷ []) ≡ length s + 1 = length-snoc s c in
    let full = put_bytes m 0 ((s ++ c ∷ []) ++ 0 ∷ []) in
    let last : length (s ++ c ∷ []) - 1 ≡ length s = omega (arith, many) in
    rw last (
      c_string-bytes (put full (length s) 0) 0 n s fits nonzero
        (λ i lt.
          put-ne full (length s) 0 (0 + i) (omega arith)
          ∙ put_bytes-first m 0 (s ++ c ∷ []) i (omega (arith, many))
          ∙ snoc-at s i lt)
        (ap (put full (length s) 0) (omega arith) ∙ put_self full (length s) 0))
  where
    snoc-at : (s : List ℕ) (i : ℕ) → i < length s → get_or (s ++ c ∷ []) i 0 ≡ get_or s i 0
    snoc-at [] i lt = absurd (omega arith)
    snoc-at (b ∷ s) zero lt = refl
    snoc-at (b ∷ s) (suc i) lt = snoc-at s i (omega arith)
