-- ===== src/Memory/Text.antt =====
-- Texts in char arrays: what `strncpy` and a terminated buffer keep of them.
use intellect_battle.Prelude.{
  ℕ, zero, suc, ◌+◌, ◌<◌, ◌≤◌, ◌≡◌, ◌≢◌, refl, ap, ◌∙◌, some, List, [], ◌∷◌, arith, length,
  length-replicate, get_or, take, sym, All, ◌==◌, Bool-cases, Option-cases, inl, inr, false,
}
use intellect_battle.Memory.{Mem, put_bytes, c_string, bytes, strncpy}
use intellect_battle.Memory.Laws.{put_bytes-at, get_or_default}

pub length-strncpy : (n : ℕ) (src : List ℕ) → length (strncpy n src) ≡ n
unfolding strncpy
length-strncpy zero src = refl
length-strncpy (suc n) [] = ap suc (length-replicate n 0)
length-strncpy (suc n) (c ∷ cs) = ground (arith, length-strncpy n cs, length-replicate {A = ℕ} n 0)

-- `strncpy` into an array that the text's array fits keeps the text.
pub c_string-strncpy :
    (n : ℕ) (src : List ℕ) {s : List ℕ}
    → c_string src ≡ some s
    → length src ≤ n
    → c_string (strncpy n src) ≡ some s
unfolding c_string strncpy
c_string-strncpy n [] e fits = cc
c_string-strncpy zero (c ∷ cs) e fits = absurd (omega arith)
c_string-strncpy (suc n) (c ∷ cs) e fits = elim (Option-cases (c_string cs)) [
  | inl none_left ↦ ground (arith, none_left)
  | inr (t, text) ↦ ground (arith, text, c_string-strncpy n cs text (omega arith))
]

-- A NUL within the array ends some text.
pub c_string-ends :
    (m : Mem) (o n k : ℕ) → k < n → m (o + k) ≡ 0 → (s : List ℕ) × (c_string (bytes m o n) ≡ some s)
unfolding c_string bytes
c_string-ends m o zero k lt nul = absurd (omega arith)
c_string-ends m o (suc n) zero lt nul =
    let here : m o ≡ 0 = ap m (omega arith) ∙ nul in ([], rw here refl)
c_string-ends m o (suc n) (suc k) lt nul = elim (Bool-cases (m o == 0)) [
  | inl e ↦ ([], rw e refl)
  | inr e ↦
      let (s, text) = c_string-ends m (suc o) n k (omega arith) (ap m (omega arith) ∙ nul) in
      (m o ∷ s, rw (e, text) refl)
]

-- Nonzero bytes and then a NUL are the text.
pub c_string-bytes :
    (m : Mem) (o n : ℕ) (name : List ℕ)
    → length name < n
    → All (λ c. c ≢ 0) name
    → ((i : ℕ) → i < length name → m (o + i) ≡ get_or name i 0)
    → m (o + length name) ≡ 0
    → c_string (bytes m o n) ≡ some name
unfolding c_string bytes
c_string-bytes m o zero name fits nonzero same nul = absurd (omega arith)
c_string-bytes m o (suc n) [] fits nonzero same nul =
    let here : m o ≡ 0 = ap m (omega arith) ∙ nul in rw here refl
c_string-bytes m o (suc n) (c ∷ cs) fits (c_nonzero, nonzero) same nul =
    let here : m o ≡ c = ap m (omega arith) ∙ same 0 (omega arith) in
    let rest =
      c_string-bytes m (suc o) n cs (omega arith) nonzero
        (λ i lt. ap m (omega arith) ∙ same (suc i) (omega arith)) (ap m (omega arith) ∙ nul) in
    let go_on : (c == 0) ≡ false = ground arith in rw (here, go_on, rest) refl

-- A block of bytes is the list that it agrees with entry by entry.
bytes-eq :
    (m : Mem) (o : ℕ) (bs : List ℕ)
    → ((i : ℕ) → i < length bs → m (o + i) ≡ get_or bs i 0)
    → bytes m o (length bs) ≡ bs
unfolding bytes
bytes-eq m o [] same = refl
bytes-eq m o (b ∷ bs) same =
    let here : m o ≡ b = ap m (omega arith) ∙ same 0 (omega arith) in
    let rest = bytes-eq m (suc o) bs (λ i lt. ap m (omega arith) ∙ same (suc i) (omega arith)) in
    rw (here, rest) refl

-- What `put_bytes` writes can be read back.
pub bytes-put_bytes :
    (m : Mem) (o n : ℕ) (bs : List ℕ) → length bs ≡ n → bytes (put_bytes m o bs) o n ≡ bs
bytes-put_bytes m o n bs e =
    ap (bytes (put_bytes m o bs) o) (sym e)
    ∙ bytes-eq (put_bytes m o bs) o bs
        (λ i lt. put_bytes-at m o bs i ∙ get_or_default bs i (m (o + i)) 0 lt)

-- Within a text of nonzero bytes `strncpy` is a plain copy.
pub strncpy-eq-take :
    (n : ℕ) (name : List ℕ) → All (λ c. c ≢ 0) name → n ≤ length name → strncpy n name ≡ take n name
unfolding strncpy
strncpy-eq-take zero name nonzero fits = refl
strncpy-eq-take (suc n) [] nonzero fits = absurd (omega arith)
strncpy-eq-take (suc n) (c ∷ cs) (c_nonzero, nonzero) fits =
    let go_on : (c == 0) ≡ false = ground arith in
    rw (go_on, strncpy-eq-take n cs nonzero (omega arith)) refl

pub take-all : (n : ℕ) (xs : List ℕ) → length xs ≤ n → take n xs ≡ xs
take-all zero [] fits = refl
take-all zero (x ∷ xs) fits = absurd (omega arith)
take-all (suc n) [] fits = refl
take-all (suc n) (x ∷ xs) fits = ap (λ ys. x ∷ ys) (take-all n xs (omega arith))

pub All-take : (P : ℕ → Type 0) (n : ℕ) (xs : List ℕ) → All P xs → All P (take n xs)
All-take P zero xs h = tt
All-take P (suc n) [] h = tt
All-take P (suc n) (x ∷ xs) h = (h.0, All-take P n xs h.1)

-- A text that is not empty begins with the array's first byte.
pub c_string-first :
    (src : List ℕ) (c : ℕ) (cs : List ℕ)
    → c_string src ≡ some (c ∷ cs)
    → (get_or src 0 0 ≡ c) × (c ≢ 0)
unfolding c_string
c_string-first [] c cs e = cc
c_string-first (b ∷ bs) c cs e = ground arith
