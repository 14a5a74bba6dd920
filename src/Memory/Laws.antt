-- ===== src/Memory/Laws.antt =====
-- Reading after writing: what `put`, `put_bytes` and the string functions leave alone.
use intellect_battle.Prelude.{
  ℕ, zero, suc, ◌+◌, ◌-◌, ◌<◌, ◌≤◌, ◌≡◌, ◌≢◌, refl, some, List, [], ◌∷◌, ◌++◌, arith, length,
  length-append, ◌∙◌, get_or, ltb-eq-false, ap,
}
use mathlib.Core.Path.{fun_ext}
use intellect_battle.Memory.{Mem, put, put_bytes, put_int, get_int, strcpy, c_string, bytes}

pub put-ne : (m : Mem) (o v i : ℕ) → i ≢ o → put m o v i ≡ m i
unfolding put
put-ne m o v i ne = ground arith

pub put_self : (m : Mem) (o v : ℕ) → put m o v o ≡ v
unfolding put
put_self m o v = ground arith

pub put_bytes-below : (m : Mem) (o : ℕ) (bs : List ℕ) (i : ℕ) → i < o → put_bytes m o bs i ≡ m i
unfolding put_bytes
put_bytes-below m o bs i lt = ground arith

pub put_bytes-at :
    (m : Mem) (o : ℕ) (bs : List ℕ) (i : ℕ) → put_bytes m o bs (o + i) ≡ get_or bs i (m (o + i))
unfolding put_bytes
put_bytes-at m o bs i =
    let back : o + i - o ≡ i = omega arith in rw (ltb-eq-false (o + i) o (omega arith), back) refl

-- A small number survives its storage as an `int`.
pub get_int-put_int : (m : Mem) (o v : ℕ) → get_int (put_int m o v) o ≡ v
unfolding get_int put_int put_bytes
get_int-put_int m o v = ground arith

-- `strcpy` writes from its target on.
pub strcpy-below :
    (m : Mem) (o : ℕ) (src : List ℕ) {m' : Mem} (i : ℕ)
    → strcpy m o src ≡ some m'
    → i < o
    → m' i ≡ m i
unfolding strcpy
strcpy-below m o src i e lt = ground arith

pub get_or_default : (xs : List ℕ) (i d e : ℕ) → i < length xs → get_or xs i d ≡ get_or xs i e
get_or_default [] i d e lt = absurd (omega arith)
get_or_default (x ∷ xs) zero d e lt = refl
get_or_default (x ∷ xs) (suc i) d e lt = get_or_default xs i d e (omega arith)

-- At its target `strcpy` leaves the text and its NUL.
pub strcpy-at :
    (m : Mem) (o : ℕ) (src s : List ℕ) {m' : Mem} (i : ℕ)
    → c_string src ≡ some s
    → strcpy m o src ≡ some m'
    → i ≤ length s
    → m' (o + i) ≡ get_or (s ++ 0 ∷ []) i 0
unfolding strcpy
strcpy-at m o src s {m'} i text e low =
    let same : put_bytes m o (s ++ 0 ∷ []) ≡ m' = cc in
    rw (← same) (
      put_bytes-at m o (s ++ 0 ∷ []) i
      ∙ get_or_default (s ++ 0 ∷ []) i (m (o + i)) 0 (omega (arith, length-append s (0 ∷ []))))

pub put_bytes-nil : (m : Mem) (o : ℕ) → put_bytes m o [] ≡ m
unfolding put_bytes
put_bytes-nil m o = fun_ext λ i. ground arith

-- A block of bytes depends on those bytes only.
pub bytes-cong :
    (m m' : Mem) (o n : ℕ) → ((i : ℕ) → o ≤ i → i < o + n → m i ≡ m' i) → bytes m o n ≡ bytes m' o n
unfolding bytes
bytes-cong m m' o zero same = refl
bytes-cong m m' o (suc n) same =
    let head = same o (omega arith) (omega arith) in
    let rest = bytes-cong m m' (suc o) n (λ i low high. same i (omega arith) (omega arith)) in cc

pub get_or-bytes : (m : Mem) (o n i d : ℕ) → i < n → get_or (bytes m o n) i d ≡ m (o + i)
unfolding bytes
get_or-bytes m o zero i d lt = absurd (omega arith)
get_or-bytes m o (suc n) zero d lt = ap m (omega arith)
get_or-bytes m o (suc n) (suc i) d lt =
    get_or-bytes m (suc o) n i d (omega arith) ∙ ap m (omega arith)

pub length-bytes : (m : Mem) (o n : ℕ) → length (bytes m o n) ≡ n
unfolding bytes
length-bytes m o zero = refl
length-bytes m o (suc n) = ap suc (length-bytes m (suc o) n)
