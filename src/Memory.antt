-- ===== src/Memory.antt =====
-- Byte memory of a C object, and the string functions of libc that the program calls on it.
pub mod Laws
pub mod Text
pub mod Buffers
use intellect_battle.Prelude.{
  ℕ, zero, suc, ◌+◌, ◌-◌, ◌*◌, Option, none, some, List, [], ◌∷◌, ◌++◌, ltb, ◌==◌, if◌then◌else◌,
  get_or, replicate, ◌>>=◌,
}

-- The bytes of an object by offset.
abbrev pub Mem : Type 0
Mem = ℕ → ℕ

-- A store of one byte.
unfoldable pub put : Mem → ℕ → ℕ → Mem
put m o v = λ i. if i == o then v else m i

-- A copy of several bytes to consecutive offsets.
unfoldable pub put_bytes : Mem → ℕ → List ℕ → Mem
put_bytes m o bs = λ i. if ltb i o then m i else get_or bs (i - o) (m i)

-- `bzero`.
unfoldable pub bzero : Mem → ℕ → Mem
bzero m n = λ i. if ltb i n then 0 else m i

-- The `n` bytes from an offset on.
unfoldable pub bytes : Mem → ℕ → ℕ → List ℕ
bytes m o zero = []
bytes m o (suc n) = m o ∷ bytes m (suc o) n

-- A small `int`, stored little-endian.
unfoldable pub put_int : Mem → ℕ → ℕ → Mem
unfolding put_bytes
put_int m o v = put_bytes m o (v ∷ 0 ∷ 0 ∷ 0 ∷ [])

unfoldable pub get_int : Mem → ℕ → ℕ
get_int m o = m o + 256 * m (o + 1) + 65536 * m (o + 2) + 16777216 * m (o + 3)

-- The text that a char array holds, up to its first NUL: `none` if the array has none, where C
-- reads past its end.
unfoldable pub c_string : List ℕ → Option (List ℕ)
c_string [] = none
c_string (c ∷ cs) = if c == 0 then some [] else (c_string cs >>= λ s. some (c ∷ s))

-- `strcpy` of a char array to an offset.
unfoldable pub strcpy : Mem → ℕ → List ℕ → Option Mem
unfolding c_string put_bytes
strcpy m o src = c_string src >>= λ s. some (put_bytes m o (s ++ 0 ∷ []))

-- What `strncpy` writes: `n` bytes of the text, and NULs once the text has ended.
unfoldable pub strncpy : ℕ → List ℕ → List ℕ
strncpy zero src = []
strncpy (suc n) [] = 0 ∷ replicate n 0
strncpy (suc n) (c ∷ cs) = if c == 0 then 0 ∷ replicate n 0 else c ∷ strncpy n cs
