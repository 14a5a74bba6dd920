-- ===== src/Units/Lines.antt =====
-- Reading a file by lines, as `unit_deque_init` (src/unit.c) does it: `fgets` into the array `input`.
use intellect_battle.Prelude.{
  ℕ, zero, suc, ◌+◌, ◌*◌, ◌-◌, Bool, true, false, ◌||◌, Option, none, some, List, [], ◌∷◌, ◌++◌,
  ◌==◌, ltb, if◌then◌else◌, ◌>>=◌, length,
}
use intellect_battle.Memory.{Mem, put, put_bytes, bytes, c_string, strncpy}
use intellect_battle.Packet.{q_len}

-- An open stream: what is left to read, and its end-of-file flag.
pub record File : Type 0 where
  pub rest : List ℕ
  pub eof : Bool

-- A line of at most so many characters, with its newline; what is left; and whether the end of the
-- file was met.
pub record Line : Type 0 where
  pub text : List ℕ
  pub rest : List ℕ
  pub met_end : Bool

unfoldable pub take_line : ℕ → List ℕ → Line
take_line zero cs = record { text = []; rest = cs; met_end = false }
take_line (suc n) [] = record { text = []; rest = []; met_end = true }
take_line (suc n) (c ∷ cs) =
    let more = take_line n cs in
    if c == 10
    then record { text = c ∷ []; rest = cs; met_end = false }
    else record more { text = c ∷ more.text }

-- A stream, the array `input`, and the flag `errorFlag`.
pub record Reader : Type 0 where
  pub file : File
  pub input : Mem
  pub error_flag : Bool

-- `sizeof(input)`
abbrev pub input_size : ℕ
input_size = q_len * 2 + 1

-- `fgets(input, Q_LEN * 2, unitFile)`, and `errorFlag = 1` where it returns NULL. Without a character
-- it leaves the array alone.
unfoldable pub read_line : Reader → Reader
unfolding take_line put_bytes
read_line r =
    let line = take_line (q_len * 2 - 1) r.file.rest in
    let file : File = record { rest = line.rest; eof = r.file.eof || line.met_end } in
    if length line.text == 0
    then record r { file = file; error_flag = true }
    else record r { file = file; input = put_bytes r.input 0 (line.text ++ 0 ∷ []) }

-- What `strlen` sees of the array. Without a NUL in it there is no defined result.
unfoldable pub input_text : Reader → Option (List ℕ)
unfolding bytes c_string
input_text r = c_string (bytes r.input 0 input_size)

-- Lines 58 to 66 and 69 to 77: a line, its length against the array it is for, its last character
-- cut off, and the copy. If the line is empty, `input[strlen(input) - 1]` is not in the array.
unfoldable pub read_text : (size : ℕ) → Reader → Option (List ℕ × Reader)
read_text size r =
    let got = read_line r in
    input_text got >>= λ s.
    let cut = put got.input (length s - 1) 0 in
    if length s == 0
    then none
    else some (
      strncpy size (bytes cut 0 input_size),
      record got { input = cut; error_flag = got.error_flag || ltb (size - 1) (length s) },
    )
