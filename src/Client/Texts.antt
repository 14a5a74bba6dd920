-- ===== src/Client/Texts.antt =====
-- How `game_loop` of src/client.c prints a question and its answers (lines 456 to 474).
use intellect_battle.Prelude.{
  ◌/◌, ◌%◌, ◌&&◌, not, Bool, leb, ltb, false, ◌==◌, ℕ, zero, suc, ◌+◌, ◌-◌, ◌<◌, ◌≤◌, ◌≡◌, refl,
  inl, inr, true, Option, some, List, [], ◌∷◌, ◌>>=◌, length, arith, All, Returns, returns, bind,
}
use intellect_battle.Memory.{c_string}
use intellect_battle.Memory.Buffers.{c_string-cons}
use intellect_battle.Packet.{q_len, a_len, ans_count}
use intellect_battle.Client.Logic.{ShownUnit}
use intellect_battle.Client.Menu.{answer_width, question_height}
use intellect_battle.Client.Windows.{
  Window, derwin, answer, answer_height, question_window, question_width,
}
use intellect_battle.Client.Drawing.{format_text}

-- A text from the start of a window on.
pub record Text : Type 0 where
  pub window : Window
  pub text : List ℕ

-- `wprintw(win, array)`: the text is a format. One that asks for arguments has no defined result, and neither has
-- an array without a NUL.
unfoldable pub wprintw : Window → List ℕ → Option Text
unfolding format_text
wprintw win array = c_string array >>= λ format.
    format_text format >>= λ text. some (record { window = win; text = text })

-- The loop of lines 465 to 474.
unfoldable pub print_answers : ShownUnit → (rounds it : ℕ) → Option (List Text)
unfolding wprintw
print_answers question zero it = some []
print_answers question (suc rounds) it =
    let later = print_answers question rounds (suc it) in
    wprintw (derwin (answer it) (answer_height - 2) (answer_width - 2) 1 1) (question.ans it)
    >>= λ shown. later >>= λ more. some (shown ∷ more)

-- Lines 456 to 474.
unfoldable pub print_unit : ShownUnit → Option (List Text)
unfolding wprintw print_answers
print_unit question =
    wprintw (derwin question_window (question_height - 2) (question_width - 2) 1 1) question.quest
    >>= λ shown. print_answers question ans_count 0 >>= λ more. some (shown ∷ more)

-- The cell of a window of this width that the `i`-th character comes to, when the text is printed from the
-- first cell on and each character takes one cell: the row and the column.
abbrev pub cell_of : (width i : ℕ) → ℕ × ℕ
cell_of width i = (i / width, i % width)

-- The byte is a printable character of ASCII: no control character, which would move the cursor, and
-- no part of a longer one. The format's `%` is excluded too.
unfoldable pub is_printable : ℕ → Bool
is_printable c = leb 32 c && ltb c 127 && not (c == b'%')

-- An array of at most `size` bytes with a NUL, whose text is printable.
abbrev pub IsPrintable : (size : ℕ) → List ℕ → Type 0
IsPrintable size array =
    (length array ≤ size)
    × ((s : List ℕ) × (c_string array ≡ some s) × All (λ c. is_printable c ≡ true) s)

-- The window shows the text of the array: every character has a cell inside.
pub record Shows (win : Window) (array : List ℕ) (t : Text) : Type 0 where
  pub at : t.window ≡ win
  pub whole : c_string array ≡ some t.text
  pub inside :
      (i : ℕ)
      → i < length t.text
      → ((cell_of win.width i).0 < win.height) × ((cell_of win.width i).1 < win.width)

-- The windows with these arrays, one by one.
abbrev pub ShowAll : List (Window × List ℕ) → List Text → Type 0
ShowAll [] [] = Unit
ShowAll [] (t ∷ ts) = ⊥
ShowAll (b ∷ bs) [] = ⊥
ShowAll ((win, array) ∷ bs) (t ∷ ts) = Shows win array t × ShowAll bs ts

-- The inside of a frame.
abbrev pub inner : Window → Window
inner win = derwin win (win.height - 2) (win.width - 2) 1 1

abbrev pub answer_texts : ShownUnit → (rounds it : ℕ) → List (Window × List ℕ)
answer_texts question zero it = []
answer_texts question (suc rounds) it =
    (inner (answer it), question.ans it) ∷ answer_texts question rounds (suc it)

length-c_string : (array s : List ℕ) → c_string array ≡ some s → length s < length array
unfolding c_string
length-c_string [] s e = cc
length-c_string (c ∷ cs) s e = elim (c_string-cons c cs s e) [
  | inl (nul, empty) ↦ rw empty (omega arith)
  | inr (more, (t, text, same)) ↦ let shorter = length-c_string cs t text in rw same (omega arith)
]

format_text-printable : (s : List ℕ) → All (λ c. is_printable c ≡ true) s → format_text s ≡ some s
unfolding format_text is_printable
format_text-printable [] all = refl
format_text-printable (c ∷ []) (here, later) =
    let other : (c == b'%') ≡ false = ground arith in rw other refl
format_text-printable (c ∷ d ∷ cs) (here, later) =
    let other : (c == b'%') ≡ false = ground arith in
    rw (other, format_text-printable (d ∷ cs) later) refl

wprintw-Shows :
    (win : Window) (size : ℕ) (array : List ℕ)
    → IsPrintable size array
    → ((i : ℕ)
        → i + 1 < size
        → ((cell_of win.width i).0 < win.height) × ((cell_of win.width i).1 < win.width))
    → Returns (Shows win array) (wprintw win array)
unfolding wprintw
wprintw-Shows win size array (sized, (s, text, printable)) room =
    let shorter = length-c_string array s text in
    rw (text, format_text-printable s printable)
      (returns (record { at = refl; whole = text; inside = λ i below. room i (omega arith) }))

print_answers-Shows :
    (question : ShownUnit) (rounds it : ℕ)
    → ((i : ℕ) → i < ans_count → IsPrintable a_len (question.ans i))
    → it + rounds ≤ ans_count
    → Returns (ShowAll (answer_texts question rounds it)) (print_answers question rounds it)
unfolding print_answers answer
print_answers-Shows question zero it printable within = returns tt
print_answers-Shows question (suc rounds) it printable within =
    bind
      (wprintw-Shows (inner (answer it)) a_len (question.ans it) (printable it (omega arith))
        (λ i below. (omega arith, omega arith)))
      λ shown shows.
        bind (print_answers-Shows question rounds (suc it) printable (omega arith))
          λ more rest. returns (shows, rest)

-- A question and four answers whose texts end within their arrays (of 202 and 82 bytes) and are of printable
-- ASCII characters without `%`: the question's window shows the question and each answer's window its
-- answer, every character in a cell inside the frame.
pub print_unit-Shows :
    (question : ShownUnit)
    → IsPrintable q_len question.quest
    → ((i : ℕ) → i < ans_count → IsPrintable a_len (question.ans i))
    → Returns
        (ShowAll ((inner question_window, question.quest) ∷ answer_texts question 4 0))
        (print_unit question)
unfolding print_unit question_window
print_unit-Shows question quest printable =
    bind
      (wprintw-Shows (inner question_window) q_len question.quest quest
        (λ i below. (omega arith, omega arith)))
      λ shown shows.
        bind (print_answers-Shows question 4 0 printable (omega arith))
          λ more rest. returns (shows, rest)
