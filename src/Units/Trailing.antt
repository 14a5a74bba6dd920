-- ===== src/Units/Trailing.antt =====
-- A file whose last line is closed by a newline, as units/starter_pack.units: the loop of
-- `unit_deque_init` (src/unit.c) goes round once more, and writes outside of `input`.
use intellect_battle.Prelude.{
  ℕ, zero, suc, ◌+◌, ◌-◌, ◌≤◌, ◌≡◌, ◌≢◌, refl, ap, ◌∙◌, Bool, true, false, ◌||◌, none, some, List,
  [], ◌∷◌, ◌++◌, length, All, arith, ltb, ltb-eq-false, ◌==◌,
}
use intellect_battle.Memory.{Mem, put, put_bytes, bytes, c_string, strncpy}
use intellect_battle.Memory.Laws.{put_self}
use intellect_battle.Memory.Buffers.{c_string-put_bytes, c_string-put_cut}
use intellect_battle.Packet.{q_len, a_len}
use intellect_battle.Units.{Heap, Ptr}
use intellect_battle.Units.Lines.{Reader, take_line, read_line, input_text, read_text}
use intellect_battle.Units.Parse.{
  Quiz, Entry, undefined, read_unit, read_units, read_entries, is_units,
}
use intellect_battle.Units.Load.{unit_deque_init}
use intellect_battle.Units.Listing.{collect, listing}
use intellect_battle.Units.Cards.{Card, IsCard, quiz, print_card, At, read_rans-closed}
use intellect_battle.Units.Deque.{IsFresh}
use intellect_battle.Units.Refinement.{unit_deque_init-undefined}
use intellect_battle.Units.Decks.{print_card-longer}
use intellect_battle.Units.RoundTrip.{read_unit_lem, read_units-round, begun}

-- At the end of the file nothing is read.
read_line-end :
    (input : Mem) (eof error_flag : Bool)
    → read_line
        (record { file = record { rest = []; eof = eof }; input = input; error_flag = error_flag })
      ≡ record { file = record { rest = []; eof = eof || true }; input = input; error_flag = true }
unfolding read_line take_line
read_line-end input eof error_flag = refl

-- The array holds a text of one character, and then none.
first_nul : (m : Mem) (n : ℕ) → m 0 ≡ 0 → c_string (bytes m 0 (suc n)) ≡ some []
unfolding c_string bytes
first_nul m n z = rw z refl

read_text-end :
    (size : ℕ) (input : Mem) (eof error_flag : Bool) (s : List ℕ)
    → c_string (bytes input 0 405) ≡ some s
    → (length s == 0) ≡ false
    → read_text size
        (record { file = record { rest = []; eof = eof }; input = input; error_flag = error_flag })
      ≡ some (
        strncpy size (bytes (put input (length s - 1) 0) 0 405),
        record {
          file = record { rest = []; eof = eof || true };
          input = put input (length s - 1) 0;
          error_flag = true || ltb (size - 1) (length s);
        },
      )
unfolding read_text input_text
read_text-end size input eof error_flag s text long =
    rw (read_line-end input eof error_flag) (rw text (rw long refl))

read_text-stops :
    (size : ℕ) (input : Mem) (eof error_flag : Bool)
    → c_string (bytes input 0 405) ≡ some []
    → read_text size
        (record { file = record { rest = []; eof = eof }; input = input; error_flag = error_flag })
      ≡ none
unfolding read_text input_text
read_text-stops size input eof error_flag text =
    rw (read_line-end input eof error_flag) (rw text refl)

-- The round after the last unit, where `input` still holds the last line.
read_unit-end :
    (m : Mem) (c : ℕ)
    → c ≢ 0
    → read_unit (record {
      file = record { rest = []; eof = false };
      input = put_bytes m 0 (c ∷ 10 ∷ 0 ∷ []);
      error_flag = false;
    })
      ≡ none
unfolding read_unit
read_unit-end m c nonzero =
    let line = put_bytes m 0 (c ∷ 10 ∷ 0 ∷ []) in
    let cut = put line 1 0 in
    let first =
      read_text-end q_len line false false (c ∷ 10 ∷ [])
        (c_string-put_bytes m 0 405 (c ∷ 10 ∷ []) (omega arith) (nonzero, (omega arith, tt)))
        refl in
    let second =
      read_text-end a_len cut true true (c ∷ [])
        (c_string-put_cut m 405 (c ∷ []) 10 (omega arith) (nonzero, tt)) refl in
    let third =
      read_text-stops a_len (put cut 0 0) true true
        (first_nul (put cut 0 0) 404 (put_self cut 0 0)) in
    rw first (rw second (rw third refl))

-- A file with every line closed.
unfoldable pub print_closed : List Card → List ℕ
unfolding print_card
print_closed [] = []
print_closed (k ∷ ks) = print_card k (10 ∷ print_closed ks)

-- The array keeps what it holds from one round to the next: gcc gives it the same place on the stack.
abbrev pub kept : Mem → Mem
kept m = m

-- After a closed unit.
abbrev Closed : ℕ → List ℕ → Reader → Type 0
Closed right more r =
    At more false false r × ((m : Mem) × (r.input ≡ put_bytes m 0 ((48 + right) ∷ 10 ∷ 0 ∷ [])))

read_units-after :
    (fuel : ℕ) (m : Mem) (right : ℕ) (qs : List Quiz)
    → read_units collect kept
        (suc fuel)
        (record { rest = []; eof = false })
        (put_bytes m 0 ((48 + right) ∷ 10 ∷ 0 ∷ []))
        qs
      ≡ undefined
unfolding read_units
read_units-after fuel m right qs = rw (read_unit-end m (48 + right) (omega arith)) refl

-- One round of the loop, on a closed unit.
read_units-one :
    (ks : List Card) (k : Card) (fuel : ℕ) (input : Mem) (qs : List Quiz)
    → IsCard k
    → (m : Mem) × (read_units collect kept
          (suc fuel)
          (record { rest = print_closed (k ∷ ks); eof = false })
          input
          qs
        ≡ read_units collect kept fuel
            (record { rest = print_closed ks; eof = false })
            (put_bytes m 0 ((48 + k.right) ∷ 10 ∷ 0 ∷ []))
            (qs ++ quiz k ∷ []))
unfolding print_closed
read_units-one ks k fuel input qs proper =
    let (r, reads, (at, (m, holds))) =
      read_unit_lem k proper (begun kept (print_closed (k ∷ ks)) input)
        ((48 + k.right) ∷ (10 ∷ print_closed ks)) (Closed k.right (print_closed ks))
        (record { left = refl; ended = refl; flagged = refl })
        (λ r' at'.
          let (r'', e, left, held) =
            read_rans-closed r' k.right (print_closed ks) proper.most at' in
          (r'', e, (left, held))) in
    (
      m,
      read_units-round kept fuel (print_closed (k ∷ ks)) input qs k r proper reads at.flagged
          ∙ ap (λ f. read_units collect kept fuel f r.input (qs ++ quiz k ∷ []))
              (λ i. record { rest = at.left i; eof = at.ended i })
          ∙ ap
              (λ b.
                read_units collect kept fuel (record { rest = print_closed ks; eof = false }) b
                  (qs ++ quiz k ∷ []))
              holds,
    )

read_units-closed :
    (ks : List Card) (k : Card) (fuel : ℕ) (input : Mem) (qs : List Quiz)
    → IsCard k
    → All IsCard ks
    → length ks + 2 ≤ fuel
    → read_units collect kept fuel (record { rest = print_closed (k ∷ ks); eof = false }) input qs
      ≡ undefined
read_units-closed ks k zero input qs proper rest enough = absurd (omega arith)
read_units-closed ks k (suc zero) input qs proper rest enough = absurd (omega arith)
read_units-closed [] k (suc (suc fuel)) input qs proper rest enough =
    let (m, round) = read_units-one [] k (suc fuel) input qs proper in
    round ∙ unfold print_closed in read_units-after fuel m k.right (qs ++ quiz k ∷ [])
read_units-closed (l ∷ ks) k (suc (suc fuel)) input qs proper (next, rest) enough =
    let (m, round) = read_units-one (l ∷ ks) k (suc fuel) input qs proper in
    round
    ∙ read_units-closed ks l (suc fuel) (put_bytes m 0 ((48 + k.right) ∷ 10 ∷ 0 ∷ []))
        (qs ++ quiz k ∷ []) next rest (omega arith)

length-le-print_closed : (ks : List Card) → length ks ≤ length (print_closed ks)
unfolding print_closed
length-le-print_closed [] = omega arith
length-le-print_closed (k ∷ ks) =
    omega (arith, print_card-longer k (10 ∷ print_closed ks), length-le-print_closed ks)

listing-closed :
    (name : List ℕ) (k : Card) (ks : List Card) (es : List Entry) (input : Mem)
    → is_units name ≡ true
    → length name ≤ 246
    → IsCard k
    → All IsCard ks
    → listing kept input (record { name = name; content = some (print_closed (k ∷ ks)) } ∷ es)
      ≡ undefined
unfolding listing read_entries
listing-closed name k ks es input named fits proper rest =
    let short : ltb 246 (length name) ≡ false = ltb-eq-false 246 (length name) fits in
    let round =
      read_units-closed ks k (length (print_closed (k ∷ ks)) + 2) input [] proper rest
        (omega (arith, length-le-print_closed (k ∷ ks))) in
    rw (named, short, round) refl

-- The first file of the directory whose name ends in ".units" holds proper units and closes its last line with a
-- newline, as units/starter_pack.units does, and the array `input` keeps its content from round to
-- round: then `unit_deque_init` has no defined result, whatever the other files are. After the last
-- unit the end of the file is not noticed yet, and the round that follows cuts the empty text in
-- `input`, which writes before the array.
pub trailing_newline-undefined :
    (calloc : ℕ → Ptr) (input : Mem) (name : List ℕ) (k : Card) (ks : List Card) (es : List Entry)
    (h : Heap)
    → IsFresh calloc h
    → is_units name ≡ true
    → length name ≤ 246
    → IsCard k
    → All IsCard ks
    → unit_deque_init calloc kept input
        (some (record { name = name; content = some (print_closed (k ∷ ks)) } ∷ es))
        h
      ≡ undefined
trailing_newline-undefined calloc input name k ks es h new named fits proper rest =
    unit_deque_init-undefined calloc kept input _ h new
      (listing-closed name k ks es input named fits proper rest)
