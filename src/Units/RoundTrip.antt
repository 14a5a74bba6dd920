-- ===== src/Units/RoundTrip.antt =====
-- Files of units (units/*.units) that are written are read back by `unit_deque_init` (src/unit.c).
use intellect_battle.Prelude.{
  ℕ, zero, suc, ◌+◌, ◌<◌, ◌≡◌, refl, ap, ◌∙◌, true, false, some, List, [], ◌∷◌, ◌++◌, map, length,
  All, arith,
}
use mathlib.Core.List.{append_assoc}
use intellect_battle.Memory.{Mem}
use intellect_battle.Packet.{q_len, a_len}
use intellect_battle.Units.Lines.{Reader}
use intellect_battle.Units.Parse.{Quiz, ok, ◌>=>◌, read_rans, read_unit, read_units, is_loaded}
use intellect_battle.Units.Listing.{collect}
use intellect_battle.Units.Cards.{
  Card, IsCard, quiz, print_card, At, read_text_lem, read_rans-closed, read_rans-last,
}

module _ (k : Card) (proper : IsCard k) where
  -- The five texts of a unit, before its number.
  abbrev pub texts_then : List ℕ → List ℕ
  texts_then more =
      k.quest ++ (10 ∷ (k.a ++ (10 ∷ (k.b ++ (10 ∷ (k.c ++ (10 ∷ (k.d ++ (10 ∷ more)))))))))

  -- A unit whose number is read.
  pub read_unit_lem :
      (r : Reader) (more : List ℕ) (Q : Reader → Type 0)
      → At (texts_then more) false false r
      → ((r' : Reader)
          → At more false false r'
          → (r'' : Reader) × (read_rans r' ≡ some (k.right, r'')) × Q r'')
      → (r'' : Reader) × (read_unit r ≡ some (quiz k, r'')) × Q r''
  unfolding read_unit
  read_unit_lem r more Q at number =
      let (r1, e1, at1) = read_text_lem q_len r k.quest _ (omega arith) proper.quest at in
      let (r2, e2, at2) = read_text_lem a_len r1 k.a _ (omega arith) proper.a at1 in
      let (r3, e3, at3) = read_text_lem a_len r2 k.b _ (omega arith) proper.b at2 in
      let (r4, e4, at4) = read_text_lem a_len r3 k.c _ (omega arith) proper.c at3 in
      let (r5, e5, at5) = read_text_lem a_len r4 k.d _ (omega arith) proper.d at4 in
      let (r6, e6, q) = number r5 at5 in (r6, rw e1 (rw e2 (rw e3 (rw e4 (rw e5 (rw e6 refl))))), q)

-- A whole file: a newline between two units, and none at the end.
unfoldable pub print : List Card → List ℕ
unfolding print_card
print [] = []
print (k ∷ []) = print_card k []
print (k ∷ l ∷ ks) = print_card k (10 ∷ print (l ∷ ks))

collect-card :
    (qs : List Quiz) (k : Card) → IsCard k → collect qs (quiz k) false ≡ ok (qs ++ quiz k ∷ [])
unfolding collect is_loaded
collect-card qs k proper = ground (arith, proper.least, proper.most)

module _ (fresh : Mem → Mem) where
  abbrev pub begun : List ℕ → Mem → Reader
  begun content input = record {
    file = record { rest = content; eof = false };
    input = fresh input;
    error_flag = false;
  }

  pub read_units-round :
      (fuel : ℕ) (content : List ℕ) (input : Mem) (qs : List Quiz) (k : Card) (r : Reader)
      → IsCard k
      → read_unit (begun content input) ≡ some (quiz k, r)
      → r.error_flag ≡ false
      → read_units collect fresh (suc fuel) (record { rest = content; eof = false }) input qs
        ≡ read_units collect fresh fuel r.file r.input (qs ++ quiz k ∷ [])
  unfolding read_units
  read_units-round fuel content input qs k r proper reads fine = rw reads (
      ap (λ e. collect qs (quiz k) e >=> λ s. read_units collect fresh fuel r.file r.input s) fine
      ∙ rw (collect-card qs k proper) refl)

  pub read_units-print :
      (ks : List Card) (k : Card) (fuel : ℕ) (input : Mem) (qs : List Quiz)
      → IsCard k
      → All IsCard ks
      → length ks + 1 < fuel
      → (input' : Mem) × (read_units collect fresh fuel
            (record { rest = print (k ∷ ks); eof = false })
            input
            qs
          ≡ ok (input', qs ++ map quiz (k ∷ ks)))
  unfolding print
  read_units-print ks k zero input qs proper rest enough = absurd (omega arith)
  read_units-print ks k (suc zero) input qs proper rest enough = absurd (omega arith)
  read_units-print [] k (suc (suc fuel)) input qs proper rest enough =
      let (r, reads, at) =
        read_unit_lem k proper (begun (print (k ∷ [])) input) ((48 + k.right) ∷ [])
          (At [] true false) (record { left = refl; ended = refl; flagged = refl })
          (λ r' at'. read_rans-last r' k.right proper.most at') in
      (
        r.input,
        read_units-round (suc fuel) (print (k ∷ [])) input qs k r proper reads at.flagged
            ∙ ap (λ f. read_units collect fresh (suc fuel) f r.input (qs ++ quiz k ∷ []))
                (λ i. record { rest = at.left i; eof = at.ended i })
            ∙ unfold read_units in refl,
      )
  read_units-print (l ∷ ks) k (suc (suc fuel)) input qs proper (next, rest) enough =
      let (r, reads, at) =
        read_unit_lem k proper (begun (print (k ∷ l ∷ ks)) input)
          ((48 + k.right) ∷ (10 ∷ print (l ∷ ks))) (At (print (l ∷ ks)) false false)
          (record { left = refl; ended = refl; flagged = refl })
          (λ r' at'.
            let (r'', e, left, _) = read_rans-closed r' k.right (print (l ∷ ks)) proper.most at' in
            (r'', e, left)) in
      let (input', more) =
        read_units-print ks l (suc fuel) r.input (qs ++ quiz k ∷ []) next rest (omega arith) in
      (
        input',
        read_units-round (suc fuel) (print (k ∷ l ∷ ks)) input qs k r proper reads at.flagged
            ∙ ap (λ f. read_units collect fresh (suc fuel) f r.input (qs ++ quiz k ∷ []))
                (λ i. record { rest = at.left i; eof = at.ended i })
            ∙ more
            ∙ rw append_assoc refl,
      )
