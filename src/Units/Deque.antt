-- ===== src/Units/Deque.antt =====
-- The list that `unit_deque_init` (src/unit.c) has built so far, as the units that it stands for.
use intellect_battle.Prelude.{
  ℕ, ◌+◌, ◌-◌, ◌<◌, ◌≤◌, ◌≡◌, ◌≢◌, refl, ap, sym, subst, ◌∙◌, ◌⊎◌, inl, inr, Bool, false, none,
  some, List, [], ◌∷◌, ◌++◌, ◌==◌, if◌then◌else◌, length, get_elem?, get_elem?-snoc,
  get_elem?-snoc_last, length-snoc, arith, Bool-cases,
}
use native.Mathlib.Decide.{dec_lt}
use intellect_battle.Units.{Heap, Ptr, UnitNode, null}
use intellect_battle.Units.Free.{update, update-other, update_self}
use intellect_battle.Units.Parse.{Quiz, ok, is_loaded}
use intellect_battle.Units.Load.{blank, fill, Deque, append, keep_unit, started}
use intellect_battle.Units.Listing.{collect}
use intellect_battle.Units.Alike.{Alike, both}
use intellect_battle.Units.Linking.{grown, grown-other, grown-first, append_lem}

-- What a node holds of a unit.
abbrev pub quiz_of : UnitNode → Quiz
quiz_of u = record { quest = u.quest; ans = u.ans; rans = u.rans }

-- The k-th node points back to the one before it.
abbrev pub Back : (ℕ → Ptr) → ℕ → UnitNode → Type 0
Back calloc k u = (k ≡ 0) ⊎ (u.prev ≡ calloc (k - 1))

-- The k-th node holds the k-th unit and is linked to its neighbours.
abbrev pub Holds : (ℕ → Ptr) → Heap → List Quiz → ℕ → Type 0
Holds calloc heap qs k =
    (u : UnitNode) × (heap (calloc k) ≡ some u)
    × (get_elem? qs k ≡ some (quiz_of u))
    × (u.next ≡ calloc (k + 1))
    × Back calloc k u

-- `calloc` returns addresses that are not null, not yet in the heap, and all different.
pub record IsFresh (calloc : ℕ → Ptr) (h : Heap) : Type 0 where
  pub real : (k : ℕ) → calloc k ≢ null
  pub unused : (k : ℕ) → h (calloc k) ≡ none
  pub apart : (j k : ℕ) → j ≢ k → calloc j ≢ calloc k

-- The deque stands for the units.
pub record Built (calloc : ℕ → Ptr) (h : Heap) (d : Deque) (qs : List Quiz) : Type 0 where
  pub counted : d.loaded ≡ length qs
  pub starts : d.first ≡ calloc 0
  pub ends : d.next ≡ calloc (length qs)
  pub last_is : d.last ≡ (if length qs == 0 then none else some (calloc (length qs - 1)))
  pub spare : (u : UnitNode) × (d.heap (calloc (length qs)) ≡ some u) × Back calloc (length qs) u
  pub nodes : (k : ℕ) → k < length qs → Holds calloc d.heap qs k
  pub others : (p : Ptr) → ((k : ℕ) → k ≤ length qs → p ≢ calloc k) → d.heap p ≡ h p

module _ (calloc : ℕ → Ptr) (h : Heap) (fresh : IsFresh calloc h) where
  -- The first `calloc`.
  pub started-Built : Built calloc h (started (calloc 0) h) []
  unfolding started
  started-Built = record {
    counted = refl;
    starts = refl;
    ends = refl;
    last_is = refl;
    spare = (blank, update_self h (calloc 0) (some blank), inl refl);
    nodes = λ k lt. absurd (omega arith);
    others = λ p new. update-other h (calloc 0) p (some blank) (new 0 (omega arith));
  }

  -- A unit that is not loaded leaves only the spare node changed.
  skip-Built :
      (d : Deque) (qs : List Quiz) (u : UnitNode)
      → Built calloc h d qs
      → Back calloc (length qs) u
      → Built calloc h (record d { heap = update d.heap d.next (some u) }) qs
  skip-Built d qs u b back =
      let here : d.next ≡ calloc (length qs) = b.ends in
      record {
        counted = b.counted;
        starts = b.starts;
        ends = b.ends;
        last_is = b.last_is;
        spare = (u, rw here (update_self d.heap (calloc (length qs)) (some u)), back);
        nodes = λ k lt.
            let (v, at, holds, next, linked_back) = b.nodes k lt in
            (
              v,
              update-other d.heap d.next (calloc k) (some u)
                    (λ e. fresh.apart k (length qs) (omega arith) (e ∙ here))
                  ∙ at,
              holds,
              next,
              linked_back,
            );
        others = λ p new.
            update-other d.heap d.next p (some u) (λ e. new (length qs) (omega arith) (e ∙ here))
            ∙ b.others p new;
      }

  grown-Holds :
      (d : Deque) (qs : List Quiz) (v : UnitNode)
      → Built calloc h d qs
      → Back calloc (length qs) v
      → (k : ℕ) → k < length qs + 1
      → Holds calloc (grown d.heap d.next v (calloc (d.loaded + 1))) (qs ++ quiz_of v ∷ []) k
  grown-Holds d qs v b back k lt =
      let n = length qs in
      let new : calloc (d.loaded + 1) ≡ calloc (n + 1) = ap (λ (k : ℕ). calloc (k + 1)) b.counted in
      let heap = grown d.heap d.next v (calloc (d.loaded + 1)) in
      elim (dec_lt k n) [
        | yes old ↦
            let (u, at, holds, next, linked_back) = b.nodes k old in
            (
              u,
              grown-other d.heap d.next v (calloc (d.loaded + 1)) (calloc k)
                    (λ e. fresh.apart k n (omega arith) (e ∙ b.ends))
                    (λ e. fresh.apart k (n + 1) (omega arith) (e ∙ new))
                  ∙ at,
              get_elem?-snoc qs (quiz_of v) k old ∙ holds,
              next,
              linked_back,
            )
        | no past ↦
            let here : n ≡ k = omega arith in
            subst (Holds calloc heap (qs ++ quiz_of v ∷ [])) here (
              record v { next = calloc (d.loaded + 1) },
              ap heap (sym b.ends)
                  ∙ grown-first d.heap d.next v (calloc (d.loaded + 1))
                      (λ e. fresh.apart n (n + 1) (omega arith) (sym b.ends ∙ e ∙ new)),
              get_elem?-snoc_last qs (quiz_of v),
              new,
              back,
            )
      ]

  -- A unit that is loaded goes into the spare node, and a new spare node follows it.
  append-Built :
      (d : Deque) (qs : List Quiz) (v : UnitNode)
      → Built calloc h d qs
      → Back calloc (length qs) v
      → (d' : Deque) × (append calloc (record d { heap = update d.heap d.next (some v) }) ≡ ok d')
        × Built calloc h d' (qs ++ quiz_of v ∷ [])
  append-Built d qs v b back =
      let n = length qs in
      let new : calloc (d.loaded + 1) ≡ calloc (n + 1) = ap (λ (k : ℕ). calloc (k + 1)) b.counted in
      let many : length (qs ++ quiz_of v ∷ []) ≡ n + 1 = length-snoc qs (quiz_of v) in
      let apart : d.next ≢ calloc (d.loaded + 1) =
        λ e. fresh.apart n (n + 1) (omega arith) (sym b.ends ∙ e ∙ new) in
      let heap = grown d.heap d.next v (calloc (d.loaded + 1)) in
      (
        record {
          heap = heap;
          first = d.first;
          next = calloc (d.loaded + 1);
          last = some d.next;
          loaded = d.loaded + 1;
        },
        append_lem calloc d v (fresh.real (d.loaded + 1)) apart,
        record {
          counted = omega (arith, b.counted, many);
          starts = b.starts;
          ends = new ∙ ap calloc (sym many);
          last_is =
              let some_units : (length (qs ++ quiz_of v ∷ []) == 0) ≡ false =
                ground (arith, many) in
              rw some_units (ap some (b.ends ∙ ap calloc (omega (arith, many))));
          spare = (
            record blank { prev = d.next },
            ap heap (ap calloc many ∙ sym new)
                ∙ update_self _ (calloc (d.loaded + 1)) (some (record blank { prev = d.next })),
            inr (b.ends ∙ ap calloc (omega (arith, many))),
          );
          nodes = λ k lt. grown-Holds d qs v b back k (omega (arith, many));
          others = λ p other.
              grown-other d.heap d.next v (calloc (d.loaded + 1)) p
                (λ e. other n (omega (arith, many)) (e ∙ b.ends))
                (λ e. other (n + 1) (omega (arith, many)) (e ∙ new))
              ∙ b.others p (λ k le. other k (omega (arith, many)));
        },
      )

  -- Every unit that is read is kept in the deque exactly when it is kept in the list.
  pub keep_unit-Built :
      (d : Deque) (qs : List Quiz) (q : Quiz) (error_flag : Bool)
      → Built calloc h d qs
      → Alike (Built calloc h) (keep_unit calloc d q error_flag) (collect qs q error_flag)
  unfolding keep_unit collect fill
  keep_unit-Built d qs q error_flag b =
      let (u, at, back) = b.spare in
      let here : d.heap d.next ≡ some u = ap d.heap b.ends ∙ at in
      elim (Bool-cases (is_loaded q error_flag)) [
        | inl loads ↦
            let (d', appended, built) = append-Built d qs (fill q u) b back in
            rw (here, keep_unit) (rw (loads, collect) (rw appended (both built)))
        | inr fails ↦
            rw (here, keep_unit) (rw (fails, collect) (both (skip-Built d qs (fill q u) b back)))
      ]
