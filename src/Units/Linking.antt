-- ===== src/Units/Linking.antt =====
-- The effect of `link` and `append` of `unit_deque_init` (src/unit.c) on the heap.
use intellect_battle.Prelude.{ℕ, ◌+◌, ◌≡◌, ◌≢◌, refl, sym, ◌∙◌, false, some, ◌==◌, arith}
use intellect_battle.Units.{Heap, Ptr, UnitNode, null}
use intellect_battle.Units.Free.{update, set_next, update-other, update_self}
use intellect_battle.Units.Parse.{ok}
use intellect_battle.Units.Load.{blank, set_prev, link, Deque, append}

-- The heap after `last->next = next; next->prev = last;`.
abbrev pub linked : Heap → Ptr → UnitNode → Ptr → UnitNode → Heap
linked h a u b v =
    update (update h a (some (record u { next = b }))) b (some (record v { prev = a }))

pub link_lem :
    (h : Heap) (a b : Ptr) (u v : UnitNode)
    → h a ≡ some u
    → h b ≡ some v
    → b ≢ a
    → link h a b ≡ some (linked h a u b v)
unfolding link set_next set_prev
link_lem h a b u v at_a at_b other =
    rw (at_a, update-other h a b (some (record u { next = b })) other, at_b) refl

-- The heap after a node `v` was filled at `a` and a new one made at `b`.
abbrev pub grown : Heap → Ptr → UnitNode → Ptr → Heap
grown h a v b = linked (update (update h a (some v)) b (some blank)) a v b blank

pub grown-other :
    (h : Heap) (a : Ptr) (v : UnitNode) (b p : Ptr) → p ≢ a → p ≢ b → grown h a v b p ≡ h p
grown-other h a v b p not_a not_b =
    update-other _ b p (some (record blank { prev = a })) not_b
    ∙ update-other _ a p (some (record v { next = b })) not_a
    ∙ update-other _ b p (some blank) not_b
    ∙ update-other h a p (some v) not_a

pub grown-first :
    (h : Heap) (a : Ptr) (v : UnitNode) (b : Ptr)
    → a ≢ b
    → grown h a v b a ≡ some (record v { next = b })
grown-first h a v b apart =
    update-other _ b a (some (record blank { prev = a })) apart
    ∙ update_self _ a (some (record v { next = b }))

pub append_lem :
    (calloc : ℕ → Ptr) (d : Deque) (v : UnitNode)
    → calloc (d.loaded + 1) ≢ null
    → d.next ≢ calloc (d.loaded + 1)
    → append calloc (record d { heap = update d.heap d.next (some v) })
      ≡ ok (record {
        heap = grown d.heap d.next v (calloc (d.loaded + 1));
        first = d.first;
        next = calloc (d.loaded + 1);
        last = some d.next;
        loaded = d.loaded + 1;
      })
unfolding append
append_lem calloc d v real apart =
    let b = calloc (d.loaded + 1) in
    let h1 = update d.heap d.next (some v) in
    let there : (b == null) ≡ false = ground (arith, real) in
    let joined =
      link_lem (update h1 b (some blank)) d.next b v blank
        (update-other h1 b d.next (some blank) apart ∙ update_self d.heap d.next (some v))
        (update_self h1 b (some blank)) (λ e. apart (sym e)) in
    rw (there, joined) refl
