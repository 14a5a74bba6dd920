-- ===== src/Server/Startup.antt =====
-- The start of the server's threads (src/server.c, lines 132 to 147): when the wait for them ends.
use intellect_battle.Prelude.{
  ℕ, zero, suc, ◌+◌, ◌≤◌, ◌≡◌, refl, ap, ◌∙◌, Bool, true, false, some, List, [], ◌∷◌, arith, ◌>>=◌,
}
use intellect_battle.Server.Loop.{await, synchronize}

-- How many of the polls find a thread that runs.
abbrev pub running : List Bool → ℕ
running [] = 0
running (true ∷ polls) = suc (running polls)
running (false ∷ polls) = running polls

await-ends :
    (n : ℕ) (polls : List Bool)
    → n ≤ running polls
    → (left : List Bool) × (await n polls ≡ some left) × (n + running left ≡ running polls)
unfolding await
await-ends zero polls enough = (polls, refl, omega arith)
await-ends (suc n) [] enough = absurd (omega arith)
await-ends (suc n) (true ∷ polls) enough =
    let (left, ends, count) = await-ends n polls (omega arith) in (left, ends, omega arith)
await-ends (suc n) (false ∷ polls) enough = await-ends (suc n) polls enough

-- The wait for the threads ends as soon as as many polls as there are workers and rooms have found a
-- thread that runs. What it leaves unread are the polls after that.
pub synchronize-ends :
    (wnum rnum : ℕ) (polls : List Bool)
    → wnum + rnum ≤ running polls
    → (left : List Bool) × (synchronize wnum rnum polls ≡ some left)
      × (wnum + rnum + running left ≡ running polls)
unfolding synchronize
synchronize-ends wnum rnum polls enough =
    let (left, ends, count) = await-ends wnum polls (omega arith) in
    let (left', ends', count') = await-ends rnum left (omega arith) in
    (left', ap (λ o. o >>= await rnum) ends ∙ ends', omega arith)
