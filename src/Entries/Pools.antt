-- ===== src/Entries/Pools.antt =====
-- lib/server/valuation/entries.ts: what a capped pool covers of the entries that draw on it.
use reckon.Common.{
  ℕ, ◌+◌, ◌-◌, ◌≤◌, ◌≡◌, refl, ◌∙◌, min, ◌⊎◌, inl, inr, leb, leb→le, not_leb→lt, Bool-cases, List,
  [], ◌∷◌, All, Text, ok, arith,
}
use reckon.Common.Sorting.{total, sort_by, sort_by-total, sort_by-All}
use reckon.Common.Int.{pos, -ℤ_parts}
use reckon.Decimal.{Order}
use reckon.Entries.{Drawn, pool_seconds, covered_of, draw_pool, drawn_before, draw_in_order}

-- Every entry of the pool draws on the same number of seconds.
abbrev pub IsPool : ℕ → List Drawn → Type 0
IsPool pool = All (λ d. pool_seconds d.s ≡ ok (pos pool))

abbrev pub entry_seconds : Drawn → ℕ
entry_seconds d = d.e.seconds

-- Each entry's cover, against the entry: its own id, and no more than its seconds; and once one is
-- covered short, the pool is spent.
abbrev pub Covered : List Drawn → List (Text × ℕ) → Type 0
Covered [] [] = Unit
Covered [] (c ∷ cs) = ⊥
Covered (d ∷ ds) [] = ⊥
Covered (d ∷ ds) ((id, n) ∷ cs) =
    (id ≡ d.e.id)
    × ((n ≡ d.e.seconds) ⊎ (n ≤ d.e.seconds) × (total (λ c. c.1) cs ≡ 0))
    × Covered ds cs

covered_of-lem :
    (seconds pool before : ℕ) → covered_of seconds (pos pool) before ≡ min seconds (pool - before)
unfolding covered_of
covered_of-lem seconds pool before = ground (arith, -ℤ_parts (pos pool) (pos before))

-- What a pool covers from a point on.
abbrev CoversFrom : ℕ → ℕ → List Drawn → Type 0
CoversFrom pool before ds =
    (cs : List (Text × ℕ)) × (draw_pool before ds ≡ ok cs)
    × (total (λ c. c.1) cs ≡ min (pool - before) (total entry_seconds ds))
    × Covered ds cs

full_or_spent :
    (n seconds pool before rest later : ℕ)
    → n ≡ min seconds (pool - before)
    → rest ≡ min (pool - (before + seconds)) later
    → (n ≡ seconds) ⊎ (n ≤ seconds) × (rest ≡ 0)
full_or_spent n seconds pool before rest later h k =
    elim (Bool-cases (leb seconds (pool - before))) [
      | inl t ↦ inl (let le = leb→le _ _ t in omega arith)
      | inr f ↦ let gt = not_leb→lt _ _ f in inr (omega arith, omega arith)
    ]

draw_pool-Covers : (pool before : ℕ) (ds : List Drawn) → IsPool pool ds → CoversFrom pool before ds
unfolding draw_pool
draw_pool-Covers pool before [] h = ([], refl, omega arith, tt)
draw_pool-Covers pool before (d ∷ ds) (h, hs) =
    let (cs, run, sum, each) = draw_pool-Covers pool (before + d.e.seconds) ds hs in
    let n = covered_of-lem d.e.seconds pool before in
    (
      (d.e.id, covered_of d.e.seconds (pos pool) before) ∷ cs,
      rw h (rw run),
      omega arith,
      (refl, full_or_spent _ d.e.seconds pool before _ _ n sum, each),
    )

-- A capped pool covers exactly the lesser of what it holds and what was worked, each entry up to
-- its own length, in the order the work was done, and leaves nothing for anyone after an entry it
-- covers short.
pub draw_in_order-Covered :
    (locale_compare : Text → Text → Order) (pool : ℕ) (ds : List Drawn)
    → IsPool pool ds
    → (cs : List (Text × ℕ)) × (draw_in_order locale_compare ds ≡ ok cs)
      × (total (λ c. c.1) cs ≡ min pool (total entry_seconds ds))
      × Covered (sort_by (drawn_before locale_compare) ds) cs
unfolding draw_in_order
draw_in_order-Covered locale_compare pool ds h =
    let before = drawn_before locale_compare in
    let (cs, run, sum, each) =
      draw_pool-Covers pool 0 (sort_by before ds) (sort_by-All before _ ds h) in
    (cs, run, sum ∙ omega (arith, sort_by-total before entry_seconds ds), each)
