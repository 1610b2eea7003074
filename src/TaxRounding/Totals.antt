-- ===== src/TaxRounding/Totals.antt =====
-- lib/tax-rounding.ts: tax is rounded whatever the lines, and by line it is the sum of each line's.
use reckon.Common.{ℕ, ◌≡◌, refl, some, List, [], ◌∷◌, map, All, ok, arith, ◌∙◌, ap}
use reckon.Common.Int.{ℤ, ◌+ℤ◌}
use reckon.Decimal.{Decimal, Ratio, Rounding, half_up, add, round, ratio_round}
use reckon.Decimal.Rules.{round-exact}
use reckon.Decimal.Exact.{at-add, at_self, scale-add-le}
use reckon.Decimal.Fractions.{IsSound, ratio_round-ok}
use reckon.TaxRounding.{by_line, RatedTax, round_all, add_rounded, reduce, round_scoped, round_tax}

-- A figure of so many units at these places.
abbrev pub figure_of : ℤ → ℕ → Decimal
figure_of u places = record { units = u; scale = places }

abbrev pub sum_ℤ : ℤ → List ℤ → ℤ
sum_ℤ a [] = a
sum_ℤ a (u ∷ us) = sum_ℤ (a +ℤ u) us

-- Fractions rounded in turn to so many units.
abbrev pub RoundsTo : List Ratio → ℕ → Rounding → List ℤ → Type 0
RoundsTo [] places method [] = Unit
RoundsTo [] places method (u ∷ us) = ⊥
RoundsTo (t ∷ ts) places method [] = ⊥
RoundsTo (t ∷ ts) places method (u ∷ us) =
    (ratio_round t places method ≡ ok (figure_of u places)) × RoundsTo ts places method us

abbrev pub figures : List ℤ → ℕ → List Decimal
figures us places = map (λ u. figure_of u places) us

pub round_all-ok :
    (ts : List Ratio) (places : ℕ) (method : Rounding)
    → All IsSound ts
    → (us : List ℤ) × RoundsTo ts places method us
      × (round_all ts places method ≡ ok (figures us places))
unfolding round_all
round_all-ok [] places method h = ([], tt, refl)
round_all-ok (t ∷ ts) places method (h, hs) =
    let (d, e, s) = ratio_round-ok t places method h in
    let (us, rounds, run) = round_all-ok ts places method hs in
    let e' = e ∙ ap (λ n. ok (record { units = d.units; scale = n })) s in
    (d.units ∷ us, (e', rounds), rw e' (rw run refl))

round-add :
    (a b : ℤ) (places : ℕ)
    → round (add (figure_of a places) (figure_of b places)) places half_up
      ≡ ok (figure_of (a +ℤ b) places)
round-add a b places =
    let x = figure_of a places in
    let y = figure_of b places in
    round-exact (add x y) places half_up (scale-add-le x y places (omega arith) (omega arith))
    ∙ ap (λ u. ok (figure_of u places))
        (at-add x y places (omega arith) (omega arith) ∙ rw (at_self x, at_self y) refl)

add_rounded-sum :
    (a : ℤ) (us : List ℤ) (places : ℕ)
    → add_rounded (figure_of a places) (figures us places) places
      ≡ ok (figure_of (sum_ℤ a us) places)
unfolding add_rounded
add_rounded-sum a [] places = refl
add_rounded-sum a (u ∷ us) places = rw (round-add a u places) (add_rounded-sum (a +ℤ u) us places)

pub reduce-sum :
    (u : ℤ) (us : List ℤ) (places : ℕ)
    → reduce (figures (u ∷ us) places) places ≡ ok (some (figure_of (sum_ℤ u us) places))
unfolding reduce
reduce-sum u us places = rw (add_rounded-sum u us places) refl

pub taxes-IsSound :
    (ls : List RatedTax)
    → All (λ l. IsSound l.tax) ls
    → All IsSound (map (λ (l : RatedTax). l.tax) ls)
taxes-IsSound [] h = tt
taxes-IsSound (l ∷ ls) (h, hs) = (h, taxes-IsSound ls hs)

-- By line, the tax on an invoice's lines, at least one and each a fraction over a positive whole, is the sum of each line's own, rounded on its own, to the
-- currency's places: none of it is rounded twice.
pub round_tax-by_line :
    (l : RatedTax) (ls : List RatedTax) (method : Rounding) (places : ℕ)
    → All (λ l. IsSound l.tax) (l ∷ ls)
    → (u : ℤ) × (us : List ℤ) × RoundsTo (map (λ l. l.tax) (l ∷ ls)) places method (u ∷ us)
      × (round_tax (l ∷ ls) (record { scope = by_line; method = method }) places
          ≡ ok (some (figure_of (sum_ℤ u us) places)))
unfolding round_tax round_scoped
round_tax-by_line l ls method places h =
    named (round_all-ok (map (λ l. l.tax) (l ∷ ls)) places method (taxes-IsSound (l ∷ ls) h))
  where
    named :
        (us : List ℤ) × RoundsTo (map (λ l. l.tax) (l ∷ ls)) places method us
          × (round_all (map (λ l. l.tax) (l ∷ ls)) places method ≡ ok (figures us places))
        → (u : ℤ) × (us : List ℤ) × RoundsTo (map (λ l. l.tax) (l ∷ ls)) places method (u ∷ us)
          × (round_tax (l ∷ ls) (record { scope = by_line; method = method }) places
              ≡ ok (some (figure_of (sum_ℤ u us) places)))
    named ([], rounds, run) = elim rounds [ ]
    named (u ∷ us, rounds, run) = (u, us, rounds, rw run (reduce-sum u us places))
