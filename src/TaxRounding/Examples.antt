-- ===== src/TaxRounding/Examples.antt =====
-- lib/tax-rounding.ts: two lines taxed, each rounded on its own.
use reckon.Common.{ℕ, ◌≡◌, List, [], ◌∷◌, map, codes, ok, some, arith}
use reckon.Common.Int.{ℤ, pos}
use reckon.Decimal.{half_up}
use reckon.TaxRounding.{RatedTax, by_line, round_tax}
use reckon.TaxRounding.Totals.{RoundsTo, figure_of, sum_ℤ, round_tax-by_line}

abbrev taxed : ℕ → RatedTax
taxed n = record { rate = codes "7.25"; tax = record { num = pos n; den = pos 1000 } }

round_tax-by_line_example :
    (u : ℤ) × (us : List ℤ) × RoundsTo
      (map (λ l. l.tax) (taxed 725 ∷ taxed 125 ∷ []))
      2
      half_up
      (u ∷ us)
    × (round_tax (taxed 725 ∷ taxed 125 ∷ []) (record { scope = by_line; method = half_up }) 2
        ≡ ok (some (figure_of (sum_ℤ u us) 2)))
round_tax-by_line_example =
    round_tax-by_line (taxed 725) (taxed 125 ∷ []) half_up 2 (omega arith, (omega arith, tt))
