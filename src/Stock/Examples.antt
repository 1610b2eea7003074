-- ===== src/Stock/Examples.antt =====
-- lib/stock-draw.ts: draws off a shelf of two lots.
use reckon.Common.{ℕ, ◌≡◌, refl, List, [], ◌∷◌, Text, codes, ok, arith, trim, trim_start, is_space}
use reckon.Common.Int.{pos, ◌≤ℤ◌, ◌<ℤ◌, ◌*ℤ◌, ◌+ℤ◌}
use reckon.Common.IntLaws.{pos-*}
use reckon.Decimal.{Decimal, at, pow10, round, half_up}
use reckon.Decimal.Numeric.{
  from, read_sign, span_digits, is_digit, read_whole, read_fraction, read_end, make, value,
}
use reckon.Stock.{Shelf, ShelfLot, average, oldest_first, Drawn, Draw, draws, draw}
use reckon.Stock.Fifo.{IsStocked, Served, stock_on, take_oldest-Fifo}
use reckon.Stock.Draws.{draw_short, draw_all}

abbrev lot : Text → Text → ShelfLot
lot id left = record {
  id = id;
  qty_received = codes "10";
  qty_remaining = left;
  ex_tax_cost = codes "50.00";
  tax_paid = codes "4.00";
}

abbrev lots : List ShelfLot
lots = lot (codes "a") (codes "2") ∷ lot (codes "b") (codes "10") ∷ []

abbrev shelf : Shelf
shelf = record { lots = lots; ex_tax_worth = codes "60.00"; tax_worth = codes "4.80" }

abbrev figure : ℕ → Decimal
figure n = record { units = pos n; scale = 0 }

abbrev cents : ℕ → Decimal
cents n = record { units = pos n; scale = 2 }

two_reads : from (codes "2") ≡ ok (figure 2)
unfolding from trim trim_start is_space read_sign span_digits is_digit read_whole read_fraction
    read_end make value
two_reads = refl

ten_reads : from (codes "10") ≡ ok (figure 10)
unfolding from trim trim_start is_space read_sign span_digits is_digit read_whole read_fraction
    read_end make value
ten_reads = refl

worth_reads : from (codes "60.00") ≡ ok (cents 6000)
unfolding from trim trim_start is_space read_sign span_digits is_digit read_whole read_fraction
    read_end make value
worth_reads = refl

tax_reads : from (codes "4.80") ≡ ok (cents 480)
unfolding from trim trim_start is_space read_sign span_digits is_digit read_whole read_fraction
    read_end make value
tax_reads = refl

nonneg : (n : ℕ) → pos 0 ≤ℤ at (figure n) 2
unfolding at pow10
nonneg n = rw (pos-* n 100) (omega arith)

abbrev lots-IsStocked : IsStocked 2 lots
lots-IsStocked = (
  (figure 2, two_reads, omega arith, nonneg 2),
  ((figure 10, ten_reads, omega arith, nonneg 10), tt),
)

three_there : at (figure 3) 2 ≤ℤ stock_on 2 lots lots-IsStocked
unfolding at pow10 ◌*ℤ◌ ◌+ℤ◌
three_there = omega arith

take_oldest-Fifo_example : Served 2 (figure 3) lots
take_oldest-Fifo_example =
    take_oldest-Fifo 2 (figure 3) lots lots-IsStocked (omega arith) (nonneg 3) three_there

thirteen_short : stock_on 2 lots lots-IsStocked <ℤ at (figure 13) 2
unfolding at pow10 ◌*ℤ◌ ◌+ℤ◌
thirteen_short = omega arith

draw_short_example :
    (h : Decimal) × (draw shelf (figure 13) average ≡ ok (Drawn.short h))
    × (at h 2 ≡ stock_on 2 lots lots-IsStocked)
draw_short_example =
    draw_short 2 shelf lots-IsStocked (figure 13) average (omega arith) thirteen_short

twelve_is_all : at (figure 12) 2 ≡ stock_on 2 lots lots-IsStocked
unfolding at pow10 ◌*ℤ◌ ◌+ℤ◌
twelve_is_all = refl

draw_all_example :
    (r : Draw) × (draw shelf (figure 12) oldest_first ≡ ok (draws r))
    × (round (cents 6000) 4 half_up ≡ ok r.ex_tax_cost)
    × (round (cents 480) 4 half_up ≡ ok r.tax_paid)
draw_all_example =
    draw_all 2 shelf lots-IsStocked (figure 12) oldest_first (omega arith) (cents 6000) (cents 480)
      (nonneg 12) twelve_is_all worth_reads tax_reads
