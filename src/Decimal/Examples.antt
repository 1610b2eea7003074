-- ===== src/Decimal/Examples.antt =====
-- lib/decimal.ts: figures read, printed, compared and divided.
use reckon.Common.{ℕ, ◌≡◌, refl, ◌≢◌, ok, codes, trim, trim_start, is_space, arith}
use reckon.Common.Int.{pos, negsuc, neg_ℤ}
use reckon.Decimal.{
  Decimal, Ratio, half_even, half_up, div_round, div, ratio_round, goes_up, round_nat, signed,
  is_negative,
}
use reckon.Decimal.Numeric.{
  from, to_text, read_sign, span_digits, is_digit, read_whole, read_fraction, read_end, make, value,
  print_nat, emit, pad_start,
}
use reckon.Decimal.Rules.{IsRounded, div_round-IsRounded}
use reckon.Decimal.Fractions.{div-round}
use reckon.Decimal.RoundTrip.{from-to_text}

abbrev minus_five_cents : Decimal
minus_five_cents = record { units = negsuc 4; scale = 2 }

abbrev twelve_and_a_half : Decimal
twelve_and_a_half = record { units = pos 1250; scale = 2 }

from_test : from (codes " 12.50 ") ≡ ok twelve_and_a_half
unfolding from trim trim_start is_space read_sign span_digits is_digit read_whole read_fraction
    read_end make value
from_test = refl

to_text_test : to_text minus_five_cents ≡ codes "-0.05"
unfolding to_text print_nat emit pad_start
to_text_test = refl

-- 2.5 to the even digit, 3.5 too.
half_even_test : div_round (pos 25) (pos 10) half_even ≡ ok (pos 2)
unfolding div_round round_nat goes_up signed is_negative
half_even_test = refl

from-to_text_example : from (to_text minus_five_cents) ≡ ok minus_five_cents
from-to_text_example = from-to_text minus_five_cents

div_round-IsRounded_example :
    (q : ℕ) × IsRounded half_up 25 10 q
    × (div_round (pos 25) (pos 10) half_up ≡ ok (pos q))
    × (div_round (neg_ℤ (pos 25)) (pos 10) half_up ≡ ok (neg_ℤ (pos q)))
div_round-IsRounded_example = div_round-IsRounded half_up 25 10 (omega arith)

units-ne : minus_five_cents.units ≢ pos 0
units-ne e = cc

div-round_example :
    (r : Ratio) × (d : Decimal) × (div twelve_and_a_half minus_five_cents ≡ ok r)
    × (ratio_round r 2 half_up ≡ ok d)
    × (d.scale ≡ 2)
div-round_example = div-round twelve_and_a_half minus_five_cents 2 half_up units-ne
