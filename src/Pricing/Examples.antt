-- ===== src/Pricing/Examples.antt =====
-- lib/server/valuation/pricing.ts: a price in force, and a visit billed.
use reckon.Common.{
  ◌≡◌, refl, ◌⊎◌, none, some, List, [], ◌∷◌, Text, codes, ok, arith, text_eq, text_lt, trim,
  trim_start, is_space,
}
use reckon.Common.Best.{pick}
use reckon.Common.Says.{Foremost}
use reckon.Common.Int.{pos, ◌≤ℤ◌}
use reckon.Decimal.{Decimal, Ratio, half_up, round, ratio, ratio_mul, ratio_round}
use reckon.Decimal.Numeric.{
  from, read_sign, span_digits, is_digit, read_whole, read_fraction, read_end, make, value,
}
use reckon.Pricing.{
  Price, ServiceTerms, hour, fits_price, beats_price, price_on, reaches_client, or_zero,
  in_increments, billed_amount,
}
use reckon.Pricing.Prices.{InForce, Precedes, price_on-Foremost}
use reckon.Pricing.Bills.{billed_amount-bills}

abbrev listed : Text → Text → Price
listed rate from_day = record {
  service_id = codes "mow";
  entity_id = none;
  rate = rate;
  additional_rate = codes "0";
  effective_from = from_day;
}

abbrev prices : List Price
prices = listed (codes "40") (codes "2024-01-01") ∷ listed (codes "45") (codes "2025-01-01") ∷ []

price_on_test :
    price_on prices (codes "mow") none (codes "2024-06-01")
    ≡ some (listed (codes "40") (codes "2024-01-01"))
unfolding price_on pick fits_price beats_price reaches_client text_eq text_lt
price_on_test = refl

price_on-Foremost_example :
    Foremost
      (InForce (codes "mow") none (codes "2025-06-01"))
      Precedes
      prices
      (price_on prices (codes "mow") none (codes "2025-06-01"))
price_on-Foremost_example = price_on-Foremost prices (codes "mow") none (codes "2025-06-01")

abbrev mowing : ServiceTerms
mowing = record {
  id = codes "mow";
  unit = hour;
  bill_to_nearest_seconds = some 900;
  minimum_charge = some (codes "40.000");
}

-- The minimum as it is stored, to three places.
abbrev forty_even : Decimal
forty_even = record { units = pos 40000; scale = 3 }

abbrev forty : Decimal
forty = record { units = pos 4000; scale = 2 }

-- Ten minutes.
abbrev visit : Ratio
visit = record { num = pos 600; den = pos 3600 }

forty_reads : from (or_zero mowing.minimum_charge) ≡ ok forty_even
unfolding from trim trim_start is_space read_sign span_digits is_digit read_whole read_fraction
    read_end make value
forty_reads = refl

billed_amount-bills_example :
    (q : Ratio) × (amount f b : Decimal) × (in_increments hour (some 900) visit ≡ ok q)
    × (ratio_round (ratio_mul q (ratio forty)) 2 half_up ≡ ok amount)
    × (round forty_even 2 half_up ≡ ok f)
    × (billed_amount mowing (some forty) visit 2 ≡ ok (some b))
    × (b.scale ≡ 2)
    × ((b ≡ amount) ⊎ (b ≡ f))
    × (amount.units ≤ℤ b.units)
    × (f.units ≤ℤ b.units)
billed_amount-bills_example =
    billed_amount-bills mowing forty visit 2 forty_even forty_reads (omega arith) (omega arith)
