-- ===== src/TripWorth/Examples.antt =====
-- lib/server/trip-worth.ts: ten miles for a client at sixty cents, in the business's own vehicle.
use reckon.Common.{
  ◌≡◌, refl, true, none, some, List, [], ◌∷◌, codes, ok, text_eq, text_lt, trim, trim_start,
  is_space,
}
use reckon.Common.Best.{pick, better_of}
use reckon.Common.Int.{pos, ◌-ℤ◌, ◌+ℤ◌, ◌*ℤ◌}
use reckon.Decimal.{
  at, add, mul, round, pow10, div_round, round_nat, goes_up, signed, is_negative, ratio, ratio_mul,
  ratio_div, ratio_round, gt, cmp, max_of, lt,
}
use reckon.Decimal.Numeric.{
  from, read_sign, span_digits, is_digit, read_whole, read_fraction, read_end, make, value, to_text,
  to_fixed, print_nat, emit, pad_start,
}
use reckon.Pricing.{
  price_on, fits_price, beats_price, reaches_client, job_rate, billed_amount, charge, in_increments,
  to_increment,
}
use reckon.Misc.{leg_worth, leg_charge, leg_vehicle_pay, owner_pay}
use reckon.Misc.Examples.{services, listed}
use reckon.TaxRounding.Totals.{figure_of, sum_ℤ}
use reckon.Trips.{Leg, round_trip}
use reckon.TripWorth.{
  Catalogue, LegFigures, TripWorth, payee_for, owner_of, rule_for, fixed, billed_or_nil,
  leg_figures, all_figures, trip_worth,
}
use reckon.TripWorth.Kept.{BilledAs, PaidAs, trip_worth-kept}

abbrev catalogue : Catalogue
catalogue = record {
  services = services;
  prices = listed ∷ [];
  rules = [];
  people = [];
  places = 2;
}

abbrev leg : Leg
leg = record {
  drive = 0;
  entity_id = some (codes "ann");
  site_id = none;
  rule = round_trip;
  miles = codes "10.00";
}

abbrev figures : List LegFigures
figures =
    record {
      billed = some (codes "6.00");
      paid = some (codes "0.00");
      rate = some (codes "0.60");
      rule = none;
      to_client = true;
    }
    ∷ []

figures_worked_out :
    all_figures catalogue (codes "2025-05-01") (some none) (some (codes "drive")) (leg ∷ [])
    ≡ ok figures
unfolding all_figures leg_figures billed_or_nil fixed rule_for owner_of payee_for leg_worth
    leg_charge leg_vehicle_pay owner_pay price_on fits_price beats_price reaches_client job_rate
    billed_amount charge in_increments to_increment pick better_of at add mul round pow10 div_round
    round_nat goes_up signed is_negative ratio ratio_mul ratio_div ratio_round gt cmp max_of lt from
    read_sign span_digits is_digit read_whole read_fraction read_end make value to_text to_fixed
    print_nat emit pad_start text_eq text_lt trim trim_start is_space ◌*ℤ◌ ◌+ℤ◌
figures_worked_out = refl

figures_billed : BilledAs figures (pos 600 ∷ []) 2
unfolding to_text print_nat emit pad_start
figures_billed = refl

figures_paid : PaidAs figures (pos 0 ∷ []) 2
unfolding to_text print_nat emit pad_start
figures_paid = refl

trip_worth-kept_example :
    (w : TripWorth) × (trip_worth catalogue
        (codes "2025-05-01")
        (some none)
        (some (codes "drive"))
        (leg ∷ [])
      ≡ ok w)
    × (w.billed ≡ some (to_text (figure_of (sum_ℤ (pos 0) (pos 600 ∷ [])) 2)))
    × (w.paid ≡ some (to_text (figure_of (sum_ℤ (pos 0) (pos 0 ∷ [])) 2)))
    × (w.kept
        ≡ some (to_text (figure_of (sum_ℤ (pos 0) (pos 600 ∷ []) -ℤ sum_ℤ (pos 0) (pos 0 ∷ [])) 2)))
trip_worth-kept_example =
    trip_worth-kept catalogue (codes "2025-05-01") none (some (codes "drive")) (leg ∷ []) figures
      (pos 600 ∷ []) (pos 0 ∷ []) figures_worked_out figures_billed figures_paid
